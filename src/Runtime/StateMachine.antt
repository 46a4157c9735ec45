-- ===== src/Runtime/StateMachine.antt =====
-- include/faio/detail/runtime/core/state_machine.hpp: the counts of working and searching workers and
-- the list of sleeping ones. Each operation is one step: the mutex makes it so for the list. The
-- test that `worker_to_notify` makes before it has the mutex reads the counters at an earlier time,
-- so it has counters of its own.
pub mod Sleepers
pub mod Drift
use faio.Base.{
  ℕ, ◌+◌, ◌*◌, ◌%◌, ◌^◌, Bool, true, false, ◌&&◌, List, [], ◌∷◌, ◌++◌, Option, none, some,
  if◌then◌else◌, ◌==◌, ltb, leb, length, next, sub_size,
}

pub record ThreadCounters : Type 0 where
  pub working : ℕ
  pub searching : ℕ

pub record StateMachine : Type 0 where
  pub counters : ThreadCounters
  pub num_workers : ℕ
  pub sleepers : List ℕ

abbrev pub inc_num_searching : ThreadCounters → ThreadCounters
inc_num_searching c = record c { searching = next c.searching }

-- The counters afterwards, and whether this was the last searching worker.
abbrev pub dec_num_searching : ThreadCounters → ThreadCounters × Bool
dec_num_searching c = (record c { searching = sub_size c.searching 1 }, c.searching == 1)

-- Called with 1 only.
abbrev pub wake_up_one : ThreadCounters → ThreadCounters
wake_up_one c = record { working = next c.working; searching = next c.searching }

abbrev pub dec_num_working : ThreadCounters → Bool → ThreadCounters × Bool
dec_num_working c is_searching =
    let fewer = record c { working = sub_size c.working 1 } in
    if is_searching then dec_num_searching fewer else (fewer, false)

unfoldable pub new : ℕ → StateMachine
new n = record { counters = record { working = n; searching = 0 }; num_workers = n; sleepers = [] }

unfoldable pub should_wakeup : ThreadCounters → ℕ → Bool
should_wakeup c num_workers = (c.searching == 0) && ltb c.working num_workers

abbrev pub pop_behind : ℕ → Option (List ℕ × ℕ) → Option (List ℕ × ℕ)
pop_behind x none = some ([], x)
pop_behind x (some (ys, last)) = some (x ∷ ys, last)

-- `back` and `pop_back` of a vector.
abbrev pub pop_back : List ℕ → Option (List ℕ × ℕ)
pop_back [] = none
pop_back (x ∷ xs) = pop_behind x (pop_back xs)

abbrev pub wake_back : StateMachine → Option (List ℕ × ℕ) → StateMachine × Option ℕ
wake_back s none = (s, none)
wake_back s (some (rest, worker_id)) =
    (record s { counters = wake_up_one s.counters; sleepers = rest }, some worker_id)

-- `seen` is what the test without the mutex reads.
unfoldable pub worker_to_notify : ThreadCounters → StateMachine → StateMachine × Option ℕ
worker_to_notify seen s =
    if should_wakeup seen s.num_workers
    then (if should_wakeup s.counters s.num_workers
        then wake_back s (pop_back s.sleepers)
        else (s, none))
    else (s, none)

unfoldable pub set_sleeping : StateMachine → ℕ → Bool → StateMachine × Bool
set_sleeping s worker_id is_searching =
    let fewer = dec_num_working s.counters is_searching in
    (record s { counters = fewer.0; sleepers = s.sleepers ++ worker_id ∷ [] }, fewer.1)

-- `seen` is the number of searching workers that the test reads.
unfoldable pub set_searching : ℕ → StateMachine → StateMachine × Bool
set_searching seen s =
    if leb s.num_workers (2 * seen % 2 ^ 64)
    then (s, false)
    else (record s { counters = inc_num_searching s.counters }, true)

unfoldable pub cancel_searching : StateMachine → StateMachine × Bool
cancel_searching s =
    let fewer = dec_num_searching s.counters in (record s { counters = fewer.0 }, fewer.1)

-- `std::find`, and the list without the element that it finds.
abbrev pub find : ℕ → List ℕ → Bool
find id [] = false
find id (x ∷ xs) = if x == id then true else find id xs

abbrev pub erase : ℕ → List ℕ → List ℕ
erase id [] = []
erase id (x ∷ xs) = let rest = erase id xs in if x == id then xs else x ∷ rest

unfoldable pub cancel_sleeping : StateMachine → ℕ → StateMachine × Bool
cancel_sleeping s worker_id =
    if find worker_id s.sleepers
    then (record s { sleepers = erase worker_id s.sleepers }, true)
    else (s, false)

unfoldable pub contains : StateMachine → ℕ → Bool
contains s worker_id = find worker_id s.sleepers
