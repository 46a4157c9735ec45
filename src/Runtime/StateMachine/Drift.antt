-- ===== src/Runtime/StateMachine/Drift.antt =====
-- What the count of working workers says (state_machine.hpp): `cancel_sleeping` takes a worker off
-- the list of sleepers and does not count it as working.
use mathlib.Core.Path.{◌≡◌}
use faio.Base.{
  leb, le→ltb, ℕ, ◌+◌, ◌*◌, ◌%◌, ◌^◌, ◌<◌, refl, ap, ◌∙◌, Bool, ◌&&◌, true, false, List, [], ◌∷◌,
  ◌++◌, Option, none, some, Bool-cases, arith, inl, inr, length, length-append, if◌then◌else◌, ltb,
  ◌==◌,
}
use faio.Runtime.StateMachine.{
  StateMachine, ThreadCounters, new, should_wakeup, pop_back, pop_behind, wake_back,
  worker_to_notify, set_sleeping, set_searching, find, erase, cancel_searching, cancel_sleeping,
}

-- The calls that the workers make. A reading `seen` is any earlier one.
pub data Call : Type 0 where
  notify : ThreadCounters → Call
  sleep : ℕ → Bool → Call
  search : ℕ → Call
  stop_search : Call
  cancel_sleep : ℕ → Call

-- The state after a call, and 1 where the call took a worker off the list by `cancel_sleeping`.
abbrev pub call : Call → StateMachine → StateMachine × ℕ
call (notify seen) s = ((worker_to_notify seen s).0, 0)
call (sleep id searching) s = ((set_sleeping s id searching).0, 0)
call (search seen) s = ((set_searching seen s).0, 0)
call stop_search s = ((cancel_searching s).0, 0)
call (cancel_sleep id) s = let done = cancel_sleeping s id in (done.0, (if done.1 then 1 else 0))

-- The state after the calls, and how many took a worker off by `cancel_sleeping`.
abbrev pub calls : List Call → StateMachine → StateMachine × ℕ
calls [] s = (s, 0)
calls (c ∷ cs) s = let one = call c s in let rest = calls cs one.0 in (rest.0, one.1 + rest.1)

-- The list that was popped.
abbrev pub whole : Option (List ℕ × ℕ) → List ℕ
whole none = []
whole (some (rest, last)) = rest ++ last ∷ []

whole-pop_behind : (x : ℕ) (o : Option (List ℕ × ℕ)) → whole (pop_behind x o) ≡ x ∷ whole o
whole-pop_behind x none = refl
whole-pop_behind x (some (rest, last)) = refl

pub whole-pop_back : (xs : List ℕ) → whole (pop_back xs) ≡ xs
whole-pop_back [] = refl
whole-pop_back (x ∷ xs) = whole-pop_behind x (pop_back xs) ∙ ap (◌∷◌ x) (whole-pop_back xs)

length-erase : (id : ℕ) (xs : List ℕ) → find id xs ≡ true → length xs ≡ length (erase id xs) + 1
length-erase id [] h = grind arith
length-erase id (x ∷ xs) h = elim (Bool-cases (x == id)) [
  | inl same ↦ rw same (omega arith)
  | inr other ↦ rw other (omega (arith, length-erase id xs (ground arith)))
]

-- Working and sleeping workers, and those taken off the list by `cancel_sleeping`.
abbrev pub tally : StateMachine → ℕ → ℕ
tally s off = (s.counters.working + length s.sleepers + off) % 2 ^ 64

tally-wake_back :
    (s : StateMachine) (o : Option (List ℕ × ℕ))
    → whole o ≡ s.sleepers
    → tally (wake_back s o).0 0 ≡ tally s 0
tally-wake_back s none h = refl
tally-wake_back s (some (rest, id)) h = omega (arith, length-append rest (id ∷ []), ap length h)

tally-worker_to_notify :
    (seen : ThreadCounters) (s : StateMachine) → tally (worker_to_notify seen s).0 0 ≡ tally s 0
unfolding worker_to_notify
tally-worker_to_notify seen s = elim (Bool-cases (should_wakeup seen s.num_workers)) [
  | inr off ↦ rw off refl
  | inl on ↦ rw on (elim (Bool-cases (should_wakeup s.counters s.num_workers)) [
    | inr off ↦ rw off refl
    | inl still ↦ rw still (tally-wake_back s (pop_back s.sleepers) (whole-pop_back s.sleepers))
  ])
]

tally-call : (c : Call) (s : StateMachine) → tally (call c s).0 (call c s).1 ≡ tally s 0
unfolding set_sleeping set_searching cancel_searching cancel_sleeping
tally-call (notify seen) s = tally-worker_to_notify seen s
tally-call (sleep id true) s = omega (arith, length-append s.sleepers (id ∷ []))
tally-call (sleep id false) s = omega (arith, length-append s.sleepers (id ∷ []))
tally-call (search seen) s = elim (Bool-cases (leb s.num_workers (2 * seen % 2 ^ 64))) [
  | inl off ↦ rw off refl
  | inr on ↦ rw on refl
]
tally-call stop_search s = refl
tally-call (cancel_sleep id) s = elim (Bool-cases (find id s.sleepers)) [
  | inl here ↦ rw here (omega (arith, length-erase id s.sleepers here))
  | inr away ↦ rw away refl
]

calls-tally : (cs : List Call) (s : StateMachine) → tally (calls cs s).0 (calls cs s).1 ≡ tally s 0
calls-tally [] s = refl
calls-tally (c ∷ cs) s = omega (arith, tally-call c s, calls-tally cs (call c s).0)

-- The number of workers stays, and the count stays in a `size_t`.
abbrev pub Keeps : StateMachine → StateMachine → Type 0
Keeps s t =
    (t.num_workers ≡ s.num_workers) × (s.counters.working < 2 ^ 64 → t.counters.working < 2 ^ 64)

Keeps-refl : (s : StateMachine) → Keeps s s
Keeps-refl s = (refl, λ h. h)

wake_back-Keeps : (s : StateMachine) (o : Option (List ℕ × ℕ)) → Keeps s (wake_back s o).0
wake_back-Keeps s none = Keeps-refl s
wake_back-Keeps s (some (rest, id)) = (refl, λ h. omega arith)

call-Keeps : (c : Call) (s : StateMachine) → Keeps s (call c s).0
unfolding worker_to_notify set_sleeping set_searching cancel_searching cancel_sleeping
call-Keeps (notify seen) s = elim (Bool-cases (should_wakeup seen s.num_workers)) [
  | inr off ↦ rw off (Keeps-refl s)
  | inl on ↦ rw on (elim (Bool-cases (should_wakeup s.counters s.num_workers)) [
    | inr off ↦ rw off (Keeps-refl s)
    | inl still ↦ rw still (wake_back-Keeps s (pop_back s.sleepers))
  ])
]
call-Keeps (sleep id true) s = (refl, λ h. omega arith)
call-Keeps (sleep id false) s = (refl, λ h. omega arith)
call-Keeps (search seen) s = elim (Bool-cases (leb s.num_workers (2 * seen % 2 ^ 64))) [
  | inl off ↦ rw off (Keeps-refl s)
  | inr on ↦ rw on (refl, λ h. h)
]
call-Keeps stop_search s = (refl, λ h. h)
call-Keeps (cancel_sleep id) s = elim (Bool-cases (find id s.sleepers)) [
  | inl here ↦ rw here (refl, λ h. h)
  | inr away ↦ rw away (Keeps-refl s)
]

calls-Keeps : (cs : List Call) (s : StateMachine) → Keeps s (calls cs s).0
calls-Keeps [] s = Keeps-refl s
calls-Keeps (c ∷ cs) s =
    let one = call-Keeps c s in
    let rest = calls-Keeps cs (call c s).0 in (rest.0 ∙ one.0, λ h. rest.1 (one.1 h))

and_false : (b : Bool) → (b && false) ≡ false
and_false true = refl
and_false false = refl

-- Whatever the workers of a machine of n workers (n below 2 ^ 64) call, in whatever order, modulo
-- 2 ^ 64: the number of those counted as working, and those on the list, and one for every
-- success of cancel_sleeping so far, come to n.
pub calls-tally_new :
    (n : ℕ) (cs : List Call) → n < 2 ^ 64 → tally (calls cs (new n)).0 (calls cs (new n)).1 ≡ n
unfolding new
calls-tally_new n cs small = calls-tally cs (new n) ∙ omega arith

-- In a machine of n workers (n below 2 ^ 63), once the sleepers and the successes of
-- cancel_sleeping come to more than n, and to less than 2 ^ 63, worker_to_notify never wakes
-- anyone, whether workers sleep or not.
pub worker_to_notify_deaf :
    (n : ℕ) (cs : List Call) (seen : ThreadCounters)
    → n < 2 ^ 63
    → n < length (calls cs (new n)).0.sleepers + (calls cs (new n)).1
    → length (calls cs (new n)).0.sleepers + (calls cs (new n)).1 < 2 ^ 63
    → worker_to_notify seen (calls cs (new n)).0 ≡ ((calls cs (new n)).0, none)
unfolding worker_to_notify should_wakeup new
worker_to_notify_deaf n cs seen small over under =
    let count = calls-tally_new n cs (omega arith) in
    let kept = calls-Keeps cs (new n) in
    let fits = kept.1 (omega arith) in silent seen (calls cs (new n)).0 (le→ltb _ _ (omega arith))
  where
    silent :
        (seen : ThreadCounters) (s : StateMachine)
        → ltb s.counters.working s.num_workers ≡ false
        → worker_to_notify seen s ≡ (s, none)
    silent seen s full = elim (Bool-cases (should_wakeup seen s.num_workers)) [
      | inr off ↦ rw off refl
      | inl on ↦
          rw (on, ap (◌&&◌ (s.counters.searching == 0)) full, and_false (s.counters.searching == 0))
            refl
    ]
