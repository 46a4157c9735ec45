-- ===== src/Sync/Mutex.antt =====
-- include/faio/detail/sync/mutex.hpp: the coroutine mutex. A waiting `Awaiter` is the number of its
-- coroutine's handle, and a list of awaiters linked by `_next` is a list of those. A call whose
-- compare-exchange succeeds is one step; where it fails, the loop starts over from the new state.
pub mod Fairness
use faio.Base.{ℕ, Bool, true, false, List, [], ◌∷◌, Option, none, some, if◌then◌else◌, ◌==◌}

-- `_state`: `unlocking_state()`, or the awaiters pushed since the last reversal, the latest first;
-- the empty list is `locking_state()`, the null pointer.
pub data LockState : Type 0 where
  unlocked : LockState
  locked : List ℕ → LockState

pub record Mutex : Type 0 where
  pub state : LockState
  pub fifo_awaiters : List ℕ

unfoldable pub new : Mutex
new = record { state = unlocked; fifo_awaiters = [] }

-- The new state and whether the coroutine is suspended.
abbrev pub lock_state : LockState → ℕ → LockState × Bool
lock_state unlocked handle = (locked [], false)
lock_state (locked awaiters) handle = (locked (handle ∷ awaiters), true)

-- `co_await mutex.lock()`: `Awaiter::await_suspend`.
unfoldable pub lock : Mutex → ℕ → Mutex × Bool
lock m handle = let after = lock_state m.state handle in (record m { state = after.0 }, after.1)

-- Equality of `_state` as a pointer: that of the awaiter pushed last, or of the two marks.
abbrev pub same_state : LockState → LockState → Bool
same_state unlocked unlocked = true
same_state unlocked (locked awaiters) = false
same_state (locked awaiters) unlocked = false
same_state (locked []) (locked []) = true
same_state (locked []) (locked (awaiter ∷ rest)) = false
same_state (locked (awaiter ∷ rest)) (locked []) = false
same_state (locked (awaiter ∷ rest)) (locked (other ∷ others)) = awaiter == other

-- `compare_exchange_strong` on `_state`, from `expected` to `desired`, and whether it exchanged them.
abbrev pub compare_exchange : Mutex → (expected desired : LockState) → Mutex × Bool
compare_exchange m expected desired =
    if same_state m.state expected then (record m { state = desired }, true) else (m, false)

-- `try_lock` in two steps: what `_state.load` gives is `loaded`, and `m` is the mutex that the
-- compare-exchange finds, which other coroutines may have changed in between.
unfoldable pub try_lock : LockState → Mutex → Mutex × Bool
try_lock loaded m = compare_exchange m loaded (locked [])

-- The loop that reverses the list of awaiters onto `_fifo_awaiters`.
abbrev pub reverse_onto : List ℕ → List ℕ → List ℕ
reverse_onto fifo [] = fifo
reverse_onto fifo (awaiter ∷ rest) = reverse_onto (awaiter ∷ fifo) rest

-- The end of `unlock`: the first in line goes on the run queue.
abbrev pub hand_over : LockState → List ℕ → Mutex × Option ℕ
hand_over state [] = (record { state = state; fifo_awaiters = [] }, none)
hand_over state (awaiter ∷ rest) = (record { state = state; fifo_awaiters = rest }, some awaiter)

abbrev pub unlock_state : LockState → List ℕ → Option (Mutex × Option ℕ)
unlock_state unlocked fifo = none
unlock_state (locked []) [] = some (record { state = unlocked; fifo_awaiters = [] }, none)
unlock_state (locked (awaiter ∷ rest)) [] =
    some (hand_over (locked []) (reverse_onto [] (awaiter ∷ rest)))
unlock_state (locked awaiters) (first ∷ rest) = some (hand_over (locked awaiters) (first ∷ rest))

-- `none` where the program is terminated; else the mutex and the coroutine put on the run queue.
unfoldable pub unlock : Mutex → Option (Mutex × Option ℕ)
unlock m = unlock_state m.state m.fifo_awaiters
