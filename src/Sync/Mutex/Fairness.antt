-- ===== src/Sync/Mutex/Fairness.antt =====
-- Who gets the mutex, and when (mutex.hpp).
use mathlib.Core.Bool.{true≢false}
use faio.Sync.RingBuffer.Laws.{take_front}
use faio.Base.{
  subst, ℕ, ◌≡◌, refl, sym, ap, ◌∙◌, Bool, true, false, not, List, [], ◌∷◌, ◌++◌, Option, none,
  some, if◌then◌else◌, append-nil, append_assoc, ==_refl,
}
use faio.Sync.Mutex.{
  LockState, unlocked, locked, Mutex, same_state, lock_state, lock, try_lock, reverse_onto,
  hand_over, unlock_state, unlock,
}

-- Those in line, first come first.
abbrev pub line_of : LockState → List ℕ
line_of unlocked = []
line_of (locked awaiters) = reverse_onto [] awaiters

abbrev pub line : Mutex → List ℕ
line m = m.fifo_awaiters ++ line_of m.state

-- An unlocked mutex has no one in line.
abbrev pub StateIsValid : LockState → List ℕ → Type 0
StateIsValid unlocked fifo = fifo ≡ []
StateIsValid (locked awaiters) fifo = Unit

abbrev pub MutexIsValid : Mutex → Type 0
MutexIsValid m = StateIsValid m.state m.fifo_awaiters

reverse_onto-append : (fifo xs : List ℕ) → reverse_onto fifo xs ≡ reverse_onto [] xs ++ fifo
reverse_onto-append fifo [] = refl
reverse_onto-append fifo (x ∷ xs) =
    reverse_onto-append (x ∷ fifo) xs
    ∙ sym (append_assoc (reverse_onto [] xs) (x ∷ []) fifo)
    ∙ ap (λ ys. ys ++ fifo) (sym (reverse_onto-append (x ∷ []) xs))

-- The calls: a coroutine locks, or the holder unlocks.
pub data Call : Type 0 where
  locks : ℕ → Call
  unlocks : Call

-- The mutex, those who came for it, those who got it, in order.
pub record Log : Type 0 where
  pub mutex : Mutex
  pub came : List ℕ
  pub got : List ℕ

abbrev pub granted : Option ℕ → List ℕ
granted none = []
granted (some handle) = handle ∷ []

abbrev pub unlocked_log : Mutex → Option (Mutex × Option ℕ) → Log
unlocked_log m none = record { mutex = m; came = []; got = [] }
unlocked_log m (some (after, next_one)) = record {
  mutex = after;
  came = [];
  got = granted next_one;
}

abbrev pub call : Call → Mutex → Log
call (locks handle) m =
    let after = lock m handle in
    record { mutex = after.0; came = handle ∷ []; got = (if after.1 then [] else handle ∷ []) }
call unlocks m = unlocked_log m (unlock m)

abbrev pub calls : List Call → Mutex → Log
calls [] m = record { mutex = m; came = []; got = [] }
calls (c ∷ cs) m =
    let one = call c m in
    let rest = calls cs one.mutex in
    record { mutex = rest.mutex; came = one.came ++ rest.came; got = one.got ++ rest.got }

-- Where the mutex is well formed after the calls, and who got it and who is in line then are those
-- who were in line and those who came, in that order.
pub record Fair (m : Mutex) (log : Log) : Type 0 where
  pub is_valid : MutexIsValid log.mutex
  pub in_order : log.got ++ line log.mutex ≡ line m ++ log.came

lock_state-Fair :
    (state : LockState) (fifo : List ℕ) (handle : ℕ)
    → StateIsValid state fifo
    → StateIsValid (lock_state state handle).0 fifo
      × ((if (lock_state state handle).1 then [] else handle ∷ [])
            ++ (fifo ++ line_of (lock_state state handle).0)
          ≡ (fifo ++ line_of state) ++ handle ∷ [])
lock_state-Fair unlocked fifo handle empty =
    (tt, ap (λ ys. handle ∷ (ys ++ [])) empty ∙ sym (ap (λ ys. (ys ++ []) ++ handle ∷ []) empty))
lock_state-Fair (locked awaiters) fifo handle v = (
  tt,
  ap (◌++◌ fifo) (reverse_onto-append (handle ∷ []) awaiters)
      ∙ sym (append_assoc fifo (reverse_onto [] awaiters) (handle ∷ [])),
)

hand_over-line :
    (fifo : List ℕ)
    → granted (hand_over (locked []) fifo).1 ++ line (hand_over (locked []) fifo).0 ≡ fifo
hand_over-line [] = refl
hand_over-line (first ∷ rest) = append-nil (first ∷ rest)

hand_over-MutexIsValid : (fifo : List ℕ) → MutexIsValid (hand_over (locked []) fifo).0
hand_over-MutexIsValid [] = tt
hand_over-MutexIsValid (first ∷ rest) = tt

unlock_state-Fair :
    (state : LockState) (fifo : List ℕ)
    → StateIsValid state fifo
    → Fair
        (record { state = state; fifo_awaiters = fifo })
        (unlocked_log (record { state = state; fifo_awaiters = fifo }) (unlock_state state fifo))
unlock_state-Fair unlocked fifo v = record { is_valid = v; in_order = sym (append-nil _) }
unlock_state-Fair (locked []) [] v = record { is_valid = refl; in_order = refl }
unlock_state-Fair (locked (a ∷ rest)) [] v = record {
  is_valid = hand_over-MutexIsValid (reverse_onto (a ∷ []) rest);
  in_order = hand_over-line (reverse_onto (a ∷ []) rest) ∙ sym (append-nil _);
}
unlock_state-Fair (locked awaiters) (first ∷ rest) v = record {
  is_valid = tt;
  in_order = sym (append-nil _);
}

call-Fair : (c : Call) (m : Mutex) → MutexIsValid m → Fair m (call c m)
unfolding lock unlock
call-Fair (locks handle) m v =
    let both = lock_state-Fair m.state m.fifo_awaiters handle v in
    record { is_valid = both.0; in_order = both.1 }
call-Fair unlocks m v = unlock_state-Fair m.state m.fifo_awaiters v

-- Whatever calls of `lock` and `unlock` a well formed mutex sees, it stays well formed, and it is
-- handed out first come, first served: who got it, and then who is in line, are those who were in
-- line and then those who came, in that order.
pub calls-Fair : (cs : List Call) (m : Mutex) → MutexIsValid m → Fair m (calls cs m)
calls-Fair [] m v = record { is_valid = v; in_order = sym (append-nil (line m)) }
calls-Fair (c ∷ cs) m v =
    let one = call c m in
    let first = call-Fair c m v in
    let rest = calls-Fair cs one.mutex first.is_valid in
    record {
      is_valid = rest.is_valid;
      in_order =
          append_assoc one.got (calls cs one.mutex).got (line (calls cs one.mutex).mutex)
          ∙ ap (◌++◌ one.got) rest.in_order
          ∙ sym (append_assoc one.got (line one.mutex) (calls cs one.mutex).came)
          ∙ ap (λ ys. ys ++ (calls cs one.mutex).came) first.in_order
          ∙ append_assoc (line m) one.came (calls cs one.mutex).came;
    }

abbrev pub is_nil : List ℕ → Bool
is_nil [] = true
is_nil (x ∷ xs) = false

abbrev pub is_locked : LockState → Bool
is_locked unlocked = false
is_locked (locked awaiters) = true

-- The first in line, if any, gets the mutex, the others stay in line, and the mutex stays locked
-- exactly if someone got it.
abbrev pub Served : List ℕ → Option (Mutex × Option ℕ) → Type 0
Served queue none = ⊥
Served queue (some (after, next_one)) =
    ((next_one, line after) ≡ take_front queue) × (is_locked after.state ≡ not (is_nil queue))

reverse_onto-busy : (a : ℕ) (xs rest : List ℕ) → is_nil (reverse_onto (a ∷ xs) rest) ≡ false
reverse_onto-busy a xs [] = refl
reverse_onto-busy a xs (b ∷ rest) = reverse_onto-busy b (a ∷ xs) rest

hand_over-Served :
    (fifo : List ℕ) → is_nil fifo ≡ false → Served fifo (some (hand_over (locked []) fifo))
hand_over-Served [] busy = absurd (true≢false busy)
hand_over-Served (first ∷ rest) busy = (ap (λ ys. (some first, ys)) (append-nil rest), refl)

unlock_state-Served :
    (awaiters fifo : List ℕ)
    → Served (fifo ++ reverse_onto [] awaiters) (unlock_state (locked awaiters) fifo)
unlock_state-Served [] [] = (refl, refl)
unlock_state-Served (a ∷ rest) [] =
    hand_over-Served (reverse_onto (a ∷ []) rest) (reverse_onto-busy a [] rest)
unlock_state-Served awaiters (first ∷ rest) = (refl, refl)

-- `unlock` of a locked mutex does not terminate the program: it hands the mutex to the first in line,
-- and unlocks it exactly if no one is.
pub unlock-Served :
    (m : Mutex) (awaiters : List ℕ) → m.state ≡ locked awaiters → Served (line m) (unlock m)
unfolding unlock
unlock-Served m awaiters held =
    subst (λ s. Served (m.fifo_awaiters ++ line_of s) (unlock_state s m.fifo_awaiters)) (sym held)
      (unlock_state-Served awaiters m.fifo_awaiters)

same_state_refl : (state : LockState) → same_state state state ≡ true
same_state_refl unlocked = refl
same_state_refl (locked []) = refl
same_state_refl (locked (awaiter ∷ rest)) = ==_refl awaiter

-- `try_lock` takes a mutex that another coroutine holds: if nothing happens between its load and its
-- compare-exchange, it succeeds on a locked mutex, and the coroutines that have come since the last
-- reversal, the last in line, are lost: whatever calls of `lock` and `unlock` follow, those
-- who get the mutex or are in line then are the rest of those who were in line and those who come.
pub try_lock_takes_held :
    (m : Mutex) (awaiters : List ℕ) (cs : List Call)
    → m.state ≡ locked awaiters
    → ((try_lock m.state m).1 ≡ true)
      × (line m ≡ m.fifo_awaiters ++ reverse_onto [] awaiters)
      × ((calls cs (try_lock m.state m).0).got ++ line (calls cs (try_lock m.state m).0).mutex
          ≡ m.fifo_awaiters ++ (calls cs (try_lock m.state m).0).came)
unfolding try_lock
try_lock_takes_held m awaiters cs held =
    let taken : try_lock m.state m ≡ (record m { state = locked [] }, true) =
      rw (same_state_refl m.state) refl in
    (
      ap (λ r. r.1) taken,
      ap (λ s. m.fifo_awaiters ++ line_of s) held,
      ap (λ r. (calls cs r.0).got ++ line (calls cs r.0).mutex) taken
          ∙ Fair.in_order (calls-Fair cs (record m { state = locked [] }) tt)
          ∙ ap (λ ys. ys ++ (calls cs (record m { state = locked [] })).came)
              (append-nil m.fifo_awaiters)
          ∙ sym (ap (λ r. m.fifo_awaiters ++ (calls cs r.0).came) taken),
    )
