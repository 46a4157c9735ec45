-- ===== src/Runtime/StateMachine/Sleepers.antt =====
-- The list of sleeping workers (state_machine.hpp).

use faio.Base.{
  ==→eq, ltb→lt, ℕ, ◌+◌, ◌^◌, ◌<◌, ◌≡◌, ◌≢◌, refl, sym, ap, ◌∙◌, Bool, ◌&&◌, ◌||◌, true, false,
  List, [], ◌∷◌, ◌++◌, Option, none, some, Bool-cases, arith, inl, inr, if◌then◌else◌, ◌==◌, ltb,
}
use faio.Runtime.StateMachine.{
  StateMachine, ThreadCounters, should_wakeup, pop_back, wake_back, worker_to_notify, set_sleeping,
  find, erase, cancel_sleeping, contains,
}
use faio.Runtime.StateMachine.Drift.{whole, whole-pop_back}

-- No worker stands on the list twice.
abbrev pub Distinct : List ℕ → Type 0
Distinct [] = Unit
Distinct (x ∷ xs) = (find x xs ≡ false) × Distinct xs

find-behind : (id x : ℕ) (xs : List ℕ) → find id (xs ++ x ∷ []) ≡ find id xs || (x == id)
find-behind id x [] = ground arith
find-behind id x (y ∷ ys) = elim (Bool-cases (y == id)) [
  | inl same ↦ rw same refl
  | inr other ↦ rw other (find-behind id x ys)
]

find-erase : (id : ℕ) (xs : List ℕ) → Distinct xs → find id (erase id xs) ≡ false
find-erase id [] d = refl
find-erase id (x ∷ xs) d = elim (Bool-cases (x == id)) [
  | inl same ↦ rw same (ap (λ (k : ℕ). find k xs) (sym (==→eq x id same)) ∙ d.0)
  | inr other ↦ rw other (rw other (find-erase id xs d.1))
]

find-erase_other :
    (id other : ℕ) (xs : List ℕ) → other ≢ id → find other (erase id xs) ≡ find other xs
find-erase_other id other [] apart = refl
find-erase_other id other (x ∷ xs) apart = elim (Bool-cases (x == id)) [
  | inl same ↦ let away : (x == other) ≡ false = ground arith in rw same (rw away refl)
  | inr differ ↦
      rw differ (ap (λ b. if x == other then true else b) (find-erase_other id other xs apart))
]

and_left : (a b : Bool) → a && b ≡ true → a ≡ true
and_left true b h = refl
and_left false b h = h

and_right : (a b : Bool) → a && b ≡ true → b ≡ true
and_right true b h = h
and_right false true h = refl
and_right false false h = h

-- The list with the worker that was taken off it.
abbrev pub behind : List ℕ → Option ℕ → List ℕ
behind xs none = xs
behind xs (some id) = xs ++ id ∷ []

module _ (s : StateMachine) where
  -- A worker that goes to sleep is on the list, and the others are where they were.
  pub set_sleeping-contains :
      (id other : ℕ) (is_searching : Bool)
      → contains (set_sleeping s id is_searching).0 other ≡ contains s other || (id == other)
  unfolding set_sleeping contains
  set_sleeping-contains id other is_searching = find-behind other id s.sleepers

  -- `cancel_sleeping` says whether the worker was on the list; then it is not on it, and the others
  -- are where they were.
  pub cancel_sleeping-contains :
      (id other : ℕ)
      → Distinct s.sleepers
      → other ≢ id
      → ((cancel_sleeping s id).1 ≡ contains s id)
        × (contains (cancel_sleeping s id).0 id ≡ false)
        × (contains (cancel_sleeping s id).0 other ≡ contains s other)
  unfolding cancel_sleeping contains
  cancel_sleeping-contains id other distinct apart = elim (Bool-cases (find id s.sleepers)) [
    | inl here ↦
        rw here
          (refl, find-erase id s.sleepers distinct, find-erase_other id other s.sleepers apart)
    | inr away ↦ rw away (refl, away, refl)
  ]

  -- Where `worker_to_notify` wakes someone, that is the worker who went to sleep last, and it leaves
  -- the list; where it wakes no one, the list stays.
  pub worker_to_notify-behind :
      (seen : ThreadCounters)
      → behind (worker_to_notify seen s).0.sleepers (worker_to_notify seen s).1 ≡ s.sleepers
  unfolding worker_to_notify
  worker_to_notify-behind seen = elim (Bool-cases (should_wakeup seen s.num_workers)) [
    | inr off ↦ rw off refl
    | inl on ↦ rw on (elim (Bool-cases (should_wakeup s.counters s.num_workers)) [
      | inr off ↦ rw off refl
      | inl still ↦ rw still (behind-wake_back (pop_back s.sleepers) (whole-pop_back s.sleepers))
    ])
  ]
    where
      behind-wake_back :
          (o : Option (List ℕ × ℕ))
          → whole o ≡ s.sleepers
          → behind (wake_back s o).0.sleepers (wake_back s o).1 ≡ s.sleepers
      behind-wake_back none h = refl
      behind-wake_back (some (rest, id)) h = h

  -- worker_to_notify wakes someone where both tests see no searching worker and fewer working
  -- workers than there are (below 2 ^ 64), and someone sleeps; that worker then counts as
  -- working and as searching.
  pub worker_to_notify-wakes :
      (seen : ThreadCounters)
      → should_wakeup seen s.num_workers ≡ true
      → should_wakeup s.counters s.num_workers ≡ true
      → s.sleepers ≢ []
      → s.num_workers < 2 ^ 64
      → ((worker_to_notify seen s).1 ≢ none)
        × ((worker_to_notify seen s).0.counters.working ≡ s.counters.working + 1)
        × ((worker_to_notify seen s).0.counters.searching ≡ 1)
  unfolding worker_to_notify should_wakeup
  worker_to_notify-wakes seen early late busy small =
      rw (early, late) (woken (pop_back s.sleepers) (whole-pop_back s.sleepers))
    where
      woken :
          (o : Option (List ℕ × ℕ))
          → whole o ≡ s.sleepers
          → ((wake_back s o).1 ≢ none)
            × ((wake_back s o).0.counters.working ≡ s.counters.working + 1)
            × ((wake_back s o).0.counters.searching ≡ 1)
      woken none h = absurd (busy (sym h))
      woken (some (rest, id)) h =
          let free : s.counters.searching ≡ 0 =
            ==→eq s.counters.searching 0
              (and_left (s.counters.searching == 0) (ltb s.counters.working s.num_workers) late) in
          let room : s.counters.working < s.num_workers =
            ltb→lt _ _
              (and_right (s.counters.searching == 0) (ltb s.counters.working s.num_workers) late) in
          (λ e. grind arith, omega arith, omega arith)
