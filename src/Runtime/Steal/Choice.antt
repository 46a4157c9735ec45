-- ===== src/Runtime/Steal/Choice.antt =====
-- Whom a worker robs, and what it then gets (`task_steal` of worker.hpp).
use faio.Base.{
  ℕ, zero, suc, ◌+◌, ◌/◌, ◌≤◌, ◌<◌, ◌≡◌, ◌⊎◌, refl, sym, ap, subst, ◌∙◌, inl, inr, Bool, true,
  false, List, [], ◌∷◌, Option, none, arith, length, if◌then◌else◌, ◌==◌, ltb, get_or, Bool-cases,
  lt→ltb,
}
use faio.Config.{local_queue_capacity}
use faio.Runtime.Queue.{
  Handle, LocalQueue, size, be_stolen_by, steal_tasks, unpack_steal, unpack_local_head, sub_32,
}
use faio.Runtime.Worker.{Worker}
use faio.Runtime.Steal.{
  Shared, no_worker, worker, better, largest, set_searching, steal_from, from_global, steal_or_pop,
  task_steal,
}

module _ (self j : ℕ) (w : Worker) (best : ℕ × ℕ) where
  abbrev chosen : ℕ × ℕ
  chosen = if j == self then best else better j w best

  abbrev Taken : ℕ × ℕ → Type 0
  Taken b = (b ≡ (j, size w.local_queue)) × ((j == self) ≡ false) × (w.is_searching ≡ false)

  chosen-cases : (chosen ≡ best) ⊎ Taken chosen
  chosen-cases = elim (Bool-cases (j == self)) [
    | inl e ↦ inl (ap (λ b. if b then best else better j w best) e)
    | inr e ↦ elim (Bool-cases (ltb best.1 (size w.local_queue))) [
      | inr f ↦ inl (rw (e, f) refl)
      | inl f ↦ elim (Bool-cases w.is_searching) [
        | inl g ↦ inl (rw (e, f, g) refl)
        | inr g ↦ inr (rw (e, f, g) refl, e, g)
      ]
    ]
  ]

  chosen-grows : best.1 ≤ chosen.1
  chosen-grows = elim (Bool-cases (j == self)) [
    | inl e ↦ rw e (omega arith)
    | inr e ↦ elim (Bool-cases (ltb best.1 (size w.local_queue))) [
      | inr f ↦ rw (e, f) (omega arith)
      | inl f ↦ elim (Bool-cases w.is_searching) [
        | inl g ↦ rw (e, f, g) (omega arith)
        | inr g ↦ rw (e, f, g) (ground (arith, f))
      ]
    ]
  ]

  chosen-covers : (j == self) ≡ false → w.is_searching ≡ false → size w.local_queue ≤ chosen.1
  chosen-covers e g = elim (Bool-cases (ltb best.1 (size w.local_queue))) [
    | inr f ↦ rw (e, f) (ground (arith, f))
    | inl f ↦ rw (e, f, g) (omega arith)
  ]

-- A worker that may be robbed: it is another one, and does not look for work itself.
abbrev pub IsVictim : ℕ → ℕ → Worker → Type 0
IsVictim self j w = ((j == self) ≡ false) × (w.is_searching ≡ false)

largest_grows :
    (self : ℕ) (ws : List Worker) (j : ℕ) (best : ℕ × ℕ) → best.1 ≤ (largest self ws j best).1
largest_grows self [] j best = omega arith
largest_grows self (w ∷ ws) j best = omega (
  arith,
  chosen-grows self j w best,
  largest_grows self ws (suc j) (if j == self then best else better j w best),
)

-- No worker that may be robbed has more tasks than the loop's result says.
largest_covers :
    (self : ℕ) (ws : List Worker) (j : ℕ) (best : ℕ × ℕ) (k : ℕ)
    → k < length ws
    → IsVictim self (j + k) (get_or ws k no_worker)
    → size (get_or ws k no_worker).local_queue ≤ (largest self ws j best).1
largest_covers self [] j best k h v = absurd (omega (arith, h))
largest_covers self (w ∷ ws) j best zero h v =
    let here : (j == self) ≡ false = ap (λ (i : ℕ). i == self) (omega arith) ∙ v.0 in
    omega (
      arith,
      chosen-covers self j w best here v.1,
      largest_grows self ws (suc j) (if j == self then best else better j w best),
    )
largest_covers self (w ∷ ws) j best (suc k) h v =
    largest_covers self ws (suc j) (if j == self then best else better j w best) k
      (omega (arith, h)) (ap (λ (i : ℕ). i == self) (omega arith) ∙ v.0, v.1)

-- The result is the starting one or a worker that may be robbed, with the size of its queue.
abbrev IsFound : ℕ → List Worker → ℕ → ℕ × ℕ → Type 0
IsFound self ws j r =
    (k : ℕ) × (r.0 ≡ j + k)
    × (k < length ws)
    × IsVictim self (j + k) (get_or ws k no_worker)
    × (size (get_or ws k no_worker).local_queue ≡ r.1)

largest-cases :
    (self : ℕ) (ws : List Worker) (j : ℕ) (best : ℕ × ℕ)
    → (largest self ws j best ≡ best) ⊎ IsFound self ws j (largest self ws j best)
largest-cases self [] j best = inl refl
largest-cases self (w ∷ ws) j best = go (largest-cases self ws (suc j) next)
  where
    next : ℕ × ℕ
    next = if j == self then best else better j w best

    result : ℕ × ℕ
    result = largest self ws (suc j) next

    go :
        (result ≡ next) ⊎ IsFound self ws (suc j) result
        → (result ≡ best) ⊎ IsFound self (w ∷ ws) j result
    go (inr h) = inr (
      suc h.0,
      h.1 ∙ omega arith,
      omega (arith, h.2),
      (ap (λ (i : ℕ). i == self) (omega arith) ∙ h.3.0, h.3.1),
      h.4,
    )
    go (inl h) = elim (chosen-cases self j w best) [
      | inl e ↦ inl (h ∙ e)
      | inr t ↦ inr (
        0,
        ap (λ (r : ℕ × ℕ). r.0) (h ∙ t.0) ∙ omega arith,
        omega arith,
        (ap (λ (i : ℕ). i == self) (omega arith) ∙ t.1, t.2),
        sym (ap (λ (r : ℕ × ℕ). r.1) (h ∙ t.0)),
      )
    ]

-- Half of one task is none.
be_stolen_by_one : (src dst : LocalQueue) → size src ≡ 1 → (be_stolen_by src dst).2 ≡ none
unfolding be_stolen_by size
be_stolen_by_one src dst h =
    go (ltb (local_queue_capacity / 2) (sub_32 dst.tail (unpack_steal dst.head)))
      (unpack_steal src.head == unpack_local_head src.head) (size src / 2 == 0)
      (ap (λ n. n / 2 == 0) h)
  where
    go :
        (full same empty : Bool)
        → empty ≡ true
        → (if full
            then (src, dst, none)
            else (if same
                then (if empty then (src, dst, none) else steal_tasks src dst (size src / 2))
                else (src, dst, none))).2
          ≡ none
    go true same empty e = refl
    go false false empty e = refl
    go false true empty e =
        ap (λ b. (if b then (src, dst, none) else steal_tasks src dst (size src / 2)).2) e

set_searching_looking :
    (seen : ℕ) (shared : Shared) (self : ℕ)
    → (worker shared self).is_searching ≡ true
    → set_searching seen shared self ≡ (shared, true)
unfolding set_searching
set_searching_looking seen shared self h = rw h refl

task_steal_looking :
    (seen : ℕ) (shared : Shared) (self : ℕ)
    → (worker shared self).is_searching ≡ true
    → task_steal seen shared self ≡ steal_or_pop shared self (largest self shared.workers 0 (0, 0))
unfolding task_steal
task_steal_looking seen shared self h =
    ap
      (λ (asked : Shared × Bool).
        if asked.1
        then steal_or_pop asked.0 self (largest self asked.0.workers 0 (0, 0))
        else (asked.0, none))
      (set_searching_looking seen shared self h)

abbrev GivesUp : Shared → Shared × Option Handle → Type 0
GivesUp shared r = (r.1 ≡ none) × (r.0.global_queue ≡ shared.global_queue)

steal_or_pop_one :
    (shared : Shared) (self : ℕ) (best : ℕ × ℕ)
    → 0 < best.1
    → size (worker shared best.0).local_queue ≡ 1
    → GivesUp shared (steal_or_pop shared self best)
steal_or_pop_one shared self best h one =
    subst (λ b. GivesUp shared (if b then steal_from shared self best.0 else from_global shared))
      (sym (lt→ltb 0 best.1 h))
      (
        be_stolen_by_one (worker shared best.0).local_queue (worker shared self).local_queue one,
        refl,
      )

-- A worker that looks for work gets no task, and leaves the global queue as it is, where another worker
-- that does not look for work has one task and none has more.
pub task_steal_gives_up :
    (seen : ℕ) (shared : Shared) (self k : ℕ)
    → (worker shared self).is_searching ≡ true
    → k < length shared.workers
    → IsVictim self k (worker shared k)
    → size (worker shared k).local_queue ≡ 1
    → ((j : ℕ)
        → j < length shared.workers
        → IsVictim self j (worker shared j)
        → size (worker shared j).local_queue ≤ 1)
    → ((task_steal seen shared self).1 ≡ none)
      × ((task_steal seen shared self).0.global_queue ≡ shared.global_queue)
task_steal_gives_up seen shared self k looking inside victim one at_most =
    let best = largest self shared.workers 0 (0, 0) in
    let as_zero : (j : ℕ) → 0 + j ≡ j = λ j. omega arith in
    let some_task : 1 ≤ best.1 = omega (
      arith,
      largest_covers self shared.workers 0 (0, 0) k inside
          (ap (λ (i : ℕ). i == self) (as_zero k) ∙ victim.0, victim.1),
      one,
    ) in
    let found : GivesUp shared (steal_or_pop shared self best) =
      elim (largest-cases self shared.workers 0 (0, 0)) [
        | inl e ↦ absurd (omega (arith, some_task, ap (λ (r : ℕ × ℕ). r.1) e))
        | inr h ↦
            let few =
              at_most h.0 h.2 (ap (λ (i : ℕ). i == self) (sym (as_zero h.0)) ∙ h.3.0, h.3.1) in
            steal_or_pop_one shared self best (omega (arith, some_task)) (
              ap (λ (i : ℕ). size (worker shared i).local_queue) (h.1 ∙ as_zero h.0)
              ∙ omega (arith, few, h.4, some_task))
      ] in
    subst (GivesUp shared) (sym (task_steal_looking seen shared self looking)) found
