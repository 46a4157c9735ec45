-- ===== src/Timer/Gather.antt =====
-- An array of slots, each `c` wide, read as one list of entries from slot `i` on; and what a
-- change of one slot, or of the first slots, does to that list.
use faio.Base.{
  ℕ, zero, suc, ◌+◌, ◌*◌, ◌≤◌, ◌<◌, ◌≡◌, refl, sym, ap, ap₂, ◌∙◌, List, [], ◌∷◌, ◌++◌, map-append,
  arith, length, get_or, set, keep, keep-append, remove, All, All-append,
}
use faio.Timer.Task.{TimerTask}
use faio.Timer.Offsets.{
  Entry, shift, due, later, is_task, insert, Below, From, IsSorted, shift-shift, From-shift,
  From-mono, Below-shift, Below-mono, IsSorted-shift, From-append, IsSorted-append,
  insert-append_right, insert-append_left, insert-shift, remove-append_right, remove-append_left,
  remove-shift,
}

module _ {S : Type 0} (f : S → List Entry) (c : ℕ) where
  unfoldable pub gather : ℕ → List S → List Entry
  gather i [] = []
  gather i (s ∷ ss) = shift (i * c) (f s) ++ gather (suc i) ss

  -- The entries of every slot lie within its width.
  abbrev pub Narrow : List S → Type 0
  Narrow ss = All (λ s. Below c (f s)) ss

  abbrev pub SlotsSorted : List S → Type 0
  SlotsSorted ss = All (λ s. IsSorted (f s)) ss

  pub gather-From : (i : ℕ) (ss : List S) → From (i * c) (gather i ss)
  unfolding gather
  gather-From i [] = tt
  gather-From i (s ∷ ss) =
      From-append (i * c) (shift (i * c) (f s)) (gather (suc i) ss) (From-shift (i * c) (f s))
        (From-mono (gather (suc i) ss) (omega arith) (gather-From (suc i) ss))

  first-Below : (i n : ℕ) (s : S) → Below c (f s) → i * c + c ≤ n → Below n (shift (i * c) (f s))
  first-Below i n s b h = Below-mono (shift (i * c) (f s)) h (Below-shift (i * c) c (f s) b)

  pub gather-Below :
      (i n : ℕ) (ss : List S) → Narrow ss → (i + length ss) * c ≤ n → Below n (gather i ss)
  unfolding gather
  gather-Below i n [] v h = tt
  gather-Below i n (s ∷ ss) v h =
      All-append (λ e. e.0 < n) (shift (i * c) (f s)) (gather (suc i) ss)
        (first-Below i n s v.0 (grind arith)) (gather-Below (suc i) n ss v.1 (omega arith))

  pub gather-IsSorted : (i : ℕ) (ss : List S) → Narrow ss → SlotsSorted ss → IsSorted (gather i ss)
  unfolding gather
  gather-IsSorted i [] v h = tt
  gather-IsSorted i (s ∷ ss) v h =
      IsSorted-append (suc i * c) (shift (i * c) (f s)) (gather (suc i) ss)
        (first-Below i (suc i * c) s v.0 (omega arith)) (gather-From (suc i) ss)
        (IsSorted-shift (i * c) (f s) h.0) (gather-IsSorted (suc i) ss v.1 h.1)

  -- A new entry in one slot.
  pub gather-insert :
      (i j a o : ℕ) (t : TimerTask) (ss : List S) (s' d : S)
      → Narrow ss
      → j < length ss
      → o < c
      → a ≡ (i + j) * c + o
      → f s' ≡ insert (o, t) (f (get_or ss j d))
      → gather i (set ss j s') ≡ insert (a, t) (gather i ss)
  unfolding gather
  gather-insert i j a o t [] s' d v h lt e p = absurd (omega arith)
  gather-insert i zero a o t (s ∷ ss) s' d v h lt e p =
      ap (λ es. shift (i * c) es ++ gather (suc i) ss) p
      ∙ ap (λ es. es ++ gather (suc i) ss)
          (sym (insert-shift (i * c) o t (f s))
            ∙ ap (λ (k : ℕ). insert (k, t) (shift (i * c) (f s))) (omega arith))
      ∙ sym (
          insert-append_left (a, t) (shift (i * c) (f s)) (gather (suc i) ss)
            (From-mono (gather (suc i) ss) (omega arith) (gather-From (suc i) ss)))
  gather-insert i (suc j) a o t (s ∷ ss) s' d v h lt e p =
      ap (◌++◌ (shift (i * c) (f s)))
        (gather-insert (suc i) j a o t ss s' d v.1 (omega arith) lt (omega arith) p)
      ∙ sym (
          insert-append_right (a, t) (shift (i * c) (f s)) (gather (suc i) ss)
            (first-Below i a s v.0 (grind arith)))

  -- A task taken out of one slot.
  pub gather-remove :
      (i j a o k : ℕ) (ss : List S) (s' d : S)
      → Narrow ss
      → j < length ss
      → o < c
      → a ≡ (i + j) * c + o
      → f s' ≡ remove (is_task o k) (f (get_or ss j d))
      → gather i (set ss j s') ≡ remove (is_task a k) (gather i ss)
  unfolding gather
  gather-remove i j a o k [] s' d v h lt e p = absurd (omega arith)
  gather-remove i zero a o k (s ∷ ss) s' d v h lt e p =
      ap (λ es. shift (i * c) es ++ gather (suc i) ss) p
      ∙ ap (λ es. es ++ gather (suc i) ss)
          (sym (remove-shift (i * c) o k (f s))
            ∙ ap (λ (n : ℕ). remove (is_task n k) (shift (i * c) (f s))) (omega arith))
      ∙ sym (
          remove-append_left a k (suc i * c) (shift (i * c) (f s)) (gather (suc i) ss) (omega arith)
            (gather-From (suc i) ss))
  gather-remove i (suc j) a o k (s ∷ ss) s' d v h lt e p =
      ap (◌++◌ (shift (i * c) (f s)))
        (gather-remove (suc i) j a o k ss s' d v.1 (omega arith) lt (omega arith) p)
      ∙ sym (
          remove-append_right a k (shift (i * c) (f s)) (gather (suc i) ss)
            (first-Below i a s v.0 (grind arith)))

  -- Reading from a later slot shifts the offsets.
  pub gather-shift : (k i : ℕ) (ss : List S) → gather (k + i) ss ≡ shift (k * c) (gather i ss)
  unfolding gather
  gather-shift k i [] = refl
  gather-shift k i (s ∷ ss) =
      ap₂ ◌++◌
        (ap (λ (n : ℕ). shift n (f s)) (omega arith) ∙ sym (shift-shift (k * c) (i * c) (f s)))
        (ap (λ (n : ℕ). gather n ss) (omega arith) ∙ gather-shift k (suc i) ss)
      ∙ sym
          (map-append (λ (e : Entry). (k * c + e.0, e.1)) (shift (i * c) (f s)) (gather (suc i) ss))

  -- The entries that a boundary splits, slot by slot.
  pub split_slot :
      (i r : ℕ) (s : S) (ss : List S)
      → (keep (due r) (gather i (s ∷ ss))
          ≡ keep (due r) (shift (i * c) (f s)) ++ keep (due r) (gather (suc i) ss))
        × (keep (later r) (gather i (s ∷ ss))
            ≡ keep (later r) (shift (i * c) (f s)) ++ keep (later r) (gather (suc i) ss))
  unfolding gather
  split_slot i r s ss = (
    keep-append (due r) (shift (i * c) (f s)) (gather (suc i) ss),
    keep-append (later r) (shift (i * c) (f s)) (gather (suc i) ss),
  )
