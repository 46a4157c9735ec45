-- ===== src/Timer/Sweep.antt =====
-- Slots emptied, skipped or moved: the loops of `handle_expired_tasks`, `next_deadline_time` and
-- `rotate`, on the array of slots alone.
use faio.Base.{
  ℕ, zero, suc, ◌+◌, ◌*◌, ◌≤◌, ◌<◌, ◌≡◌, refl, sym, ap, ap₂, ◌∙◌, Bool, true, false, List, [], ◌∷◌,
  ◌++◌, map, append-nil, arith, length, get_or, set, take, drop, replicate, keep, All, Bool-cases,
  inl, inr, ltb, set, ◌≢◌,
}
use faio.Timer.Offsets.{
  Entry, shift, tasks, tasks-shift, due, later, Below, From, IsSorted, From-mono, From-shift_add,
  Below-shift, Below-mono, From-append, keep-due-shift, keep-later-shift, keep-due-Below,
  keep-later-Below, keep-due-From, keep-later-From,
}
use faio.Timer.Gather.{gather, Narrow, gather-From, split_slot, gather-shift}

-- The position of the lowest bit that is set, or the width of the map: `std::countr_zero`.
abbrev pub countr_zero : List Bool → ℕ
countr_zero [] = 0
countr_zero (true ∷ bs) = 0
countr_zero (false ∷ bs) = suc (countr_zero bs)

-- `slot_map == 0`.
abbrev pub is_zero : List Bool → Bool
is_zero [] = true
is_zero (true ∷ bs) = false
is_zero (false ∷ bs) = is_zero bs

-- The first `n` slots replaced by the empty slot.
abbrev pub clear : {S : Type 0} → ℕ → S → List S → List S
clear zero e ss = ss
clear (suc n) e [] = []
clear (suc n) e (s ∷ ss) = e ∷ clear n e ss

pub length-clear : {S : Type 0} (n : ℕ) (e : S) (ss : List S) → length (clear n e ss) ≡ length ss
length-clear zero e ss = refl
length-clear (suc n) e [] = refl
length-clear (suc n) e (s ∷ ss) = ap suc (length-clear n e ss)

pub All-clear {κ} :
    {S : Type 0} (P : S → Type κ) (n : ℕ) (e : S) (ss : List S)
    → P e
    → All P ss
    → All P (clear n e ss)
All-clear P zero e ss he h = h
All-clear P (suc n) e [] he h = tt
All-clear P (suc n) e (s ∷ ss) he h = (he, All-clear P n e ss he h.1)

-- Two boundaries in turn take what the second takes at once.
pub keep_twice :
    (r q : ℕ) (es : List Entry)
    → r ≤ q
    → IsSorted es
    → (keep (due r) es ++ keep (due q) (keep (later r) es) ≡ keep (due q) es)
      × (keep (later q) (keep (later r) es) ≡ keep (later q) es)
keep_twice r q [] h s = (refl, refl)
keep_twice r q (e ∷ es) h s = elim (Bool-cases (ltb e.0 r)) [
  | inl below ↦ ground (arith, keep_twice r q es h s.1)
  | inr above ↦ ground (
    arith,
    keep_twice r q es h s.1,
    keep-due-From r es (From-mono es (ground arith) s.0),
    keep-later-From r es (From-mono es (ground arith) s.0),
  )
]

pub From-keep : (r : ℕ) (es : List Entry) → From r (keep (later r) es)
From-keep r [] = tt
From-keep r (e ∷ es) = ground (arith, From-keep r es)

From-right : (n : ℕ) (xs ys : List Entry) → From n (xs ++ ys) → From n ys
From-right n [] ys h = h
From-right n (x ∷ xs) ys h = From-right n xs ys h.1

module _ {S : Type 0} (f : S → List Entry) (c : ℕ) where
  first_slot-Below :
      (i r : ℕ) (s : S) → Below c (f s) → i * c + c ≤ r → Below r (shift (i * c) (f s))
  first_slot-Below i r s b h = Below-mono (shift (i * c) (f s)) h (Below-shift (i * c) c (f s) b)

  -- Emptying the first `n` slots takes out what is due before their end.
  pub gather-clear :
      (i n r : ℕ) (e : S) (ss : List S)
      → Narrow f c ss
      → f e ≡ []
      → r ≡ (i + n) * c
      → (gather f c i (clear n e ss) ≡ keep (later r) (gather f c i ss))
        × (gather f c i (take n ss) ≡ keep (due r) (gather f c i ss))
  unfolding gather
  gather-clear i zero r e ss v p h = (
    sym (
        keep-later-From r (gather f c i ss)
          (From-mono (gather f c i ss) (omega arith) (gather-From f c i ss))),
    sym (
        keep-due-From r (gather f c i ss)
          (From-mono (gather f c i ss) (omega arith) (gather-From f c i ss))),
  )
  gather-clear i (suc n) r e [] v p h = (refl, refl)
  gather-clear i (suc n) r e (s ∷ ss) v p h =
      let b : Below r (shift (i * c) (f s)) = first_slot-Below i r s v.0 (grind arith) in
      let rest = gather-clear (suc i) n r e ss v.1 p (omega arith) in
      (
        ap (λ es. shift (i * c) es ++ gather f c (suc i) (clear n e ss)) p
            ∙ rest.0
            ∙ ap (λ es. es ++ keep (later r) (gather f c (suc i) ss)) (sym (keep-later-Below r _ b))
            ∙ sym (split_slot f c i r s ss).1,
        ap (◌++◌ (shift (i * c) (f s))) rest.1
            ∙ ap (λ es. es ++ keep (due r) (gather f c (suc i) ss)) (sym (keep-due-Below r _ b))
            ∙ sym (split_slot f c i r s ss).0,
      )

  empty_of_From :
      (i j : ℕ) (s : S) (rest : List Entry)
      → Below c (f s)
      → From ((i + j) * c) (shift (i * c) (f s) ++ rest)
      → j ≢ 0
      → f s ≡ []
  empty_of_From i j s rest b g h = within (f s) b g
    where
      within :
          (es : List Entry) → Below c es → From ((i + j) * c) (shift (i * c) es ++ rest) → es ≡ []
      within [] b' g' = refl
      within (x ∷ xs) b' g' = absurd (grind arith)

  -- With the slots before `j` empty, a boundary inside slot `j` splits that slot alone.
  pub gather_partial :
      (i j r p : ℕ) (s' d : S) (ss : List S)
      → Narrow f c ss
      → From ((i + j) * c) (gather f c i ss)
      → j < length ss
      → p ≤ c
      → r ≡ (i + j) * c + p
      → f s' ≡ keep (later p) (f (get_or ss j d))
      → (gather f c i (set ss j s') ≡ keep (later r) (gather f c i ss))
        × (tasks (keep (due p) (f (get_or ss j d))) ≡ tasks (keep (due r) (gather f c i ss)))
  unfolding gather
  gather_partial i j r p s' d [] v g h le e q = absurd (omega arith)
  gather_partial i zero r p s' d (s ∷ ss) v g h le e q =
      let rest : From r (gather f c (suc i) ss) =
        From-mono (gather f c (suc i) ss) (omega arith) (gather-From f c (suc i) ss) in
      let at_r : i * c + p ≡ r = omega arith in
      (
        ap (λ es. shift (i * c) es ++ gather f c (suc i) ss) q
            ∙ ap₂ ◌++◌
                (sym (keep-later-shift (i * c) p (f s))
                  ∙ ap (λ (n : ℕ). keep (later n) (shift (i * c) (f s))) at_r)
                (sym (keep-later-From r _ rest))
            ∙ sym (split_slot f c i r s ss).1,
        sym (tasks-shift (i * c) (keep (due p) (f s)))
            ∙ ap tasks (
                sym (keep-due-shift (i * c) p (f s))
                ∙ ap (λ (n : ℕ). keep (due n) (shift (i * c) (f s))) at_r
                ∙ sym (append-nil _)
                ∙ ap (◌++◌ (keep (due r) (shift (i * c) (f s)))) (sym (keep-due-From r _ rest))
                ∙ sym (split_slot f c i r s ss).0),
      )
  gather_partial i (suc j) r p s' d (s ∷ ss) v g h le e q =
      let empty : f s ≡ [] =
        empty_of_From i (suc j) s (gather f c (suc i) ss) v.0 g (omega arith) in
      let rest =
        gather_partial (suc i) j r p s' d ss v.1
          (From-mono _ (omega arith) (From-right _ (shift (i * c) (f s)) (gather f c (suc i) ss) g))
          (omega arith) le (omega arith) q in
      (
        ap (λ es. shift (i * c) es ++ gather f c (suc i) (set ss j s')) empty
            ∙ rest.0
            ∙ ap (λ es. keep (later r) (shift (i * c) es ++ gather f c (suc i) ss)) (sym empty),
        rest.1
            ∙ ap (λ es. tasks (keep (due r) (shift (i * c) es ++ gather f c (suc i) ss)))
                (sym empty),
      )

module _ {S : Type 0} (f : S → List Entry) (c : ℕ) (occupied : S → Bool)
    (unoccupied : (s : S) → occupied s ≡ false → f s ≡ []) where
  -- No entry lies before the first one of the lowest slot that is marked.
  pub gather_first :
      (i n : ℕ) (d : S) (ss : List S)
      → From n (f (get_or ss (countr_zero (map occupied ss)) d))
      → n ≤ c
      → From ((i + countr_zero (map occupied ss)) * c + n) (gather f c i ss)
  unfolding gather
  gather_first i n d [] h le = tt
  gather_first i n d (s ∷ ss) h le = first (occupied s) refl (gather_first (suc i) n d ss) h
    where
      first :
          (b : Bool)
          → occupied s ≡ b
          → (From n (f (get_or ss (countr_zero (map occupied ss)) d))
              → n ≤ c
              → From ((suc i + countr_zero (map occupied ss)) * c + n) (gather f c (suc i) ss))
          → From n (f (get_or (s ∷ ss) (countr_zero (b ∷ map occupied ss)) d))
          → From
              ((i + countr_zero (b ∷ map occupied ss)) * c + n)
              (shift (i * c) (f s) ++ gather f c (suc i) ss)
      first true e later_slots h' =
          From-append _ (shift (i * c) (f s)) (gather f c (suc i) ss)
            (From-mono _ (omega arith) (From-shift_add (i * c) n (f s) h'))
            (From-mono _ (omega arith) (gather-From f c (suc i) ss))
      first false e later_slots h' =
          rw (unoccupied s e) (From-mono _ (omega arith) (later_slots h' le))

  -- No slot is marked: no entry is held.
  pub gather_unmarked :
      (i : ℕ) (ss : List S) → is_zero (map occupied ss) ≡ true → gather f c i ss ≡ []
  unfolding gather
  gather_unmarked i [] h = refl
  gather_unmarked i (s ∷ ss) h = elim (Bool-cases (occupied s)) [
    | inl e ↦ ground arith
    | inr e ↦ ground (arith, unoccupied s, gather_unmarked (suc i) ss)
  ]

module _ {S : Type 0} (f : S → List Entry) (c : ℕ) where
  -- With the first `n` slots empty the array may be read from slot `n` on.
  pub gather-drop :
      (i n : ℕ) (ss : List S)
      → Narrow f c ss
      → From ((i + n) * c) (gather f c i ss)
      → gather f c i ss ≡ gather f c (n + i) (drop n ss)
  unfolding gather
  gather-drop i zero ss v g = ap (λ (k : ℕ). gather f c k ss) (omega arith)
  gather-drop i (suc n) [] v g = refl
  gather-drop i (suc n) (s ∷ ss) v g =
      let empty : f s ≡ [] =
        empty_of_From f c i (suc n) s (gather f c (suc i) ss) v.0 g (omega arith) in
      ap (λ es. shift (i * c) es ++ gather f c (suc i) ss) empty
      ∙ gather-drop (suc i) n ss v.1
          (From-mono _ (omega arith) (From-right _ (shift (i * c) (f s)) (gather f c (suc i) ss) g))
      ∙ ap (λ (k : ℕ). gather f c k (drop n ss)) (omega arith)

  -- Empty slots at the end hold nothing.
  pub gather_pad :
      (i n : ℕ) (e : S) (ss : List S)
      → f e ≡ []
      → gather f c i (ss ++ replicate n e) ≡ gather f c i ss
  unfolding gather
  gather_pad i zero e [] h = refl
  gather_pad i (suc n) e [] h =
      ap (λ es. shift (i * c) es ++ gather f c (suc i) (replicate n e)) h
      ∙ gather_pad (suc i) n e [] h
  gather_pad i n e (s ∷ ss) h = ap (◌++◌ (shift (i * c) (f s))) (gather_pad (suc i) n e ss h)

  -- `rotate` on the slots: the offsets fall by the width of the slots that are dropped.
  pub gather_rotate :
      (n : ℕ) (e : S) (ss : List S)
      → Narrow f c ss
      → f e ≡ []
      → From (n * c) (gather f c 0 ss)
      → gather f c 0 ss ≡ shift (n * c) (gather f c 0 (drop n ss ++ replicate n e))
  gather_rotate n e ss v h g =
      gather-drop 0 n ss v (From-mono _ (omega arith) g)
      ∙ gather-shift f c n 0 (drop n ss)
      ∙ ap (shift (n * c)) (sym (gather_pad 0 n e (drop n ss) h))

pub none_between : (n : ℕ) (es : List Entry) → Below n es → From n es → es ≡ []
none_between n [] b g = refl
none_between n (e ∷ es) b g = absurd (omega arith)
