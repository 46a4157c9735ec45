-- ===== src/Sync/RingBuffer/Slices.antt =====
-- Stretches of an array: writing at the end of one, and taking its first element.
use faio.Base.{
  ℕ, zero, suc, ◌-◌, ◌≤◌, ◌<◌, ◌≡◌, refl, ap, ◌∙◌, List, [], ◌∷◌, ◌++◌, arith, length, get_or, set,
  take, drop,
}

module _ {A : Type 0} where
  pub take-set_end :
      (n : ℕ) (xs : List A) (v : A)
      → n < length xs
      → take (suc n) (set xs n v) ≡ take n xs ++ v ∷ []
  take-set_end n [] v h = absurd (omega arith)
  take-set_end zero (x ∷ xs) v h = refl
  take-set_end (suc n) (x ∷ xs) v h = ap (◌∷◌ x) (take-set_end n xs v (omega arith))

  pub drop-set :
      (n i : ℕ) (xs : List A) (v : A) → n ≤ i → drop n (set xs i v) ≡ set (drop n xs) (i - n) v
  drop-set zero i xs v h = ap (λ (k : ℕ). set xs k v) (omega arith)
  drop-set (suc n) zero [] v h = refl
  drop-set (suc n) (suc i) [] v h = refl
  drop-set (suc n) zero (x ∷ xs) v h = absurd (omega arith)
  drop-set (suc n) (suc i) (x ∷ xs) v h =
      drop-set n i xs v (omega arith) ∙ ap (λ (k : ℕ). set (drop n xs) k v) (omega arith)

  pub drop-set_before : (n i : ℕ) (xs : List A) (v : A) → i < n → drop n (set xs i v) ≡ drop n xs
  drop-set_before zero i xs v h = absurd (omega arith)
  drop-set_before (suc n) i [] v h = refl
  drop-set_before (suc n) zero (x ∷ xs) v h = refl
  drop-set_before (suc n) (suc i) (x ∷ xs) v h = drop-set_before n i xs v (omega arith)

  pub take_whole : (n : ℕ) (xs : List A) → length xs ≤ n → take n xs ≡ xs
  take_whole zero [] h = refl
  take_whole zero (x ∷ xs) h = absurd (omega arith)
  take_whole (suc n) [] h = refl
  take_whole (suc n) (x ∷ xs) h = ap (◌∷◌ x) (take_whole n xs (omega arith))

  pub drop-cons :
      (n : ℕ) (xs : List A) (d : A) → n < length xs → drop n xs ≡ get_or xs n d ∷ drop (suc n) xs
  drop-cons n [] d h = absurd (omega arith)
  drop-cons zero (x ∷ xs) d h = refl
  drop-cons (suc n) (x ∷ xs) d h = drop-cons n xs d (omega arith)

  pub drop_past : (n : ℕ) (xs : List A) → length xs ≤ n → drop n xs ≡ []
  drop_past zero [] h = refl
  drop_past zero (x ∷ xs) h = absurd (omega arith)
  drop_past (suc n) [] h = refl
  drop_past (suc n) (x ∷ xs) h = drop_past n xs (omega arith)

  pub take-append_length : (xs ys : List A) → take (length xs) (xs ++ ys) ≡ xs
  take-append_length [] ys = refl
  take-append_length (x ∷ xs) ys = ap (◌∷◌ x) (take-append_length xs ys)

  pub length-take_le : (n : ℕ) (xs : List A) → n ≤ length xs → length (take n xs) ≡ n
  length-take_le zero xs h = refl
  length-take_le (suc n) [] h = absurd (omega arith)
  length-take_le (suc n) (x ∷ xs) h = ap suc (length-take_le n xs (omega arith))
