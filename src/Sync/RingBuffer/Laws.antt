-- ===== src/Sync/RingBuffer/Laws.antt =====
-- The ring buffer (ring_buffer.hpp) is a queue of at most `capacity` elements.
use native.Mathlib.Nat.{mod-eq_of_lt}
use faio.Base.{
  next, sub_size, ℕ, suc, ◌+◌, ◌-◌, ◌%◌, ◌^◌, ◌≤◌, ◌<◌, ◌≡◌, ◌≢◌, ◌⊎◌, refl, sym, ap, ap₂, ◌∙◌,
  true, false, not, List, [], ◌∷◌, ◌++◌, Option, none, some, inl, inr, Bool-cases, arith,
  append_assoc, append-nil, length, get_or, set, take, drop, if◌then◌else◌, ltb, leb, length-set,
  length-drop, length-append, dec_lt,
}
use faio.Sync.RingBuffer.{
  RingBuffer, front, is_empty, is_fill, safety_push, advance, push, pop, size, capacity,
}
use faio.Sync.RingBuffer.Slices.{
  take-set_end, drop-set, drop-set_before, take_whole, drop-cons, drop_past, length-take_le,
}

-- The vector is not empty and not larger than a vector can be, and both indices lie in it.
pub record IsValid {A : Type 0} (r : RingBuffer A) : Type 0 where
  pub room : 0 < length r.cells
  pub small : length r.cells < 2 ^ 63
  pub start_in : r.start < length r.cells
  pub end_in : r.end < length r.cells

-- The cells from `s` up to `e`, going round the end.
abbrev pub stretch : {A : Type 0} → List A → ℕ → ℕ → List A
stretch xs s e = if leb s e then take (e - s) (drop s xs) else drop s xs ++ take e xs

-- The elements, oldest first.
abbrev pub contents : {A : Type 0} → RingBuffer A → List A
contents r = stretch r.cells r.start r.end

-- An index steps on, or round to 0 after the last.
wrap_next :
    (i n : ℕ)
    → i < n
    → n < 2 ^ 63
    → ((i + 1 < n) × (next i % n ≡ i + 1)) ⊎ ((i + 1 ≡ n) × (next i % n ≡ 0))
wrap_next i n h small = elim (dec_lt (i + 1) n) [
  | yes p ↦ inl (p, grind (arith, mod-eq_of_lt {n = i + 1} {m = n} p))
  | no p ↦ inr (omega arith, grind arith)
]

wrap_once : (k n : ℕ) → k < n → (k + n) % n ≡ k
wrap_once k n h = grind (arith, mod-eq_of_lt {n = k} {m = n} h)

module _ {A : Type 0} (xs : List A) where
  pub stretch_low : (s e : ℕ) → s ≤ e → stretch xs s e ≡ take (e - s) (drop s xs)
  stretch_low s e h = ground arith

  pub stretch_high : (s e : ℕ) → e < s → stretch xs s e ≡ drop s xs ++ take e xs
  stretch_high s e h = ground arith

  pub length-stretch :
      (s e : ℕ)
      → s < length xs
      → e < length xs
      → length (stretch xs s e) ≡ (if leb s e then e - s else length xs - s + e)
  length-stretch s e hs he = elim (Bool-cases (leb s e)) [
    | inl low ↦ rw low (length-take_le (e - s) (drop s xs) (ground (arith, length-drop s xs)))
    | inr high ↦ rw high (
        omega (
          arith,
          length-append (drop s xs) (take e xs),
          length-drop s xs,
          length-take_le e xs (omega arith),
        ))
  ]

module _ {A : Type 0} (xs : List A) (v : A) where
  push_on :
      (s e : ℕ)
      → s ≤ e
      → e < length xs
      → take (suc (e - s)) (drop s (set xs e v)) ≡ stretch xs s e ++ v ∷ []
  push_on s e h he =
      ap (take (suc (e - s))) (drop-set s e xs v h)
      ∙ take-set_end (e - s) (drop s xs) v (omega (arith, length-drop s xs))
      ∙ ap (λ ys. ys ++ v ∷ []) (sym (stretch_low xs s e h))

  stretch-push :
      (s e e' : ℕ)
      → s < length xs
      → e < length xs
      → ((e + 1 < length xs) × (e' ≡ e + 1)) ⊎ ((e + 1 ≡ length xs) × (e' ≡ 0))
      → e' ≢ s
      → stretch (set xs e v) s e' ≡ stretch xs s e ++ v ∷ []
  stretch-push s e e' hs he (inl (more, step)) free = elim (Bool-cases (leb s e)) [
    | inl low ↦
        let le : s ≤ e = ground arith in
        stretch_low (set xs e v) s e' (omega arith)
        ∙ ap (λ (k : ℕ). take k (drop s (set xs e v))) {y = suc (e - s)} (omega arith)
        ∙ push_on s e le he
    | inr high ↦
        let lt : e < s = ground arith in
        stretch_high (set xs e v) s e' (omega arith)
        ∙ ap₂ ◌++◌ (drop-set_before s e xs v lt)
            (ap (λ (k : ℕ). take k (set xs e v)) {y = suc e} (omega arith) ∙ take-set_end e xs v he)
        ∙ sym (append_assoc (drop s xs) (take e xs) (v ∷ []))
        ∙ ap (λ ys. ys ++ v ∷ []) (sym (stretch_high xs s e lt))
  ]
  stretch-push s e e' hs he (inr (last, step)) free =
      stretch_high (set xs e v) s e' (omega arith)
      ∙ ap (λ (k : ℕ). drop s (set xs e v) ++ take k (set xs e v)) step
      ∙ append-nil (drop s (set xs e v))
      ∙ sym (
          take_whole (suc (e - s)) (drop s (set xs e v))
            (omega (arith, length-drop s (set xs e v), length-set xs e v)))
      ∙ push_on s e (omega arith) he

module _ {A : Type 0} (xs : List A) (blank : A) where
  stretch-pop :
      (s e s' : ℕ)
      → s < length xs
      → e < length xs
      → ((s + 1 < length xs) × (s' ≡ s + 1)) ⊎ ((s + 1 ≡ length xs) × (s' ≡ 0))
      → s ≢ e
      → stretch xs s e ≡ get_or xs s blank ∷ stretch xs s' e
  stretch-pop s e s' hs he step busy = elim (Bool-cases (leb s e)) [
    | inl low ↦
        let lt : s < e = ground arith in
        stretch_low xs s e (omega arith)
        ∙ ap₂ take {x = e - s} {y = suc (e - suc s)} (omega arith) (drop-cons s xs blank hs)
        ∙ ap (◌∷◌ (get_or xs s blank))
            (sym (stretch_low xs (suc s) e lt) ∙ ap (λ (k : ℕ). stretch xs k e) (omega arith))
    | inr high ↦
        let lt : e < s = ground arith in
        stretch_high xs s e lt
        ∙ ap (λ ys. ys ++ take e xs) (drop-cons s xs blank hs)
        ∙ ap (◌∷◌ (get_or xs s blank)) (round step lt)
  ]
    where
      round :
          ((s + 1 < length xs) × (s' ≡ s + 1)) ⊎ ((s + 1 ≡ length xs) × (s' ≡ 0))
          → e < s
          → drop (suc s) xs ++ take e xs ≡ stretch xs s' e
      round (inl (more, h)) lt =
          sym (stretch_high xs (suc s) e (omega arith))
          ∙ ap (λ (k : ℕ). stretch xs k e) (omega arith)
      round (inr (last, h)) lt =
          ap (λ ys. ys ++ take e xs) (drop_past (suc s) xs (omega arith))
          ∙ ap (λ (k : ℕ). take k xs) {x = e} {y = e - 0} (omega arith)
          ∙ sym (stretch_low xs 0 e (omega arith))
          ∙ ap (λ (k : ℕ). stretch xs k e) (sym h)

module _ {A : Type 0} (r : RingBuffer A) where
  -- Not full: the write at `end` adds the element behind the others.
  pub safety_push-contents :
      (val : A)
      → IsValid r
      → is_fill r ≡ false
      → IsValid (safety_push r val) × (contents (safety_push r val) ≡ contents r ++ val ∷ [])
  unfolding is_fill safety_push
  safety_push-contents val v free =
      let step = wrap_next r.end (length r.cells) v.end_in v.small in
      (
        record {
          room = omega (arith, length-set r.cells r.end val);
          small = omega (arith, length-set r.cells r.end val);
          start_in = omega (arith, length-set r.cells r.end val);
          end_in = omega (arith, length-set r.cells r.end val);
        },
        stretch-push r.cells val r.start r.end (next r.end % length r.cells) v.start_in v.end_in
            (ground arith) (ground arith),
      )

  -- Not empty: the read at `start` takes the first element off.
  pub advance-contents :
      (blank : A)
      → IsValid r
      → is_empty r ≡ false
      → IsValid (advance r) × (contents r ≡ front blank r ∷ contents (advance r))
  unfolding is_empty advance front
  advance-contents blank v busy =
      let step = wrap_next r.start (length r.cells) v.start_in v.small in
      (
        record { room = v.room; small = v.small; start_in = omega arith; end_in = v.end_in },
        stretch-pop r.cells blank r.start r.end (next r.start % length r.cells) v.start_in v.end_in
            (ground arith) (ground arith),
      )

  fill_iff : IsValid r → is_fill r ≡ not (ltb (length (contents r)) (capacity r))
  unfolding is_fill capacity
  fill_iff v =
      let step = wrap_next r.end (length r.cells) v.end_in v.small in
      ground (arith, length-stretch r.cells r.start r.end v.start_in v.end_in)

  -- size is the number of elements in a well formed ring buffer.
  pub size-contents : IsValid r → size r ≡ length (contents r)
  unfolding size
  size-contents v = length_size ∙ sym (length-stretch r.cells r.start r.end v.start_in v.end_in)
    where
      n : ℕ
      n = length r.cells

      length_size :
          (sub_size r.end r.start + n) % 2 ^ 64 % n
          ≡ (if leb r.start r.end then r.end - r.start else n - r.start + r.end)
      length_size = elim (Bool-cases (leb r.start r.end)) [
        | inl low ↦
            let h : r.start ≤ r.end = ground arith in
            let whole : (sub_size r.end r.start + n) % 2 ^ 64 ≡ r.end - r.start + n = omega arith in
            rw low (ap (λ (k : ℕ). k % n) whole ∙ wrap_once (r.end - r.start) n (omega arith))
        | inr high ↦
            let h : r.end < r.start = ground arith in
            let whole : (sub_size r.end r.start + n) % 2 ^ 64 ≡ n - r.start + r.end = omega arith in
            rw high (ap (λ (k : ℕ). k % n) whole ∙ mod-eq_of_lt (omega arith))
      ]

  -- push on a well formed ring buffer refuses exactly when it holds capacity elements, and then
  -- changes nothing; otherwise the element goes behind the others. It keeps the buffer well
  -- formed.
  pub push_refines :
      (val : A)
      → IsValid r
      → IsValid (push r val).0
        × ((push r val).1 ≡ ltb (length (contents r)) (capacity r))
        × (contents (push r val).0 ≡ (
            if ltb (length (contents r)) (capacity r) then contents r ++ val ∷ [] else contents r))
  unfolding push
  push_refines val v = elim (Bool-cases (is_fill r)) [
    | inl full ↦
        let none_left : ltb (length (contents r)) (capacity r) ≡ false =
          ground (arith, fill_iff v) in
        rw full (rw none_left (v, refl, refl))
    | inr free ↦
        let some_left : ltb (length (contents r)) (capacity r) ≡ true =
          ground (arith, fill_iff v) in
        let pushed = safety_push-contents val v free in
        rw free (rw some_left (pushed.0, refl, pushed.1))
  ]

-- The queue's side of `pop`.
abbrev pub take_front : {A : Type 0} → List A → Option A × List A
take_front [] = (none, [])
take_front (x ∷ xs) = (some x, xs)

pub empty_contents :
    {A : Type 0} (r : RingBuffer A) → IsValid r → is_empty r ≡ true → contents r ≡ []
unfolding is_empty
empty_contents r v e =
    let same : r.end - r.start ≡ 0 = ground arith in
    stretch_low r.cells r.start r.end (ground arith)
    ∙ ap (λ (k : ℕ). take k (drop r.start r.cells)) same

-- pop on a well formed ring buffer gives the oldest element and takes it off, or gives nothing
-- where there is none. It keeps the buffer well formed.
pub pop_refines :
    {A : Type 0} (r : RingBuffer A) (blank : A)
    → IsValid r
    → IsValid (pop blank r).0
      × (((pop blank r).1, contents (pop blank r).0) ≡ take_front (contents r))
unfolding pop
pop_refines r blank v = elim (Bool-cases (is_empty r)) [
  | inl idle ↦
      let nothing = empty_contents r v idle in
      rw idle (v, ap (λ xs. (none, xs)) nothing ∙ sym (ap take_front nothing))
  | inr busy ↦
      let popped = advance-contents r blank v busy in
      rw busy (popped.0, sym (ap take_front popped.1))
]
