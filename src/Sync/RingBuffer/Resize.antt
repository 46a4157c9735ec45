-- ===== src/Sync/RingBuffer/Resize.antt =====
-- `RingBuffer::resize` (ring_buffer.hpp).
use faio.Base.{
  next, sub_size, ℕ, ◌+◌, ◌-◌, ◌%◌, ◌^◌, ◌≤◌, ◌<◌, ◌≡◌, refl, sym, ap, ap₂, ◌∙◌, Bool, true, false,
  List, [], ◌∷◌, ◌++◌, inl, inr, Bool-cases, arith, length, take, drop, replicate, ◌==◌, ltb,
  length-drop, length-append, length-replicate,
}
use faio.Sync.RingBuffer.{RingBuffer, is_empty, size, capacity, copied, resize}
use faio.Sync.RingBuffer.Slices.{length-take_le}
use faio.Sync.RingBuffer.Laws.{
  IsValid, stretch, contents, stretch_low, stretch_high, length-stretch, size-contents,
  empty_contents,
}

take-append : {A : Type 0} (xs ys : List A) → take (length xs) (xs ++ ys) ≡ xs
take-append [] ys = refl
take-append (x ∷ xs) ys = ap (◌∷◌ x) (take-append xs ys)

drop-zero : {A : Type 0} (xs : List A) → drop 0 xs ≡ xs
drop-zero [] = refl
drop-zero (x ∷ xs) = refl

module _ {A : Type 0} (blank : A) (n : ℕ) (xs : List A) where
  length-copied : length xs ≤ n → length (copied blank n xs) ≡ n
  length-copied h = omega (
    arith,
    length-append xs (drop (length xs) (replicate n blank)),
    length-drop (length xs) (replicate n blank),
    length-replicate n blank,
  )

  stretch-copied : (e : ℕ) → e ≡ length xs → stretch (copied blank n xs) 0 e ≡ xs
  stretch-copied e h =
      stretch_low (copied blank n xs) 0 e (omega arith)
      ∙ ap₂ take {x = e - 0} {y = length xs} (omega arith) (drop-zero (copied blank n xs))
      ∙ take-append xs (drop (length xs) (replicate n blank))

  -- A vector of `n` cells that begins with the elements holds them.
  moved :
      (e : ℕ)
      → e ≡ length xs
      → length xs < n
      → n < 2 ^ 63
      → IsValid (record { start = 0; end = e; cells = copied blank n xs })
        × (contents (record { start = 0; end = e; cells = copied blank n xs }) ≡ xs)
  moved e h room small = (
    record {
      room = omega (arith, length-copied (omega arith));
      small = omega (arith, length-copied (omega arith));
      start_in = omega (arith, length-copied (omega arith));
      end_in = omega (arith, length-copied (omega arith));
    },
    stretch-copied e h,
  )

module _ {A : Type 0} (blank : A) (r : RingBuffer A) (v : IsValid r) (m : ℕ)
    (small : m + 1 < 2 ^ 63) where
  capacity_of : (s : RingBuffer A) → length s.cells ≡ m + 1 → capacity s ≡ m
  unfolding capacity
  capacity_of s h = omega arith

  next_m : next m ≡ m + 1
  next_m = omega arith

  -- What `resize` answers is the buffer `s`, which is well formed, has the elements of `r` and room
  -- for `m`.
  pub record Resized (s : RingBuffer A × Bool) : Type 0 where
    pub is_valid : IsValid s.0
    pub same : contents s.0 ≡ contents r
    pub room : capacity s.0 ≡ m
    pub accepted : s.1 ≡ true

  moved_low :
      r.start < r.end
      → length (contents r) ≤ m
      → Resized (
        record {
          start = 0;
          end = r.end - r.start;
          cells = copied blank (next m) (take (r.end - r.start) (drop r.start r.cells));
        },
        true,
      )
  moved_low lt fits =
      let view = stretch_low r.cells r.start r.end (omega arith) in
      let kept = take (r.end - r.start) (drop r.start r.cells) in
      let n : length kept ≡ r.end - r.start =
        length-take_le (r.end - r.start) (drop r.start r.cells)
          (omega (arith, length-drop r.start r.cells, v.end_in)) in
      let short : length kept ≤ m = omega (arith, ap length view) in
      let done =
        moved blank (next m) kept (r.end - r.start) (omega arith) (omega (arith, next_m))
          (omega (arith, next_m)) in
      record {
        is_valid = done.0;
        same = done.1 ∙ sym view;
        room = capacity_of _ (length-copied blank (next m) kept (omega (arith, next_m)) ∙ next_m);
        accepted = refl;
      }

  moved_high :
      r.end < r.start
      → length (contents r) ≤ m
      → Resized (
        record {
          start = 0;
          end = (r.end + sub_size (length r.cells) r.start) % 2 ^ 64;
          cells = copied blank (next m) (drop r.start r.cells ++ take r.end r.cells);
        },
        true,
      )
  moved_high lt fits =
      let view = stretch_high r.cells r.start r.end lt in
      let kept = drop r.start r.cells ++ take r.end r.cells in
      let n : length kept ≡ length r.cells - r.start + r.end = omega (
        arith,
        length-append (drop r.start r.cells) (take r.end r.cells),
        length-drop r.start r.cells,
        length-take_le r.end r.cells (omega (arith, v.end_in)),
      ) in
      let short : length kept ≤ m = omega (arith, ap length view) in
      let e : (r.end + sub_size (length r.cells) r.start) % 2 ^ 64 ≡ length kept =
        omega (arith, v.small, v.start_in) in
      let done = moved blank (next m) kept _ e (omega (arith, next_m)) (omega (arith, next_m)) in
      record {
        is_valid = done.0;
        same = done.1 ∙ sym view;
        room = capacity_of _ (length-copied blank (next m) kept (omega (arith, next_m)) ∙ next_m);
        accepted = refl;
      }

  -- An empty buffer keeps its indices.
  stayed :
      is_empty r ≡ true
      → r.start ≤ m
      → Resized (record r { cells = replicate (next m) blank }, true)
  unfolding is_empty
  stayed idle low =
      let n = length-replicate (next m) blank in
      let at_end : r.start ≡ r.end = ground arith in
      let fresh = record r { cells = replicate (next m) blank } in
      let ok : IsValid fresh = record {
        room = omega (arith, next_m);
        small = omega (arith, next_m);
        start_in = omega (arith, next_m);
        end_in = omega (arith, next_m);
      } in
      record {
        is_valid = ok;
        same = empty_contents fresh ok idle ∙ sym (empty_contents r v idle);
        room = capacity_of fresh (n ∙ next_m);
        accepted = refl;
      }

  -- A well formed ring buffer that is resized to a capacity m (m + 1 below 2 ^ 63) with room
  -- for its elements, and for its indices where it is empty, says so, stays well formed, keeps
  -- its elements in order and has the capacity m.
  pub resize-contents :
      length (contents r) ≤ m → (is_empty r ≡ true → r.start ≤ m) → Resized (resize blank r m)
  unfolding resize is_empty
  resize-contents fits low = elim (Bool-cases (next m == length r.cells)) [
    | inl same ↦ rw same (record {
      is_valid = v;
      same = refl;
      room = capacity_of r (ground (arith, next_m));
      accepted = refl;
    })
    | inr other ↦
        let big : ltb (next m) (size r) ≡ false = ground (arith, size-contents r v, next_m) in
        rw other (
          rw big (elim (Bool-cases (ltb r.start r.end)) [
            | inl ahead ↦ rw ahead (moved_low (ground arith) fits)
            | inr behind ↦ rw behind (elim (Bool-cases (ltb r.end r.start)) [
              | inl round ↦ rw round (moved_high (ground arith) fits)
              | inr level ↦ rw level (stayed (ground arith) (low (ground arith)))
            ])
          ]))
  ]

  filled :
      (kept : List A) (e : ℕ)
      → kept ≡ contents r
      → length (contents r) ≡ m + 1
      → e ≡ length kept
      → e ≡ length (copied blank (next m) kept)
  filled kept e view over h =
      let n = ap length view ∙ over in
      h ∙ n ∙ sym (length-copied blank (next m) kept (omega (arith, next_m)) ∙ next_m)

  -- Resized to a capacity m (m + 1 below 2 ^ 63) of one element less than it holds, a well
  -- formed ring buffer says that it was resized, and its write index is then out of the vector.
  pub resize_overruns :
      length (contents r) ≡ m + 1
      → ((resize blank r m).1 ≡ true)
        × ((resize blank r m).0.end ≡ length (resize blank r m).0.cells)
  unfolding resize
  resize_overruns over =
      let count = length-stretch r.cells r.start r.end v.start_in v.end_in in
      let other : (next m == length r.cells) ≡ false =
        ground (arith, next_m, count, over, v.start_in, v.end_in) in
      let big : ltb (next m) (size r) ≡ false = ground (arith, size-contents r v, next_m, over) in
      rw (other, big)
        (elim (Bool-cases (ltb r.start r.end)) [
          | inl ahead ↦
              let lt : r.start < r.end = ground arith in
              rw ahead (
                refl,
                filled (take (r.end - r.start) (drop r.start r.cells)) (r.end - r.start)
                    (sym (stretch_low r.cells r.start r.end (omega arith))) over
                    (sym (
                      length-take_le (r.end - r.start) (drop r.start r.cells)
                        (omega (arith, length-drop r.start r.cells, v.end_in)))),
              )
          | inr behind ↦
              let lt : r.end < r.start = ground (arith, count, over) in
              let round : ltb r.end r.start ≡ true = ground arith in
              rw (behind, round)
                (
                  refl,
                  filled (drop r.start r.cells ++ take r.end r.cells) _
                      (sym (stretch_high r.cells r.start r.end lt)) over
                      (omega (
                        arith,
                        v.small,
                        v.start_in,
                        length-append (drop r.start r.cells) (take r.end r.cells),
                        length-drop r.start r.cells,
                        length-take_le r.end r.cells (omega (arith, v.end_in)),
                      )),
                )
        ])
