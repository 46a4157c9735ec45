-- ===== src/Http/Wire/Delivery.antt =====
-- What a connection delivers (`write_all` of stream_write.hpp and the write loop of server_session_v1.hpp).
use faio.Base.{
  ℕ, zero, suc, ◌+◌, ◌-◌, ◌≤◌, ◌<◌, ◌≡◌, refl, sym, ap, ap₂, subst, ◌∙◌, [], ◌∷◌, ◌++◌, Option,
  none, some, ◌⊎◌, inl, inr, Bool-cases, arith, length, length-drop, if◌then◌else◌, leb, leb→le,
  take, drop, append-nil, append_assoc,
}
use faio.Http.Text.{Bytes}
use faio.Http.Wire.{
  Write, written, write_failed, WriteError, io_error, write_zero, Sent, sent, write_from, write_all,
  rest_of, left_of, write_parts,
}

pub drop_all : (n : ℕ) (part : Bytes) → length part ≤ n → drop n part ≡ []
drop_all zero [] h = refl
drop_all (suc n) [] h = refl
drop_all zero (b ∷ part) h = absurd (omega (arith, h))
drop_all (suc n) (b ∷ part) h = drop_all n part (omega (arith, h))

pub take-drop : (n : ℕ) (part : Bytes) → take n part ++ drop n part ≡ part
take-drop zero part = refl
take-drop (suc n) [] = refl
take-drop (suc n) (b ∷ part) = ap (◌∷◌ b) (take-drop n part)

take_none : (n : ℕ) → take {A = ℕ} n [] ≡ []
take_none zero = refl
take_none (suc n) = refl

take-take : (m n : ℕ) (part : Bytes) → take m part ++ take n (drop m part) ≡ take (m + n) part
take-take zero n part = ap (λ (k : ℕ). take k part) (omega arith)
take-take (suc m) zero [] = sym (take_none (suc m + 0))
take-take (suc m) (suc n) [] = sym (take_none (suc m + suc n))
take-take (suc m) n (b ∷ part) =
    ap (◌∷◌ b) (take-take m n part) ∙ ap (λ (k : ℕ). take k (b ∷ part)) more
  where
    more : suc (m + n) ≡ suc m + n
    more = omega arith

drop-append : (n : ℕ) (xs ys : Bytes) → drop n (xs ++ ys) ≡ drop n xs ++ drop (n - length xs) ys
drop-append zero xs ys = ap (λ (k : ℕ). xs ++ drop k ys) nothing
  where
    nothing : 0 ≡ 0 - length xs
    nothing = omega arith
drop-append (suc n) [] ys = ap (λ (k : ℕ). drop k ys) nothing
  where
    nothing : suc n ≡ suc n - 0
    nothing = omega arith
drop-append (suc n) (x ∷ xs) ys = drop-append n xs ys ∙ ap (λ (k : ℕ). drop n xs ++ drop k ys) less
  where
    less : n - length xs ≡ suc n - suc (length xs)
    less = omega arith

rest_of-drop : (n : ℕ) (part : Bytes) → rest_of n part ≡ drop n part
rest_of-drop n part = elim (Bool-cases (leb (length part) n)) [
  | inl e ↦
      ap (λ b. if b then [] else drop n part) e ∙ sym (drop_all n part (leb→le (length part) n e))
  | inr e ↦ ap (λ b. if b then [] else drop n part) e
]

left_of_lem : (n : ℕ) (part : Bytes) → left_of n part ≡ n - length part
left_of_lem n part = ground arith

-- A round that writes from both parts leaves what a round leaves of the one text.
rest_of-parts :
    (n : ℕ) (header body : Bytes)
    → rest_of n header ++ rest_of (left_of n header) body ≡ drop n (header ++ body)
rest_of-parts n header body =
    ap₂ ◌++◌ (rest_of-drop n header)
      (rest_of-drop (left_of n header) body ∙ ap (λ k. drop k body) (left_of_lem n header))
    ∙ sym (drop-append n header body)

abbrev Agree : ℕ → (ℕ → Write) → ℕ → Type 0
Agree rounds writes i =
    (header body wire : Bytes)
    → write_parts rounds writes i header body wire
      ≡ write_from rounds writes i (header ++ body) wire

round_agrees :
    (rounds : ℕ) (writes : ℕ → Write) (i : ℕ) (header body text wire : Bytes) (w : Write)
    → header ++ body ≡ text
    → Agree rounds writes (suc i)
    → elim w [
      | write_failed e ↦ some (sent (some (io_error e)) wire (suc i))
      | written zero ↦ some (sent (some write_zero) wire (suc i))
      | written (suc n) ↦
          write_parts rounds writes
            (suc i)
            (rest_of (suc n) header)
            (rest_of (left_of (suc n) header) body)
            (wire ++ take (suc n) (header ++ body))
    ]
      ≡ elim w [
        | write_failed e ↦ some (sent (some (io_error e)) wire (suc i))
        | written zero ↦ some (sent (some write_zero) wire (suc i))
        | written (suc n) ↦
            write_from rounds writes (suc i) (drop (suc n) text) (wire ++ take (suc n) text)
      ]
round_agrees rounds writes i header body text wire (write_failed e) at later = refl
round_agrees rounds writes i header body text wire (written zero) at later = refl
round_agrees rounds writes i header body text wire (written (suc n)) at later =
    later (rest_of (suc n) header) (rest_of (left_of (suc n) header) body)
      (wire ++ take (suc n) (header ++ body))
    ∙ ap (λ t. write_from rounds writes (suc i) t (wire ++ take (suc n) (header ++ body)))
        (rest_of-parts (suc n) header body)
    ∙ ap (λ t. write_from rounds writes (suc i) (drop (suc n) t) (wire ++ take (suc n) t)) at

-- Writing a header block and a body together is writing the text of both.
pub write_parts-write_from :
    (rounds : ℕ) (writes : ℕ → Write) (i : ℕ) (header body wire : Bytes)
    → write_parts rounds writes i header body wire
      ≡ write_from rounds writes i (header ++ body) wire
unfolding write_parts write_from
write_parts-write_from rounds writes i [] [] wire = refl
write_parts-write_from zero writes i (b ∷ header) body wire = refl
write_parts-write_from zero writes i [] (b ∷ body) wire = refl
write_parts-write_from (suc rounds) writes i (b ∷ header) body wire =
    round_agrees rounds writes i (b ∷ header) body (b ∷ header ++ body) wire (writes i) refl
      (write_parts-write_from rounds writes (suc i))
write_parts-write_from (suc rounds) writes i [] (b ∷ body) wire =
    round_agrees rounds writes i [] (b ∷ body) (b ∷ body) wire (writes i) refl
      (write_parts-write_from rounds writes (suc i))

-- No write fails or takes nothing.
abbrev pub TakesSome : Write → Type 0
TakesSome (written n) = 0 < n
TakesSome (write_failed e) = ⊥

-- How many bytes a write took, and `n` writes from `i` on together.
abbrev pub count : Write → ℕ
count (written n) = n
count (write_failed e) = 0

abbrev pub counts : (ℕ → Write) → ℕ → ℕ → ℕ
counts writes i zero = 0
counts writes i (suc n) = count (writes i) + counts writes (suc i) n

abbrev pub AllTakeSome : (ℕ → Write) → ℕ → ℕ → Type 0
AllTakeSome writes i zero = Unit
AllTakeSome writes i (suc n) = TakesSome (writes i) × AllTakeSome writes (suc i) n

-- The error of a write that failed, or that took nothing.
abbrev pub IsErrorOf : Write → WriteError → Type 0
IsErrorOf (write_failed e) error = error ≡ io_error e
IsErrorOf (written zero) error = error ≡ write_zero
IsErrorOf (written (suc n)) error = ⊥

-- Behind `n` writes from `i` on, each of which took a byte at least, either the bytes have all been taken
-- and are on the wire; or those taken so far are, which are not all, and the next write ended it with its
-- error.
abbrev pub IsDelivery : (ℕ → Write) → ℕ → Bytes → Bytes → Sent → Type 0
IsDelivery writes i buf wire s =
    (n : ℕ) × AllTakeSome writes i n
    × (((s.error ≡ none)
          × (s.next_write ≡ i + n)
          × (length buf ≤ counts writes i n)
          × (s.wire ≡ wire ++ buf))
        ⊎ ((e : WriteError) × (s.error ≡ some e)
            × IsErrorOf (writes (i + n)) e
            × (s.next_write ≡ suc (i + n))
            × (counts writes i n < length buf)
            × (s.wire ≡ wire ++ take (counts writes i n) buf)))

abbrev Delivers : (ℕ → Write) → ℕ → Bytes → Bytes → Option Sent → Type 0
Delivers writes i buf wire o = (s : Sent) × (o ≡ some s) × IsDelivery writes i buf wire s

-- A write that took `suc m` bytes, in front of the rest.
IsDelivery-suc :
    (writes : ℕ → Write) (i m : ℕ) (buf wire : Bytes) (s : Sent)
    → writes i ≡ written (suc m)
    → IsDelivery writes (suc i) (drop (suc m) buf) (wire ++ take (suc m) buf) s
    → IsDelivery writes i buf wire s
IsDelivery-suc writes i m buf wire s at (n, takes, ended) = (
  suc n,
  (subst TakesSome (sym at) (omega arith), takes),
  elim ended [
    | inl h ↦ inl (
      h.0,
      h.1 ∙ shifted,
      omega (arith, h.2, length-drop (suc m) buf, counted),
      h.3
          ∙ append_assoc wire (take (suc m) buf) (drop (suc m) buf)
          ∙ ap (λ t. wire ++ t) (take-drop (suc m) buf),
    )
    | inr (e, failed, of_write, ended_at, less, on_wire) ↦ inr (
      e,
      failed,
      subst (λ j. IsErrorOf (writes j) e) shifted of_write,
      ended_at ∙ ap suc shifted,
      omega (arith, less, length-drop (suc m) buf, counted),
      on_wire
          ∙ append_assoc wire (take (suc m) buf) (take (counts writes (suc i) n) (drop (suc m) buf))
          ∙ ap (λ t. wire ++ t) (take-take (suc m) (counts writes (suc i) n) buf)
          ∙ ap (λ k. wire ++ take k buf) (sym counted),
    )
  ],
)
  where
    counted : counts writes i (suc n) ≡ suc m + counts writes (suc i) n
    counted = ap (λ w. count w + counts writes (suc i) n) at

    shifted : suc i + n ≡ i + suc n
    shifted = omega arith

pub write_from-Delivers :
    (rounds : ℕ) (writes : ℕ → Write) (i : ℕ) (buf wire : Bytes)
    → length buf ≤ rounds
    → Delivers writes i buf wire (write_from rounds writes i buf wire)
unfolding write_from
write_from-Delivers rounds writes i [] wire h =
    (sent none wire i, refl, (0, tt, inl (refl, omega arith, omega arith, sym (append-nil wire))))
write_from-Delivers zero writes i (b ∷ buf) wire h = absurd (omega (arith, h))
write_from-Delivers (suc rounds) writes i (b ∷ buf) wire h = go (writes i) refl (λ n.
    write_from-Delivers rounds writes (suc i) (drop (suc n) (b ∷ buf))
      (wire ++ take (suc n) (b ∷ buf)) (omega (arith, h, length-drop n buf)))
  where
    stop :
        (w : Write) (e : WriteError)
        → writes i ≡ w
        → IsErrorOf w e
        → Delivers writes i (b ∷ buf) wire (some (sent (some e) wire (suc i)))
    stop w e at h = (
      sent (some e) wire (suc i),
      refl,
      (
        0,
        tt,
        inr (
          e,
          refl,
          subst (λ v. IsErrorOf v e) (sym at ∙ ap writes (omega arith)) h,
          omega arith,
          omega arith,
          sym (append-nil wire),
        ),
      ),
    )

    go :
        (w : Write)
        → writes i ≡ w
        → ((n : ℕ)
            → Delivers writes (suc i) (drop (suc n) (b ∷ buf)) (wire ++ take (suc n) (b ∷ buf)) (
                write_from rounds writes
                  (suc i)
                  (drop (suc n) (b ∷ buf))
                  (wire ++ take (suc n) (b ∷ buf))))
        → Delivers writes i (b ∷ buf) wire (elim w [
          | write_failed e ↦ some (sent (some (io_error e)) wire (suc i))
          | written zero ↦ some (sent (some write_zero) wire (suc i))
          | written (suc n) ↦
              write_from rounds writes
                (suc i)
                (drop (suc n) (b ∷ buf))
                (wire ++ take (suc n) (b ∷ buf))
        ])
    go (write_failed e) at later = stop (write_failed e) (io_error e) at refl
    go (written zero) at later = stop (written zero) write_zero at refl
    go (written (suc n)) at later =
        let more = later n in
        (more.0, more.1, IsDelivery-suc writes i n (b ∷ buf) wire more.0 at more.2)

-- `write_all` ends; it has put all bytes on the wire, or it gives the error of the write that ended it, and
-- the wire holds the first of the bytes, as many as the writes before took.
pub write_all-IsDelivery :
    (writes : ℕ → Write) (i : ℕ) (buf wire : Bytes)
    → (s : Sent) × (write_all writes i buf wire ≡ some s) × IsDelivery writes i buf wire s
unfolding write_all
write_all-IsDelivery writes i buf wire =
    write_from-Delivers (length buf) writes i buf wire (omega arith)

-- On a connection that takes some bytes at every write, all bytes arrive.
pub write_from_all :
    (rounds : ℕ) (writes : ℕ → Write) (i : ℕ) (buf wire : Bytes)
    → length buf ≤ rounds
    → ((j : ℕ) → TakesSome (writes j))
    → (next : ℕ) × (write_from rounds writes i buf wire ≡ some (sent none (wire ++ buf) next))
unfolding write_from
write_from_all rounds writes i [] wire h k =
    (i, ap (λ (w : Bytes). some (sent none w i)) (sym (append-nil wire)))
write_from_all zero writes i (b ∷ buf) wire h k = absurd (omega (arith, h))
write_from_all (suc rounds) writes i (b ∷ buf) wire h k = go (writes i) (k i) (λ n.
    write_from_all rounds writes (suc i) (drop (suc n) (b ∷ buf)) (wire ++ take (suc n) (b ∷ buf))
      (omega (arith, h, length-drop n buf)) k)
  where
    whole : (n : ℕ) → (wire ++ take (suc n) (b ∷ buf)) ++ drop (suc n) (b ∷ buf) ≡ wire ++ b ∷ buf
    whole n =
        append_assoc wire (take (suc n) (b ∷ buf)) (drop (suc n) (b ∷ buf))
        ∙ ap (λ t. wire ++ t) (take-drop (suc n) (b ∷ buf))

    go :
        (w : Write)
        → TakesSome w
        → ((n : ℕ)
            → (next : ℕ) × (write_from rounds writes
                  (suc i)
                  (drop (suc n) (b ∷ buf))
                  (wire ++ take (suc n) (b ∷ buf))
                ≡ some
                    (sent none ((wire ++ take (suc n) (b ∷ buf)) ++ drop (suc n) (b ∷ buf)) next)))
        → (next : ℕ) × (elim w [
          | write_failed e ↦ some (sent (some (io_error e)) wire (suc i))
          | written zero ↦ some (sent (some write_zero) wire (suc i))
          | written (suc n) ↦
              write_from rounds writes
                (suc i)
                (drop (suc n) (b ∷ buf))
                (wire ++ take (suc n) (b ∷ buf))
        ]
            ≡ some (sent none (wire ++ b ∷ buf) next))
    go (write_failed e) t later = absurd t
    go (written zero) t later = absurd (omega (arith, t))
    go (written (suc n)) t later =
        let more = later n in
        (more.0, more.1 ∙ ap (λ (w : Bytes). some (sent none w more.0)) (whole n))
