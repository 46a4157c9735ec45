-- ===== src/Http/SessionV2/BodySource.antt =====
-- Sending a response's body (`read_callback` in server_session_v2.hpp): nghttp2 asks for parts of the body,
-- of sizes that it chooses, until one comes with the flag EOF.
use Prim.Native.Nat.{min}
use faio.Base.{
  ℕ, zero, suc, ◌+◌, ◌-◌, ◌≤◌, ◌<◌, ◌≡◌, refl, sym, ap, ◌∙◌, Bool, true, false, [], ◌∷◌, ◌++◌,
  Option, none, some, inl, inr, Bool-cases, arith, length, length-drop, if◌then◌else◌, ◌==◌, ==→eq,
  take, drop, append-nil,
}
use faio.Http.Text.{Bytes}
use faio.Http.Wire.Delivery.{drop_all, take-drop}
use faio.Http.SessionV2.{ResponseBodySource, read_callback}

abbrev pub before : Bytes → Option Bytes → Option Bytes
before bytes none = none
before bytes (some rest) = some (bytes ++ rest)

-- All parts that the callback gives up to the one with EOF, `none` when there are no rounds left.
abbrev pub pull : ℕ → (ℕ → ℕ) → ℕ → ResponseBodySource → Option Bytes
pull zero sizes i state = none
pull (suc rounds) sizes i state =
    let part = read_callback (sizes i) state in
    let rest = pull rounds sizes (suc i) part.2 in
    if part.1 then some part.0 else before part.0 rest

drop-drop : (m n : ℕ) (xs : Bytes) → drop n (drop m xs) ≡ drop (m + n) xs
drop-drop zero n xs = ap (λ (k : ℕ). drop k xs) nothing
  where
    nothing : n ≡ 0 + n
    nothing = omega arith
drop-drop (suc m) n [] = drop_none n ∙ sym (drop_none (suc m + n))
  where
    drop_none : (k : ℕ) → drop {A = ℕ} k [] ≡ []
    drop_none zero = refl
    drop_none (suc k) = refl
drop-drop (suc m) n (x ∷ xs) = drop-drop m n xs ∙ ap (λ (k : ℕ). drop k (x ∷ xs)) more
  where
    more : suc (m + n) ≡ suc m + n
    more = omega arith

take_all : (n : ℕ) (xs : Bytes) → length xs ≤ n → take n xs ≡ xs
take_all n xs h =
    sym (append-nil (take n xs)) ∙ ap (λ t. take n xs ++ t) (sym (drop_all n xs h)) ∙ take-drop n xs

-- A call where bytes are left, and one where none is.
read_callback_busy :
    (size : ℕ) (state : ResponseBodySource)
    → (length state.body - state.offset == 0) ≡ false
    → read_callback size state ≡ (
      take (min (length state.body - state.offset) size) (drop state.offset state.body),
      state.offset + min (length state.body - state.offset) size == length state.body,
      record state { offset = state.offset + min (length state.body - state.offset) size },
    )
unfolding read_callback
read_callback_busy size state h = rw (read_callback, h) refl

read_callback_done :
    (size : ℕ) (state : ResponseBodySource)
    → (length state.body - state.offset == 0) ≡ true
    → read_callback size state ≡ ([], true, state)
unfolding read_callback
read_callback_done size state h = rw (read_callback, h) refl

pull_step :
    (rounds : ℕ) (sizes : ℕ → ℕ) (i : ℕ) (state : ResponseBodySource)
    (part : Bytes × Bool × ResponseBodySource)
    → read_callback (sizes i) state ≡ part
    → pull (suc rounds) sizes i state
      ≡ (if part.1 then some part.0 else before part.0 (pull rounds sizes (suc i) part.2))
pull_step rounds sizes i state part h =
    ap
      (λ (p : Bytes × Bool × ResponseBodySource).
        if p.1 then some p.0 else before p.0 (pull rounds sizes (suc i) p.2))
      h

pull_lem :
    (rounds : ℕ) (sizes : ℕ → ℕ) (i : ℕ) (body : Bytes) (offset : ℕ)
    → ((j : ℕ) → 0 < sizes j)
    → offset ≤ length body
    → length body - offset < rounds
    → pull rounds sizes i (record { body = body; offset = offset }) ≡ some (drop offset body)
pull_lem zero sizes i body offset some_size inside enough = absurd (omega (arith, enough))
pull_lem (suc rounds) sizes i body offset some_size inside enough =
    let state : ResponseBodySource = record { body = body; offset = offset } in
    let left = length body - offset in
    let size = min left (sizes i) in
    let rest = drop offset body in
    elim (Bool-cases (left == 0)) [
      | inl e ↦
          pull_step rounds sizes i state ([], true, state) (read_callback_done (sizes i) state e)
          ∙ ap (λ (b : Bytes). some b) (sym (drop_all offset body (omega (arith, ==→eq left 0 e))))
      | inr e ↦
          pull_step rounds sizes i state
            (take size rest, offset + size == length body, record state { offset = offset + size })
            (read_callback_busy (sizes i) state e)
          ∙ elim (Bool-cases (offset + size == length body)) [
            | inl f ↦
                ap
                  (λ b.
                    if b
                    then some (take size rest)
                    else before (take size rest)
                        (pull rounds sizes (suc i) (record state { offset = offset + size })))
                  f
                ∙ ap (λ (b : Bytes). some b)
                    (take_all size rest (
                      omega
                        (arith, ==→eq (offset + size) (length body) f, length-drop offset body)))
            | inr f ↦
                ap
                  (λ b.
                    if b
                    then some (take size rest)
                    else before (take size rest)
                        (pull rounds sizes (suc i) (record state { offset = offset + size })))
                  f
                ∙ ap (before (take size rest)) (
                    pull_lem rounds sizes (suc i) body (offset + size) some_size
                      (omega (arith, inside)) (ground (arith, enough, e, some_size i, inside)))
                ∙ ap (λ (b : Bytes). some (take size rest ++ b)) (sym (drop-drop offset size body))
                ∙ ap (λ (b : Bytes). some b) (take-drop size rest)
          ]
    ]

-- A body is sent whole: if every part that is asked for may have a byte, then the parts of the body are, one
-- behind the other, the body, and the last of them comes with EOF, after a call for each byte at most and
-- one more.
pub pull-body :
    (body : Bytes) (sizes : ℕ → ℕ)
    → ((j : ℕ) → 0 < sizes j)
    → pull (suc (length body)) sizes 0 (record { body = body; offset = 0 }) ≡ some body
pull-body body sizes some_size =
    pull_lem (suc (length body)) sizes 0 body 0 some_size (omega arith) (omega arith)
