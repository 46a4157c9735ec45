-- ===== src/Http/Ascii/Laws.antt =====
-- Case and spaces, and a decimal number read back.
use faio.Base.{
  ℕ, zero, suc, ◌+◌, ◌-◌, ◌*◌, ◌/◌, ◌%◌, ◌<◌, ◌≡◌, refl, sym, ap, ◌∙◌, true, false, [], ◌∷◌, ◌++◌,
  inl, inr, Bool-cases, arith, length, if◌then◌else◌, ◌==◌, ltb, ltb→le, ==→eq,
}
use faio.Http.Text.{Bytes, same}
use faio.Http.Ascii.{tolower, lower_ascii, all_equal, iequals_ascii, decimal_from, to_string}

all_equal-lower_ascii :
    (lhs rhs : Bytes)
    → length lhs ≡ length rhs
    → all_equal lhs rhs ≡ same (lower_ascii lhs) (lower_ascii rhs)
all_equal-lower_ascii [] [] h = refl
all_equal-lower_ascii [] (b ∷ rhs) h = absurd (omega (arith, h))
all_equal-lower_ascii (a ∷ lhs) [] h = absurd (omega (arith, h))
all_equal-lower_ascii (a ∷ lhs) (b ∷ rhs) h =
    ap (λ x. if tolower a == tolower b then x else false)
      (all_equal-lower_ascii lhs rhs (omega (arith, h)))

same_length :
    (lhs rhs : Bytes) → same (lower_ascii lhs) (lower_ascii rhs) ≡ true → length lhs ≡ length rhs
same_length [] [] h = refl
same_length [] (b ∷ rhs) h = ground (arith, h)
same_length (a ∷ lhs) [] h = ground (arith, h)
same_length (a ∷ lhs) (b ∷ rhs) h = elim (Bool-cases (tolower a == tolower b)) [
  | inl e ↦ ap suc (
      same_length lhs rhs
        (sym (ap (λ x. if x then same (lower_ascii lhs) (lower_ascii rhs) else false) e) ∙ h))
  | inr e ↦
      ground (arith, ap (λ x. if x then same (lower_ascii lhs) (lower_ascii rhs) else false) e, h)
]

-- The comparison of two names is that of the names in lower case.
pub iequals_ascii-lower_ascii :
    (lhs rhs : Bytes) → iequals_ascii lhs rhs ≡ same (lower_ascii lhs) (lower_ascii rhs)
iequals_ascii-lower_ascii lhs rhs = elim (Bool-cases (length lhs == length rhs)) [
  | inl e ↦
      ap (λ b. if b then all_equal lhs rhs else false) e
      ∙ all_equal-lower_ascii lhs rhs (==→eq (length lhs) (length rhs) e)
  | inr e ↦ elim (Bool-cases (same (lower_ascii lhs) (lower_ascii rhs))) [
    | inl f ↦ absurd (ground (arith, e, same_length lhs rhs f))
    | inr f ↦ ap (λ b. if b then all_equal lhs rhs else false) e ∙ sym f
  ]
]

-- Reading a decimal number.
abbrev pub read_decimal : ℕ → Bytes → ℕ
read_decimal n [] = n
read_decimal n (c ∷ s) = read_decimal (n * 10 + (c - b'0')) s

read_decimal-append :
    (n : ℕ) (xs : Bytes) (c : ℕ)
    → read_decimal n (xs ++ (c ∷ [])) ≡ read_decimal n xs * 10 + (c - b'0')
read_decimal-append n [] c = refl
read_decimal-append n (x ∷ xs) c = read_decimal-append (n * 10 + (x - b'0')) xs c

read_decimal-decimal_from : (rounds n : ℕ) → n < rounds → read_decimal 0 (decimal_from rounds n) ≡ n
read_decimal-decimal_from zero n h = absurd (omega (arith, h))
read_decimal-decimal_from (suc rounds) n h = elim (Bool-cases (ltb n 10)) [
  | inl e ↦ rw e (omega arith)
  | inr e ↦
      let high = read_decimal-decimal_from rounds (n / 10) (omega (arith, h, ltb→le n 10 e)) in
      rw e (
        read_decimal-append 0 (decimal_from rounds (n / 10)) (b'0' + n % 10)
        ∙ ap (λ (k : ℕ). k * 10 + (b'0' + n % 10 - b'0')) high
        ∙ omega arith)
]

-- A number is read back from its decimal digits.
pub read_decimal-to_string : (n : ℕ) → read_decimal 0 (to_string n) ≡ n
read_decimal-to_string n = read_decimal-decimal_from (suc n) n (omega arith)
