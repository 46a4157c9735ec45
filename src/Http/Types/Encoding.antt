-- ===== src/Http/Types/Encoding.antt =====
-- The encoding of text in a query, as a client may write it and as `url_decode` (types.hpp) reads it.
use faio.Base.{
  ℕ, ◌+◌, ◌-◌, ◌/◌, ◌%◌, ◌<◌, ◌≡◌, ◌≢◌, ◌⊎◌, refl, sym, ap, ap₂, ◌∙◌, false, List, [], ◌∷◌, some,
  inl, inr, All, arith, if◌then◌else◌, leb, ◌==◌,
}
use faio.Http.Text.{Bytes, has}
use faio.Http.Types.{from_hex, hex_pair, escape, plus, url_decode}

-- How a client may write a byte: as itself, a space as `+`, or as `%` and two hexadecimal digits, with
-- capital or with small letters.
pub data Style : Type 0 where
  plainly as_plus in_upper in_lower : Style

abbrev pub Char : Type 0
Char = ℕ × Style

abbrev pub upper_hex : ℕ → ℕ
upper_hex n = if leb n 9 then b'0' + n else b'A' + (n - 10)

abbrev pub lower_hex : ℕ → ℕ
lower_hex n = if leb n 9 then b'0' + n else b'a' + (n - 10)

abbrev pub encode_char : Char → Bytes → Bytes
encode_char (b, plainly) rest = b ∷ rest
encode_char (b, as_plus) rest = b'+' ∷ rest
encode_char (b, in_upper) rest = b'%' ∷ upper_hex (b / 16) ∷ upper_hex (b % 16) ∷ rest
encode_char (b, in_lower) rest = b'%' ∷ lower_hex (b / 16) ∷ lower_hex (b % 16) ∷ rest

abbrev pub encode : List Char → Bytes
encode [] = []
encode (c ∷ s) = encode_char c (encode s)

-- The bytes that are meant.
abbrev pub text : List Char → Bytes
text [] = []
text ((b, style) ∷ s) = b ∷ text s

-- A byte that stands for itself is none of `%`, `+`, `&` and `=`, and only a space is written `+`.
abbrev pub IsEncodable : Char → Type 0
IsEncodable (b, plainly) = (b ≢ b'%') × (b ≢ b'+') × (b ≢ b'&') × (b ≢ b'=')
IsEncodable (b, as_plus) = b ≡ b' '
IsEncodable (b, in_upper) = b < 256
IsEncodable (b, in_lower) = b < 256

from_hex-upper_hex : (n : ℕ) → n < 16 → from_hex (upper_hex n) ≡ some n
unfolding from_hex
from_hex-upper_hex n h = ground arith

from_hex-lower_hex : (n : ℕ) → n < 16 → from_hex (lower_hex n) ≡ some n
unfolding from_hex
from_hex-lower_hex n h = ground arith

url_decode-escape :
    (c d e b : ℕ) (s : Bytes)
    → escape c d e ≡ some b
    → url_decode (c ∷ d ∷ e ∷ s) ≡ b ∷ url_decode s
unfolding url_decode
url_decode-escape c d e b s h = rw (url_decode, h) refl

url_decode-plus : (c : ℕ) (s : Bytes) → c ≢ b'%' → url_decode (c ∷ s) ≡ plus c ∷ url_decode s
unfolding url_decode
url_decode-plus c [] h = refl
url_decode-plus c (d ∷ []) h = refl
url_decode-plus c (d ∷ e ∷ s) h =
    let no_escape : (c == b'%') ≡ false = ground arith in rw (url_decode, no_escape) refl

hex_pair-digits :
    (high low b : ℕ)
    → b < 256
    → from_hex high ≡ some (b / 16)
    → from_hex low ≡ some (b % 16)
    → escape b'%' high low ≡ some b
hex_pair-digits high low b h k l = ap₂ hex_pair k l ∙ ap (λ (n : ℕ). some n) (omega arith)

url_decode-encode_char :
    (c : Char) (s : Bytes) → IsEncodable c → url_decode (encode_char c s) ≡ c.0 ∷ url_decode s
url_decode-encode_char (b, plainly) s h =
    let kept : plus b ≡ b = ground (arith, h.1) in
    url_decode-plus b s h.0 ∙ ap (λ k. k ∷ url_decode s) kept
url_decode-encode_char (b, as_plus) s h =
    url_decode-plus b'+' s (omega arith) ∙ ap (λ k. k ∷ url_decode s) (sym h)
url_decode-encode_char (b, in_upper) s h =
    url_decode-escape b'%' (upper_hex (b / 16)) (upper_hex (b % 16)) b s (
      hex_pair-digits (upper_hex (b / 16)) (upper_hex (b % 16)) b h
        (from_hex-upper_hex (b / 16) (omega arith)) (from_hex-upper_hex (b % 16) (omega arith)))
url_decode-encode_char (b, in_lower) s h =
    url_decode-escape b'%' (lower_hex (b / 16)) (lower_hex (b % 16)) b s (
      hex_pair-digits (lower_hex (b / 16)) (lower_hex (b % 16)) b h
        (from_hex-lower_hex (b / 16) (omega arith)) (from_hex-lower_hex (b % 16) (omega arith)))

-- Decoding gives the text back, however the client wrote it.
pub url_decode-encode : (s : List Char) → All IsEncodable s → url_decode (encode s) ≡ text s
unfolding url_decode
url_decode-encode [] h = refl
url_decode-encode (c ∷ s) h =
    url_decode-encode_char c (encode s) h.0 ∙ ap (◌∷◌ c.0) (url_decode-encode s h.1)

abbrev pub IsSeparator : ℕ → Type 0
IsSeparator c = (c ≡ b'&') ⊎ (c ≡ b'=')

has-skip : (c d : ℕ) (s : Bytes) → d ≢ c → has c s ≡ false → has c (d ∷ s) ≡ false
has-skip c d s h k = ground (arith, k)

-- A digit is no separator.
upper_hex_other : (n c : ℕ) → n < 16 → IsSeparator c → upper_hex n ≢ c
upper_hex_other n c h (inl e) = λ k. ground (arith, k)
upper_hex_other n c h (inr e) = λ k. ground (arith, k)

lower_hex_other : (n c : ℕ) → n < 16 → IsSeparator c → lower_hex n ≢ c
lower_hex_other n c h (inl e) = λ k. ground (arith, k)
lower_hex_other n c h (inr e) = λ k. ground (arith, k)

mark_other : (d c : ℕ) → d ≢ b'&' → d ≢ b'=' → IsSeparator c → d ≢ c
mark_other d c h k (inl e) = λ l. omega arith
mark_other d c h k (inr e) = λ l. omega arith

has_escape :
    (c high low : ℕ) (s : Bytes)
    → IsSeparator c
    → high ≢ c
    → low ≢ c
    → has c s ≡ false
    → has c (b'%' ∷ high ∷ low ∷ s) ≡ false
has_escape c high low s sep h l k =
    has-skip c b'%' (high ∷ low ∷ s) (mark_other b'%' c (omega arith) (omega arith) sep)
      (has-skip c high (low ∷ s) h (has-skip c low s l k))

has-encode_char :
    (c : ℕ) (char : Char) (s : Bytes)
    → IsSeparator c
    → IsEncodable char
    → has c s ≡ false
    → has c (encode_char char s) ≡ false
has-encode_char c (b, plainly) s sep h k = has-skip c b s (mark_other b c h.2 h.3 sep) k
has-encode_char c (b, as_plus) s sep h k =
    has-skip c b'+' s (mark_other b'+' c (omega arith) (omega arith) sep) k
has-encode_char c (b, in_upper) s sep h k =
    has_escape c (upper_hex (b / 16)) (upper_hex (b % 16)) s sep
      (upper_hex_other (b / 16) c (omega arith) sep) (upper_hex_other (b % 16) c (omega arith) sep)
      k
has-encode_char c (b, in_lower) s sep h k =
    has_escape c (lower_hex (b / 16)) (lower_hex (b % 16)) s sep
      (lower_hex_other (b / 16) c (omega arith) sep) (lower_hex_other (b % 16) c (omega arith) sep)
      k

-- An encoded text holds no separator.
pub has-encode :
    (c : ℕ) (s : List Char) → IsSeparator c → All IsEncodable s → has c (encode s) ≡ false
has-encode c [] sep h = refl
has-encode c (char ∷ s) sep h = has-encode_char c char (encode s) sep h.0 (has-encode c s sep h.1)
