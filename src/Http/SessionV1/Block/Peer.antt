-- ===== src/Http/SessionV1/Block/Peer.antt =====
-- What a peer reads of a header block (`write_response` of server_session_v1.hpp).
use faio.Base.{
  ℕ, zero, suc, ◌+◌, ◌≡◌, refl, sym, ap, ◌∙◌, Bool, true, false, [], ◌∷◌, ◌++◌, All, inl, inr,
  Bool-cases, arith, length, append-nil, if◌then◌else◌, ◌==◌, ltb, ◌/◌, ◌%◌, All-append,
}
use faio.Http.Text.{Bytes, codes, has, has-append}
use faio.Http.Types.{HttpHeaders, HttpResponse}
use faio.Http.Ascii.{decimal_from, to_string}
use faio.Http.SessionV1.Block.{status_reason_phrase, with_reason, keep_alive_value, header_block}
use faio.Http.SessionV1.Block.Lines.{
  lines, line_of, header_lines, has_name, unless, block_lines, text_of, lines-text_of,
  header_block-text_of,
}

-- A header line has no CR.
abbrev pub IsClean : Bytes × Bytes → Type 0
IsClean (name, value) = (has 13 name ≡ false) × (has 13 value ≡ false)

has-decimal_from : (rounds n : ℕ) → has 13 (decimal_from rounds n) ≡ false
has-decimal_from zero n = refl
has-decimal_from (suc rounds) n = elim (Bool-cases (ltb n 10)) [
  | inl e ↦ rw e (ground (arith, e))
  | inr e ↦ rw e (
      has-append 13 (decimal_from rounds (n / 10)) ((b'0' + n % 10) ∷ [])
        (has-decimal_from rounds (n / 10))
      ∙ ground arith)
]

has-line_of :
    (name value : Bytes)
    → has 13 name ≡ false
    → has 13 value ≡ false
    → has 13 (line_of name value) ≡ false
has-line_of name value h k = has-append 13 name (codes ": " ++ value) h ∙ k

header_lines-All :
    (hs : HttpHeaders)
    → All IsClean hs
    → All (λ (line : Bytes). has 13 line ≡ false) (header_lines hs)
header_lines-All [] h = tt
header_lines-All ((name, value) ∷ rest) h =
    (has-line_of name value h.0.0 h.0.1, header_lines-All rest h.1)

unless-All :
    (b : Bool) (line : Bytes)
    → has 13 line ≡ false
    → All (λ (l : Bytes). has 13 l ≡ false) (unless b line)
unless-All true line h = tt
unless-All false line h = (h, tt)

if_clean :
    (b : Bool) (x y : Bytes)
    → has 13 x ≡ false
    → has 13 y ≡ false
    → has 13 (if b then x else y) ≡ false
if_clean true x y h k = h
if_clean false x y h k = k

with_reason_clean :
    (out reason : Bytes)
    → has 13 out ≡ false
    → has 13 reason ≡ false
    → has 13 (with_reason out reason) ≡ false
with_reason_clean out [] h k = h
with_reason_clean out (c ∷ reason) h k = has-append 13 out (b' ' ∷ c ∷ reason) h ∙ k

first_clean :
    (status : ℕ)
    → has 13 (with_reason (codes "HTTP/1.1 " ++ to_string status) (status_reason_phrase status))
      ≡ false
unfolding status_reason_phrase
first_clean status =
    with_reason_clean (codes "HTTP/1.1 " ++ to_string status) (status_reason_phrase status)
      (has-decimal_from (suc status) status)
      (if_clean (status == 200) _ _ refl (
        if_clean (status == 201) _ _ refl (
          if_clean (status == 204) _ _ refl (
            if_clean (status == 400) _ _ refl (
              if_clean (status == 404) _ _ refl
                (if_clean (status == 405) _ _ refl (if_clean (status == 500) _ _ refl refl)))))))

-- A peer that splits the header block of a response at each CR LF gets the status line, the response's
-- headers, a content-length with the size of the body and a connection line if the response has none of its
-- own, and an empty line that ends the block; no header may hold a CR.
pub lines-header_block :
    (resp : HttpResponse) (keep_alive : Bool)
    → All IsClean resp.headers
    → lines (header_block resp keep_alive) ≡ block_lines resp keep_alive ++ ([] ∷ [])
lines-header_block resp keep_alive h =
    ap lines (
      header_block-text_of resp keep_alive
      ∙ sym (append-nil (text_of (block_lines resp keep_alive))))
    ∙ lines-text_of (block_lines resp keep_alive) [] all_clean
  where
    all_clean : All (λ (l : Bytes). has 13 l ≡ false) (block_lines resp keep_alive)
    all_clean = (
      first_clean resp.status,
      All-append (λ (l : Bytes). has 13 l ≡ false) (header_lines resp.headers) _
          (header_lines-All resp.headers h)
          (All-append (λ (l : Bytes). has 13 l ≡ false)
            (unless (has_name (codes "content-length") resp.headers) _) _
            (unless-All (has_name (codes "content-length") resp.headers) _ (
              has-line_of (codes "content-length") (to_string (length resp.body)) refl
                (has-decimal_from (suc (length resp.body)) (length resp.body))))
            (All-append (λ (l : Bytes). has 13 l ≡ false)
              (unless (has_name (codes "connection") resp.headers) _) _
              (unless-All (has_name (codes "connection") resp.headers) _ (
                has-line_of (codes "connection") (keep_alive_value keep_alive) refl
                  (if_clean keep_alive _ _ refl refl)))
              (refl, tt))),
    )
