-- ===== src/Http/SessionV1/Block/Lines.antt =====
-- The header block as the text of its lines (`write_response` of server_session_v1.hpp).
use faio.Base.{
  ℕ, ◌≡◌, refl, sym, ap, ap₂, ◌∙◌, Bool, true, false, ◌||◌, List, [], ◌∷◌, ◌++◌, All, arith, length,
  append-nil, append_assoc, if◌then◌else◌, ◌==◌,
}
use faio.Http.Text.{Bytes, codes, same, has, same→eq}
use faio.Http.Types.{HttpHeaders, HttpResponse}
use faio.Http.Ascii.{lower_ascii, iequals_ascii, to_string}
use faio.Http.Ascii.Laws.{iequals_ascii-lower_ascii}
use faio.Http.SessionV1.Block.{
  crlf, status_reason_phrase, with_reason, append_status_line, Block, append_line, add_header,
  add_headers, keep_alive_value, add_length, add_connection, header_block,
}
use faio.Http.SessionV1.Block.Status.{append_status_line-status_reason_phrase}

-- The lines of a text, as a peer splits it at each CR LF.
abbrev pub push_byte : ℕ → List Bytes → List Bytes
push_byte c [] = (c ∷ []) ∷ []
push_byte c (line ∷ rest) = (c ∷ line) ∷ rest

abbrev pub lines : Bytes → List Bytes
lines [] = [] ∷ []
lines (c ∷ []) = (c ∷ []) ∷ []
lines (c ∷ d ∷ s) =
    let skipped = lines s in
    let kept = lines (d ∷ s) in
    if c == 13 then (if d == 10 then [] ∷ skipped else push_byte c kept) else push_byte c kept

lines_push :
    (c d : ℕ) (s : Bytes) → (c == 13) ≡ false → lines (c ∷ d ∷ s) ≡ push_byte c (lines (d ∷ s))
lines_push c d s h =
    ap
      (λ b.
        if b
        then (if d == 10 then [] ∷ lines s else push_byte c (lines (d ∷ s)))
        else push_byte c (lines (d ∷ s)))
      h

-- A line without CR is split off.
lines-append :
    (line rest : Bytes) → has 13 line ≡ false → lines (line ++ (crlf ++ rest)) ≡ line ∷ lines rest
lines-append [] rest h = refl
lines-append (c ∷ []) rest h =
    lines_push c 13 (10 ∷ rest) (ground (arith, h)) ∙ ap (push_byte c) (lines-append [] rest refl)
lines-append (c ∷ d ∷ line) rest h =
    lines_push c d (line ++ (crlf ++ rest)) (ground (arith, h))
    ∙ ap (push_byte c) (lines-append (d ∷ line) rest (ground (arith, h)))

-- The header lines of a response.
abbrev pub line_of : Bytes → Bytes → Bytes
line_of name value = name ++ (codes ": " ++ value)

abbrev pub header_lines : HttpHeaders → List Bytes
header_lines [] = []
header_lines ((name, value) ∷ rest) = line_of name value ∷ header_lines rest

abbrev pub has_name : Bytes → HttpHeaders → Bool
has_name wanted [] = false
has_name wanted ((name, value) ∷ rest) = same (lower_ascii name) wanted || has_name wanted rest

abbrev pub unless : Bool → Bytes → List Bytes
unless b line = if b then [] else line ∷ []

abbrev pub block_lines : HttpResponse → Bool → List Bytes
block_lines resp keep_alive =
    with_reason (codes "HTTP/1.1 " ++ to_string resp.status) (status_reason_phrase resp.status)
      ∷ header_lines resp.headers
    ++ (unless (has_name (codes "content-length") resp.headers)
          (line_of (codes "content-length") (to_string (length resp.body)))
        ++ (unless (has_name (codes "connection") resp.headers)
              (line_of (codes "connection") (keep_alive_value keep_alive))
            ++ ([] ∷ [])))

-- Every line with its end.
abbrev pub text_of : List Bytes → Bytes
text_of [] = []
text_of (line ∷ rest) = line ++ (crlf ++ text_of rest)

pub text_of-append : (xs ys : List Bytes) → text_of (xs ++ ys) ≡ text_of xs ++ text_of ys
text_of-append [] ys = refl
text_of-append (x ∷ xs) ys =
    ap (λ t. x ++ (crlf ++ t)) (text_of-append xs ys)
    ∙ sym (append_assoc x (crlf ++ text_of xs) (text_of ys))

pub lines-text_of :
    (ls : List Bytes) (rest : Bytes)
    → All (λ (line : Bytes). has 13 line ≡ false) ls
    → lines (text_of ls ++ rest) ≡ ls ++ lines rest
lines-text_of [] rest h = refl
lines-text_of (line ∷ ls) rest h =
    ap lines (append_assoc line (crlf ++ text_of ls) rest)
    ∙ lines-append line (text_of ls ++ rest) h.0
    ∙ ap (◌∷◌ line) (lines-text_of ls rest h.1)

append_line_lem :
    (name value out : Bytes) → append_line name value out ≡ out ++ text_of (line_of name value ∷ [])
append_line_lem name value out =
    ap (λ t. out ++ t)
      (sym (
        append_assoc name (codes ": " ++ value) crlf
        ∙ ap (λ t. name ++ t) (append_assoc (codes ": ") value crlf)))

or_later : (p q r : Bool) → (q || (if p then true else r)) ≡ ((p || q) || r)
or_later true true r = refl
or_later true false r = refl
or_later false q r = refl

or_skip :
    (l p q r : Bool)
    → (l ≡ true → p ≡ false)
    → (q || (if l then r else (if p then true else r))) ≡ ((p || q) || r)
or_skip false p q r h = or_later p q r
or_skip true true q r h = ground (arith, h refl)
or_skip true false q r h = refl

-- A name is not both of the two that the loop looks for.
other_name :
    (name : Bytes)
    → iequals_ascii name (codes "content-length") ≡ true
    → iequals_ascii name (codes "connection") ≡ false
other_name name h =
    let at : lower_ascii name ≡ codes "content-length" =
      same→eq (lower_ascii name) (codes "content-length")
        (sym (iequals_ascii-lower_ascii name (codes "content-length")) ∙ h) in
    iequals_ascii-lower_ascii name (codes "connection") ∙ ap (λ n. same n (codes "connection")) at

add_headers-text_of :
    (hs : HttpHeaders) (b : Block)
    → (add_headers hs b).header_block_buf ≡ b.header_block_buf ++ text_of (header_lines hs)
add_headers-text_of [] b = sym (append-nil b.header_block_buf)
add_headers-text_of ((name, value) ∷ rest) b =
    add_headers-text_of rest (add_header name value b)
    ∙ ap (λ t. t ++ text_of (header_lines rest)) (append_line_lem name value b.header_block_buf)
    ∙ append_assoc b.header_block_buf (text_of (line_of name value ∷ []))
        (text_of (header_lines rest))
    ∙ ap (λ t. b.header_block_buf ++ t)
        (sym (text_of-append (line_of name value ∷ []) (header_lines rest)))

add_headers-content_length :
    (hs : HttpHeaders) (b : Block)
    → (add_headers hs b).has_content_length
      ≡ (has_name (codes "content-length") hs || b.has_content_length)
add_headers-content_length [] b = refl
add_headers-content_length ((name, value) ∷ rest) b =
    let found = iequals_ascii name (codes "content-length") in
    let more = has_name (codes "content-length") rest in
    add_headers-content_length rest (add_header name value b)
    ∙ or_later found more b.has_content_length
    ∙ ap (λ x. (x || more) || b.has_content_length)
        (iequals_ascii-lower_ascii name (codes "content-length"))

add_headers-connection :
    (hs : HttpHeaders) (b : Block)
    → (add_headers hs b).has_connection ≡ (has_name (codes "connection") hs || b.has_connection)
add_headers-connection [] b = refl
add_headers-connection ((name, value) ∷ rest) b =
    let found = iequals_ascii name (codes "connection") in
    let more = has_name (codes "connection") rest in
    add_headers-connection rest (add_header name value b)
    ∙ or_skip (iequals_ascii name (codes "content-length")) found more b.has_connection
        (other_name name)
    ∙ ap (λ x. (x || more) || b.has_connection)
        (iequals_ascii-lower_ascii name (codes "connection"))

or_false : (b : Bool) → (b || false) ≡ b
or_false true = refl
or_false false = refl

unless_line :
    (b : Bool) (name value out : Bytes)
    → (if b then out else append_line name value out)
      ≡ out ++ text_of (unless b (line_of name value))
unless_line true name value out = sym (append-nil out)
unless_line false name value out = append_line_lem name value out

text_of_more :
    (ls ms : List Bytes) (out : Bytes) → out ≡ text_of ls → out ++ text_of ms ≡ text_of (ls ++ ms)
text_of_more ls ms out h = ap (λ t. t ++ text_of ms) h ∙ sym (text_of-append ls ms)

-- The two headers that are added, by whether the loop saw one of that name.
finish_block :
    (ls : List Bytes) (resp : HttpResponse) (keep_alive : Bool) (b : Block)
    → b.header_block_buf ≡ text_of ls
    → add_connection keep_alive b.has_connection (add_length resp b) ++ crlf
      ≡ text_of (
          ls
          ++ (unless b.has_content_length
                (line_of (codes "content-length") (to_string (length resp.body)))
              ++ (unless b.has_connection
                    (line_of (codes "connection") (keep_alive_value keep_alive))
                  ++ ([] ∷ []))))
finish_block ls resp keep_alive b h =
    let size = line_of (codes "content-length") (to_string (length resp.body)) in
    let ends = line_of (codes "connection") (keep_alive_value keep_alive) in
    let first = unless b.has_content_length size in
    let second = unless b.has_connection ends in
    let sized : add_length resp b ≡ text_of (ls ++ first) =
      unless_line b.has_content_length (codes "content-length") (to_string (length resp.body))
        b.header_block_buf
      ∙ text_of_more ls first b.header_block_buf h in
    ap (λ t. t ++ crlf)
      (unless_line b.has_connection (codes "connection") (keep_alive_value keep_alive)
          (add_length resp b)
        ∙ text_of_more (ls ++ first) second (add_length resp b) sized)
    ∙ sym (text_of-append ((ls ++ first) ++ second) ([] ∷ []))
    ∙ ap text_of
        (append_assoc (ls ++ first) second ([] ∷ []) ∙ append_assoc ls first (second ++ ([] ∷ [])))

-- The block is the text of its lines.
pub header_block-text_of :
    (resp : HttpResponse) (keep_alive : Bool)
    → header_block resp keep_alive ≡ text_of (block_lines resp keep_alive)
unfolding header_block
header_block-text_of resp keep_alive =
    finish_block (first ∷ header_lines resp.headers) resp keep_alive
      (add_headers resp.headers start)
      (add_headers-text_of resp.headers start
        ∙ text_of_more (first ∷ []) (header_lines resp.headers) (append_status_line [] resp.status)
            (append_status_line-status_reason_phrase [] resp.status))
    ∙ ap₂
        (λ x y. text_of (
          first ∷ header_lines resp.headers
          ++ (unless x (line_of (codes "content-length") (to_string (length resp.body)))
              ++ (unless y (line_of (codes "connection") (keep_alive_value keep_alive))
                  ++ ([] ∷ [])))))
        (add_headers-content_length resp.headers start
          ∙ or_false (has_name (codes "content-length") resp.headers))
        (add_headers-connection resp.headers start
          ∙ or_false (has_name (codes "connection") resp.headers))
  where
    start : Block
    start = record {
      header_block_buf = append_status_line [] resp.status;
      has_content_length = false;
      has_connection = false;
    }

    first : Bytes
    first =
        with_reason (codes "HTTP/1.1 " ++ to_string resp.status) (status_reason_phrase resp.status)
