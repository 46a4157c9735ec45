-- ===== src/Http/SessionV1/Block.antt =====
-- The response as it is written (`append_status_line` and `write_response` of server_session_v1.hpp). The
-- headers of a response are taken in the order of their list, for the map's order is not determined.
pub mod Status
pub mod Lines
pub mod Peer
pub mod Delivery
use faio.Base.{
  ℕ, zero, suc, ◌+◌, ◌≤◌, ◌≡◌, refl, sym, ap, ap₂, subst, ◌∙◌, Bool, true, false, ◌||◌, List, [],
  ◌∷◌, ◌++◌, map, Option, none, some, All, inl, inr, Bool-cases, arith, length, length-append,
  append-nil, append_assoc, if◌then◌else◌, ◌==◌, ==→eq, ltb, ◌/◌, ◌%◌, All-append,
}
use faio.Http.Text.{Bytes, codes, same, has, same→eq, has-append}
use faio.Http.Types.{HttpHeaders, HttpResponse}
use faio.Http.Ascii.{lower_ascii, iequals_ascii, decimal_from, to_string}
use faio.Http.Ascii.Laws.{iequals_ascii-lower_ascii}
use faio.Http.Wire.{Write, Sent, write_from, write_all, write_parts}
use faio.Http.Wire.Delivery.{write_parts-write_from, write_from-Delivers, IsDelivery}

abbrev pub crlf : Bytes
crlf = 13 ∷ 10 ∷ []

unfoldable pub status_reason_phrase : ℕ → Bytes
status_reason_phrase status =
    if status == 200
    then codes "OK"
    else (if status == 201
        then codes "Created"
        else (if status == 204
            then codes "No Content"
            else (if status == 400
                then codes "Bad Request"
                else (if status == 404
                    then codes "Not Found"
                    else (if status == 405
                        then codes "Method Not Allowed"
                        else (if status == 500 then codes "Internal Server Error" else []))))))

abbrev pub with_reason : Bytes → Bytes → Bytes
with_reason out [] = out
with_reason out (c ∷ reason) = out ++ (b' ' ∷ c ∷ reason)

unfoldable pub append_status_line : Bytes → ℕ → Bytes
append_status_line out status =
    if status == 200
    then out ++ (codes "HTTP/1.1 200 OK" ++ crlf)
    else (if status == 201
        then out ++ (codes "HTTP/1.1 201 Created" ++ crlf)
        else (if status == 204
            then out ++ (codes "HTTP/1.1 204 No Content" ++ crlf)
            else (if status == 400
                then out ++ (codes "HTTP/1.1 400 Bad Request" ++ crlf)
                else (if status == 404
                    then out ++ (codes "HTTP/1.1 404 Not Found" ++ crlf)
                    else (if status == 405
                        then out ++ (codes "HTTP/1.1 405 Method Not Allowed" ++ crlf)
                        else (if status == 500
                            then out ++ (codes "HTTP/1.1 500 Internal Server Error" ++ crlf)
                            else with_reason (out ++ (codes "HTTP/1.1 " ++ to_string status))
                                (status_reason_phrase status)
                              ++ crlf))))))

-- The block under construction, and what its headers hold.
pub record Block : Type 0 where
  pub header_block_buf : Bytes
  pub has_content_length : Bool
  pub has_connection : Bool

abbrev pub append_line : Bytes → Bytes → Bytes → Bytes
append_line name value out = out ++ (name ++ (codes ": " ++ (value ++ crlf)))

-- A round of the loop over the headers.
abbrev pub add_header : Bytes → Bytes → Block → Block
add_header name value b =
    let is_length = iequals_ascii name (codes "content-length") in
    let is_connection = iequals_ascii name (codes "connection") in
    record {
      header_block_buf = append_line name value b.header_block_buf;
      has_content_length = if is_length then true else b.has_content_length;
      has_connection =
          if is_length
          then b.has_connection
          else (if is_connection then true else b.has_connection);
    }

abbrev pub add_headers : HttpHeaders → Block → Block
add_headers [] b = b
add_headers ((name, value) ∷ rest) b = add_headers rest (add_header name value b)

abbrev pub keep_alive_value : Bool → Bytes
keep_alive_value keep_alive = if keep_alive then codes "keep-alive" else codes "close"

abbrev pub add_length : HttpResponse → Block → Bytes
add_length resp b =
    if b.has_content_length
    then b.header_block_buf
    else append_line (codes "content-length") (to_string (length resp.body)) b.header_block_buf

abbrev pub add_connection : Bool → Bool → Bytes → Bytes
add_connection keep_alive has_connection out =
    if has_connection
    then out
    else append_line (codes "connection") (keep_alive_value keep_alive) out

-- The header block of `write_response`.
unfoldable pub header_block : HttpResponse → Bool → Bytes
header_block resp keep_alive =
    let b = add_headers resp.headers (record {
      header_block_buf = append_status_line [] resp.status;
      has_content_length = false;
      has_connection = false;
    }) in
    add_connection keep_alive b.has_connection (add_length resp b) ++ crlf

-- `write_response`: every round of its loop writes a byte at least.
unfoldable pub write_response : HttpResponse → Bool → (ℕ → Write) → ℕ → Bytes → Option Sent
write_response resp keep_alive writes i wire =
    let header = header_block resp keep_alive in
    if length resp.body == 0
    then write_all writes i header wire
    else write_parts (length header + length resp.body) writes i header resp.body wire
