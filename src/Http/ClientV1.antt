-- ===== src/Http/ClientV1.antt =====
-- include/faio/detail/http/v1/client_session_v1.hpp: an HTTP/1.1 connection of a client. The parser, llhttp,
-- is a parameter, as for the server; the client's text helpers are the server's.
pub mod Response
pub mod Exchange
mod Tests
use faio.Base.{
  ℕ, Bool, true, false, ◌||◌, List, [], ◌∷◌, ◌++◌, Option, none, some, if◌then◌else◌, length,
}
use faio.Http.Text.{Bytes, codes, same, put}
use faio.Http.Types.{HttpHeaders, HttpRequest, HttpResponse, http_method_to_string}
use faio.Http.Ascii.{lower_ascii, trim_copy, to_string}
use faio.Http.Wire.{Write, WriteError, Sent, write_all}
use faio.Http.Detect.{Read, data_read, failed}
use faio.Http.SessionV1.Block.{crlf, append_line}

-- The session without its stream and its parser.
pub record ClientSession : Type 0 where
  pub current_status : ℕ
  pub current_headers : HttpHeaders
  pub current_body : Bytes
  pub current_header_field : Bytes
  pub current_header_value : Bytes
  pub reading_header_value : Bool
  pub pending_responses : List HttpResponse

-- A call of a callback; `status_known` is `on_headers_complete` with the parser's status.
pub data ClientCallback : Type 0 where
  message_begin : ClientCallback
  header_field : Bytes → ClientCallback
  header_value : Bytes → ClientCallback
  status_known : ℕ → ClientCallback
  body_data : Bytes → ClientCallback
  message_complete : ClientCallback

abbrev pub or_slash : Bytes → Bytes
or_slash [] = codes "/"
or_slash (c ∷ path) = c ∷ path

-- The message under construction, and what its headers hold.
pub record Outgoing : Type 0 where
  pub out : Bytes
  pub has_host : Bool
  pub has_content_length : Bool
  pub has_connection : Bool

-- A round of the loop over the headers of `serialize_request`.
abbrev pub write_header : Bytes → Bytes → Outgoing → Outgoing
write_header name value o =
    let lower = lower_ascii name in
    let is_host = same lower (codes "host") in
    let is_length = same lower (codes "content-length") in
    let is_connection = same lower (codes "connection") in
    record {
      out = append_line name value o.out;
      has_host = if is_host then true else o.has_host;
      has_content_length =
          if is_host
          then o.has_content_length
          else (if is_length then true else o.has_content_length);
      has_connection =
          if is_host
          then o.has_connection
          else (if is_length
              then o.has_connection
              else (if is_connection then true else o.has_connection));
    }

abbrev pub write_headers : HttpHeaders → Outgoing → Outgoing
write_headers [] o = o
write_headers ((name, value) ∷ rest) o = write_headers rest (write_header name value o)

abbrev pub line_unless : Bool → Bytes → Bytes → Bytes → Bytes
line_unless b name value out = if b then out else append_line name value out

unfoldable pub serialize_request : HttpRequest → Bytes
serialize_request req =
    let o = write_headers req.headers (record {
      out =
          http_method_to_string req.method
          ++ (codes " " ++ (or_slash req.path ++ (codes " HTTP/1.1" ++ crlf)));
      has_host = false;
      has_content_length = false;
      has_connection = false;
    }) in
    line_unless o.has_content_length (codes "content-length") (to_string (length req.body)) (
      line_unless o.has_connection (codes "connection") (codes "keep-alive")
        (line_unless o.has_host (codes "host") (codes "localhost") o.out))
    ++ (crlf ++ req.body)

abbrev pub finalize_as : Bytes → ClientSession → ClientSession
finalize_as [] s = s
finalize_as (c ∷ field) s = record s {
  current_headers =
      put (lower_ascii (c ∷ field)) (trim_copy s.current_header_value) s.current_headers;
  current_header_field = [];
  current_header_value = [];
}

abbrev pub finalize_header_if_ready : ClientSession → ClientSession
finalize_header_if_ready s = finalize_as s.current_header_field s

abbrev pub leave_value : ClientSession → ClientSession
leave_value s =
    if s.reading_header_value
    then record (finalize_header_if_ready s) { reading_header_value = false }
    else s

abbrev pub on_message_begin : ClientSession → ClientSession
on_message_begin s = record s {
  current_status = 200;
  current_headers = [];
  current_body = [];
  current_header_field = [];
  current_header_value = [];
  reading_header_value = false;
}

abbrev pub on_header_field : Bytes → ClientSession → ClientSession
on_header_field at s =
    let ready = leave_value s in
    record ready { current_header_field = ready.current_header_field ++ at }

abbrev pub on_header_value : Bytes → ClientSession → ClientSession
on_header_value at s = record s {
  reading_header_value = true;
  current_header_value = s.current_header_value ++ at;
}

abbrev pub on_headers_complete : ℕ → ClientSession → ClientSession
on_headers_complete status s = record (finalize_header_if_ready s) { current_status = status }

abbrev pub on_body : Bytes → ClientSession → ClientSession
on_body at s = record s { current_body = s.current_body ++ at }

abbrev pub received : ClientSession → HttpResponse
received s = record {
  status = s.current_status;
  headers = s.current_headers;
  body = s.current_body;
}

-- What is moved out of is left empty.
abbrev pub on_message_complete : ClientSession → ClientSession
on_message_complete s = record s {
  current_headers = [];
  current_body = [];
  pending_responses = s.pending_responses ++ (received s ∷ []);
}

abbrev pub callback : ClientCallback → ClientSession → ClientSession
callback message_begin s = on_message_begin s
callback (header_field at) s = on_header_field at s
callback (header_value at) s = on_header_value at s
callback (status_known status) s = on_headers_complete status s
callback (body_data at) s = on_body at s
callback message_complete s = on_message_complete s

abbrev pub callbacks : List ClientCallback → ClientSession → ClientSession
callbacks [] s = s
callbacks (c ∷ rest) s = callbacks rest (callback c s)

pub data Fault : Type 0 where
  write_fault : WriteError → Fault
  read_fault : ℕ → Fault
  protocol_error : Fault
  unexpected_eof : Fault

-- What `request` returns, with the session then; `reading` while it waits for more.
pub data Reply : Type 0 where
  replied : HttpResponse → ClientSession → Reply
  faulted : Fault → Reply
  reading : Reply

-- The end of `request`, behind its loop.
abbrev pub take_pending : List HttpResponse → ClientSession → Reply
take_pending [] s = faulted unexpected_eof
take_pending (resp ∷ rest) s = replied resp (record s { pending_responses = rest })

module _ {P : Type 0} (llhttp_execute : Bytes → P → P × List ClientCallback × Bool)
    (llhttp_finish : P → List ClientCallback × Bool) where
  abbrev pub at_end : ClientSession → List ClientCallback × Bool → Reply
  at_end s finished =
      let fed = callbacks finished.0 s in
      if finished.1 then take_pending fed.pending_responses fed else faulted protocol_error

  -- The loop of `request` on the responses that are pending and the reads that are to come.
  abbrev pub read_loop : List Read → P → List HttpResponse → ClientSession → Reply
  read_loop reads p (resp ∷ rest) s = take_pending (resp ∷ rest) s
  read_loop [] p [] s = reading
  read_loop (failed e ∷ rest) p [] s = faulted (read_fault e)
  read_loop (data_read [] ∷ rest) p [] s = at_end s (llhttp_finish p)
  read_loop (data_read (b ∷ bytes) ∷ rest) p [] s =
      let parsed = llhttp_execute (b ∷ bytes) p in
      let fed = callbacks parsed.1 s in
      let more = read_loop rest parsed.0 fed.pending_responses fed in
      if parsed.2 then more else faulted protocol_error

  abbrev pub after_write : Option Sent → Reply → Option Reply
  after_write none more = none
  after_write (some sent) more = elim sent.error [
    | none ↦ some more
    | some e ↦ some (faulted (write_fault e))
  ]

  unfoldable pub request : HttpRequest → (ℕ → Write) → List Read → P → ClientSession → Option Reply
  request req writes reads p s =
      after_write (write_all writes 0 (serialize_request req) [])
        (read_loop reads p s.pending_responses s)
