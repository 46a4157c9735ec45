-- ===== src/Http/SessionV1.antt =====
-- include/faio/detail/http/v1/server_session_v1.hpp: an HTTP/1.1 connection of a server. The parser,
-- llhttp, is not part of the repository: it is a parameter, which turns the bytes of a read into the calls
-- of the callbacks.
pub mod Assembly
pub mod Block
pub mod Pipeline
mod Tests
use faio.Base.{
  ℕ, zero, suc, ◌+◌, Bool, true, false, ◌||◌, List, [], ◌∷◌, ◌++◌, Option, none, some,
  if◌then◌else◌, ◌==◌, length,
}
use faio.Http.Text.{Bytes, codes, put}
use faio.Http.Types.{
  HttpMethod, get, HttpHeaders, HttpRequest, HttpResponse, new_request, string_to_http_method,
}
use faio.Http.Router.{Result, returns, throws, HttpHandler}
use faio.Http.Ascii.{lower_ascii, trim_copy, iequals_ascii, to_string}
use faio.Http.Wire.{Write, WriteError, Sent, write_all, write_parts}

pub record PendingRequest : Type 0 where
  pub request : HttpRequest
  pub keep_alive : Bool

-- The session without its stream, its parser and the buffer of the header block, which `write_response`
-- fills anew.
pub record Session : Type 0 where
  pub current_method : HttpMethod
  pub current_url : Bytes
  pub current_headers : HttpHeaders
  pub current_body : Bytes
  pub current_header_field : Bytes
  pub current_header_value : Bytes
  pub reading_header_value : Bool
  pub keep_alive : Bool
  pub pending_requests : List PendingRequest

abbrev pub new_session : Session
new_session = record {
  current_method = get;
  current_url = [];
  current_headers = [];
  current_body = [];
  current_header_field = [];
  current_header_value = [];
  reading_header_value = false;
  keep_alive = true;
  pending_requests = [];
}

-- A call of a callback. `headers_complete` carries the method's name in the parser, if it has one, and
-- `message_complete` whether the connection is to be kept alive.
pub data Callback : Type 0 where
  message_begin : Callback
  url : Bytes → Callback
  header_field : Bytes → Callback
  header_value : Bytes → Callback
  headers_complete : Option Bytes → Callback
  body_data : Bytes → Callback
  message_complete : Bool → Callback

abbrev pub finalize_as : Bytes → Session → Session
finalize_as [] s = s
finalize_as (c ∷ field) s = record s {
  current_headers =
      put (lower_ascii (c ∷ field)) (trim_copy s.current_header_value) s.current_headers;
  current_header_field = [];
  current_header_value = [];
}

abbrev pub finalize_header_if_ready : Session → Session
finalize_header_if_ready s = finalize_as s.current_header_field s

abbrev pub method_from_llhttp : Option Bytes → HttpMethod
method_from_llhttp none = get
method_from_llhttp (some method_name) = string_to_http_method method_name

abbrev pub on_message_begin : Session → Session
on_message_begin s = record s {
  current_method = get;
  current_url = [];
  current_headers = [];
  current_body = [];
  current_header_field = [];
  current_header_value = [];
  reading_header_value = false;
}

abbrev pub on_url : Bytes → Session → Session
on_url at s = record s { current_url = s.current_url ++ at }

-- The first part of `on_header_field`.
abbrev pub leave_value : Session → Session
leave_value s =
    if s.reading_header_value
    then record (finalize_header_if_ready s) { reading_header_value = false }
    else s

abbrev pub on_header_field : Bytes → Session → Session
on_header_field at s =
    let ready = leave_value s in
    record ready { current_header_field = ready.current_header_field ++ at }

abbrev pub on_header_value : Bytes → Session → Session
on_header_value at s = record s {
  reading_header_value = true;
  current_header_value = s.current_header_value ++ at;
}

abbrev pub on_headers_complete : Option Bytes → Session → Session
on_headers_complete name s = record (finalize_header_if_ready s) {
  current_method = method_from_llhttp name;
}

abbrev pub on_body : Bytes → Session → Session
on_body at s = record s { current_body = s.current_body ++ at }

abbrev pub assembled : Session → HttpRequest
assembled s = new_request s.current_method s.current_url s.current_headers s.current_body

-- What is moved out of is left empty.
abbrev pub on_message_complete : Bool → Session → Session
on_message_complete should_keep_alive s = record s {
  current_url = [];
  current_headers = [];
  current_body = [];
  pending_requests =
      s.pending_requests ++ (record { request = assembled s; keep_alive = should_keep_alive } ∷ []);
}

abbrev pub callback : Callback → Session → Session
callback message_begin s = on_message_begin s
callback (url at) s = on_url at s
callback (header_field at) s = on_header_field at s
callback (header_value at) s = on_header_value at s
callback (headers_complete name) s = on_headers_complete name s
callback (body_data at) s = on_body at s
callback (message_complete should_keep_alive) s = on_message_complete should_keep_alive s

abbrev pub callbacks : List Callback → Session → Session
callbacks [] s = s
callbacks (c ∷ rest) s = callbacks rest (callback c s)
