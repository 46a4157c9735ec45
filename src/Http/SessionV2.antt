-- ===== src/Http/SessionV2.antt =====
-- The server's callbacks of include/faio/detail/http/v2/session_callbacks.hpp, and the source of a
-- response's body in include/faio/detail/http/v2/server_session_v2.hpp. The library that calls them,
-- nghttp2, is not part of the repository: what it calls is a list.
pub mod Streams
pub mod Assembly
pub mod BodySource
mod Tests
use Prim.Native.Nat.{min}
use faio.Base.{
  ℕ, ◌+◌, ◌-◌, Bool, true, false, ◌&&◌, List, [], ◌∷◌, ◌++◌, Option, none, some, if◌then◌else◌,
  ◌==◌, length, take, drop,
}
use faio.Http.Text.{Bytes, codes, same, put}
use faio.Http.Types.{
  HttpMethod, get, HttpHeaders, HttpRequest, HttpResponse, new_request, string_to_http_method,
}
use faio.Http.Ascii.{to_string}

-- `ServerSessionState::StreamRequest`.
pub record StreamRequest : Type 0 where
  pub method : HttpMethod
  pub path : Bytes
  pub headers : HttpHeaders
  pub body : Bytes
  pub headers_complete : Bool
  pub body_complete : Bool

-- `requests` is a map, as a function.
pub record ServerSessionState : Type 0 where
  pub requests : ℕ → Option StreamRequest
  pub pending_requests : List (ℕ × HttpRequest)
  pub current_stream_id : ℕ

abbrev pub new_stream : StreamRequest
new_stream = record {
  method = get;
  path = [];
  headers = [];
  body = [];
  headers_complete = false;
  body_complete = false;
}

abbrev pub new_state : ServerSessionState
new_state = record { requests = λ stream_id. none; pending_requests = []; current_stream_id = 0 }

-- A call of a callback for a stream: a frame comes with its flags END_HEADERS and END_STREAM.
pub data Call : Type 0 where
  begin_headers : Call
  header_field : Bytes → Bytes → Call
  headers_frame : Bool → Bool → Call
  data_frame : Bool → Call
  data_chunk : Bytes → Call

abbrev pub or_new : Option StreamRequest → StreamRequest
or_new none = new_stream
or_new (some r) = r

abbrev pub store : ℕ → StreamRequest → ServerSessionState → ServerSessionState
store stream_id r s = record s { requests = λ j. if stream_id == j then some r else s.requests j }

abbrev pub push : ℕ → StreamRequest → ServerSessionState → ServerSessionState
push stream_id r s = record s {
  pending_requests =
      s.pending_requests ++ ((stream_id, new_request r.method r.path r.headers r.body) ∷ []);
}

-- The slot of a stream, made if it is missing.
abbrev pub ensure : ℕ → Option StreamRequest → ServerSessionState → ServerSessionState
ensure stream_id none s = store stream_id new_stream s
ensure stream_id (some r) s = s

abbrev pub server_on_begin_headers : ℕ → ServerSessionState → ServerSessionState
server_on_begin_headers stream_id s =
    ensure stream_id (s.requests stream_id) (record s { current_stream_id = stream_id })

abbrev pub add_field : Bytes → Bytes → StreamRequest → StreamRequest
add_field name value r =
    if same name (codes ":method")
    then record r { method = string_to_http_method value }
    else (if same name (codes ":path")
        then record r { path = value }
        else record r { headers = put name value r.headers })

abbrev pub server_on_header : ℕ → Bytes → Bytes → ServerSessionState → ServerSessionState
server_on_header stream_id name value s =
    store stream_id (add_field name value (or_new (s.requests stream_id))) s

abbrev pub append_body : Bytes → StreamRequest → StreamRequest
append_body bytes r = record r { body = r.body ++ bytes }

abbrev pub server_on_data_chunk_recv : ℕ → Bytes → ServerSessionState → ServerSessionState
server_on_data_chunk_recv stream_id bytes s =
    store stream_id (append_body bytes (or_new (s.requests stream_id))) s

abbrev pub completed : Bool → StreamRequest → StreamRequest
completed ends r =
    if ends
    then record r { headers_complete = true; body_complete = true }
    else record r { headers_complete = true }

abbrev pub body_ended : StreamRequest → StreamRequest
body_ended r = record r { body_complete = true }

abbrev pub push_if : Bool → ℕ → StreamRequest → ServerSessionState → ServerSessionState
push_if true stream_id r s = push stream_id r s
push_if false stream_id r s = s

-- `server_on_frame_recv` for a HEADERS frame, and for a DATA frame, of the stream's slot.
abbrev pub on_headers_frame :
    ℕ → Bool → Option StreamRequest → ServerSessionState → ServerSessionState
on_headers_frame stream_id ends none s = s
on_headers_frame stream_id ends (some r) s =
    push_if ends stream_id (completed ends r) (store stream_id (completed ends r) s)

abbrev pub on_data_frame : ℕ → Bool → Option StreamRequest → ServerSessionState → ServerSessionState
on_data_frame stream_id false slot s = s
on_data_frame stream_id true none s = s
on_data_frame stream_id true (some r) s =
    push_if r.headers_complete stream_id (body_ended r) (store stream_id (body_ended r) s)

abbrev pub callback : ℕ → Call → ServerSessionState → ServerSessionState
callback stream_id begin_headers s = server_on_begin_headers stream_id s
callback stream_id (header_field name value) s = server_on_header stream_id name value s
callback stream_id (headers_frame end_headers end_stream) s =
    on_headers_frame stream_id (end_headers && end_stream) (s.requests stream_id) s
callback stream_id (data_frame end_stream) s =
    on_data_frame stream_id end_stream (s.requests stream_id) s
callback stream_id (data_chunk bytes) s = server_on_data_chunk_recv stream_id bytes s

abbrev pub callbacks : List (ℕ × Call) → ServerSessionState → ServerSessionState
callbacks [] s = s
callbacks ((stream_id, c) ∷ rest) s = callbacks rest (callback stream_id c s)

pub record ResponseBodySource : Type 0 where
  pub body : Bytes
  pub offset : ℕ

-- The fields that `submit_response` gives to nghttp2.
abbrev pub response_fields : HttpResponse → HttpHeaders
response_fields resp = (codes ":status", to_string resp.status) ∷ resp.headers

-- A call of the body's `read_callback` for at most `size` bytes: the bytes, whether the flag EOF is set, and
-- the source then.
unfoldable pub read_callback : ℕ → ResponseBodySource → Bytes × Bool × ResponseBodySource
read_callback size state =
    let remaining = length state.body - state.offset in
    let to_send = min remaining size in
    if remaining == 0 then ([], true, state) else (
      take to_send (drop state.offset state.body),
      state.offset + to_send == length state.body,
      record state { offset = state.offset + to_send },
    )
