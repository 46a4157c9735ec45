-- ===== src/Http/SessionV2/Assembly.antt =====
-- The request that a stream's calls make up (the server's callbacks of session_callbacks.hpp).
use mathlib.Core.Bool.{true≢false}
use faio.Base.{
  ℕ, ◌≡◌, refl, sym, ap, ◌∙◌, Bool, true, false, List, [], ◌∷◌, ◌++◌, none, some, append-nil,
  append_assoc, map, if◌then◌else◌,
}
use faio.Http.Text.{concat, Bytes, codes, same, same→eq, Table, put}
use faio.Http.Types.{HttpRequest, get, new_request, string_to_http_method}
use faio.Http.SessionV2.{
  StreamRequest, new_stream, new_state, Call, begin_headers, header_field, headers_frame,
  data_frame, data_chunk, add_field, append_body, callbacks,
}
use faio.Http.SessionV2.Streams.{stream_requests, calls_of, requests_of, callbacks-stream_requests}

-- The bytes of DATA frames, each in chunks.
abbrev pub concat_frames : List (List Bytes) → Bytes
concat_frames [] = []
concat_frames (frame ∷ rest) = concat frame ++ concat_frames rest

abbrev pub field_calls : List (Bytes × Bytes) → List Call → List Call
field_calls [] rest = rest
field_calls ((name, value) ∷ fields) rest = header_field name value ∷ field_calls fields rest

abbrev pub chunk_calls : List Bytes → List Call → List Call
chunk_calls [] rest = rest
chunk_calls (chunk ∷ chunks) rest = data_chunk chunk ∷ chunk_calls chunks rest

-- The last frame ends the stream.
abbrev pub data_calls : List Bytes → List (List Bytes) → List Call
data_calls frame [] = chunk_calls frame (data_frame true ∷ [])
data_calls frame (next ∷ rest) = chunk_calls frame (data_frame false ∷ data_calls next rest)

abbrev pub body_calls : List (List Bytes) → List Call
body_calls [] = headers_frame true true ∷ []
body_calls (frame ∷ rest) = headers_frame true false ∷ data_calls frame rest

-- The calls for a stream that carries a request with these header fields and DATA frames.
abbrev pub stream_calls : List (Bytes × Bytes) → List (List Bytes) → List Call
stream_calls fields frames = begin_headers ∷ field_calls fields (body_calls frames)

abbrev pub add_fields : List (Bytes × Bytes) → StreamRequest → StreamRequest
add_fields [] r = r
add_fields ((name, value) ∷ rest) r = add_fields rest (add_field name value r)

-- The values of the fields with this name, in order.
abbrev pub values : Bytes → List (Bytes × Bytes) → List Bytes
values wanted [] = []
values wanted ((name, value) ∷ rest) =
    if same name wanted then value ∷ values wanted rest else values wanted rest

-- The fields that are neither `:method` nor `:path`.
abbrev pub others : List (Bytes × Bytes) → List (Bytes × Bytes)
others [] = []
others ((name, value) ∷ rest) =
    if same name (codes ":method")
    then others rest
    else (if same name (codes ":path") then others rest else (name, value) ∷ others rest)

-- The last, or `first` where there is none.
abbrev pub last_or : {A : Type 0} → A → List A → A
last_or first [] = first
last_or first (x ∷ xs) = last_or x xs

abbrev pub put_fields : List (Bytes × Bytes) → Table Bytes → Table Bytes
put_fields [] headers = headers
put_fields ((name, value) ∷ rest) headers = put_fields rest (put name value headers)

-- The request with these fields and this body: its method and its path are the last that the pseudo fields
-- name, GET and nothing where they name none, and its headers are the other fields, a later value of a
-- name replacing an earlier one.
abbrev pub request_with : List (Bytes × Bytes) → Bytes → HttpRequest
request_with fields body =
    new_request (last_or get (map string_to_http_method (values (codes ":method") fields)))
      (last_or [] (values (codes ":path") fields)) (put_fields (others fields) []) body

abbrev with_fields : List (Bytes × Bytes) → StreamRequest → StreamRequest
with_fields fields r = record r {
  method = last_or r.method (map string_to_http_method (values (codes ":method") fields));
  path = last_or r.path (values (codes ":path") fields);
  headers = put_fields (others fields) r.headers;
}

pseudo_differ :
    (name : Bytes) → same name (codes ":method") ≡ true → same name (codes ":path") ≡ false
pseudo_differ name h = ap (λ n. same n (codes ":path")) (same→eq name (codes ":method") h)

-- Field by field, the stream gets what the fields say.
add_fields-with_fields :
    (fields : List (Bytes × Bytes)) (r : StreamRequest) → add_fields fields r ≡ with_fields fields r
add_fields-with_fields [] r = refl
add_fields-with_fields ((name, value) ∷ rest) r =
    go (same name (codes ":method")) (same name (codes ":path")) (pseudo_differ name)
      (add_fields-with_fields rest)
  where
    go :
        (is_method is_path : Bool)
        → (is_method ≡ true → is_path ≡ false)
        → ((r : StreamRequest) → add_fields rest r ≡ with_fields rest r)
        → add_fields rest (
            if is_method
            then record r { method = string_to_http_method value }
            else (if is_path
                then record r { path = value }
                else record r { headers = put name value r.headers }))
          ≡ record r {
            method = last_or r.method (
                map string_to_http_method (
                  if is_method
                  then value ∷ values (codes ":method") rest
                  else values (codes ":method") rest));
            path = last_or r.path (
                if is_path
                then value ∷ values (codes ":path") rest
                else values (codes ":path") rest);
            headers =
                put_fields
                  (if is_method
                    then others rest
                    else (if is_path then others rest else (name, value) ∷ others rest))
                  r.headers;
          }
    go true true differ later = absurd (true≢false (differ refl))
    go true false differ later = later (record r { method = string_to_http_method value })
    go false true differ later = later (record r { path = value })
    go false false differ later = later (record r { headers = put name value r.headers })

stream_requests-fields :
    (fields : List (Bytes × Bytes)) (rest : List Call) (r : StreamRequest)
    → stream_requests (field_calls fields rest) (some r)
      ≡ stream_requests rest (some (add_fields fields r))
stream_requests-fields [] rest r = refl
stream_requests-fields ((name, value) ∷ fields) rest r =
    stream_requests-fields fields rest (add_field name value r)

stream_requests-chunks :
    (chunks : List Bytes) (rest : List Call) (r : StreamRequest)
    → stream_requests (chunk_calls chunks rest) (some r)
      ≡ stream_requests rest (some (append_body (concat chunks) r))
stream_requests-chunks [] rest r =
    ap (λ (b : Bytes). stream_requests rest (some (record r { body = b })))
      (sym (append-nil r.body))
stream_requests-chunks (chunk ∷ chunks) rest r =
    stream_requests-chunks chunks rest (append_body chunk r)
    ∙ ap (λ (b : Bytes). stream_requests rest (some (record r { body = b })))
        (append_assoc r.body chunk (concat chunks))

stream_requests-data :
    (frame : List Bytes) (rest : List (List Bytes)) (r : StreamRequest)
    → r.headers_complete ≡ true
    → stream_requests (data_calls frame rest) (some r)
      ≡ new_request r.method r.path r.headers (r.body ++ concat_frames (frame ∷ rest)) ∷ []
stream_requests-data frame [] r h =
    stream_requests-chunks frame (data_frame true ∷ []) r
    ∙ ap
        (λ b.
          (if b then new_request r.method r.path r.headers (r.body ++ concat frame) ∷ [] else [])
          ++ [])
        h
    ∙ ap (λ (b : Bytes). new_request r.method r.path r.headers (r.body ++ b) ∷ [])
        (sym (append-nil (concat frame)))
stream_requests-data frame (next ∷ rest) r h =
    stream_requests-chunks frame (data_frame false ∷ data_calls next rest) r
    ∙ stream_requests-data next rest (append_body (concat frame) r) h
    ∙ ap (λ (b : Bytes). new_request r.method r.path r.headers b ∷ [])
        (append_assoc r.body (concat frame) (concat_frames (next ∷ rest)))

stream_requests-stream_calls :
    (fields : List (Bytes × Bytes)) (frames : List (List Bytes))
    → stream_requests (stream_calls fields frames) none
      ≡ request_with fields (concat_frames frames) ∷ []
stream_requests-stream_calls fields [] =
    stream_requests-fields fields (headers_frame true true ∷ []) new_stream
    ∙ ap (λ r. stream_requests (headers_frame true true ∷ []) (some r))
        (add_fields-with_fields fields new_stream)
stream_requests-stream_calls fields (frame ∷ rest) =
    let r = with_fields fields new_stream in
    stream_requests-fields fields (headers_frame true false ∷ data_calls frame rest) new_stream
    ∙ ap (λ r. stream_requests (headers_frame true false ∷ data_calls frame rest) (some r))
        (add_fields-with_fields fields new_stream)
    ∙ stream_requests-data frame rest (record r { headers_complete = true }) refl

-- A stream whose calls are those of a request, with its header fields and its DATA frames in whatever
-- chunks, gets one request, however the calls for other streams lie between its own: its method and its
-- path are the last that the pseudo fields name (GET and nothing where they name none), its headers are
-- the other fields, a later value of a name replacing an earlier one, and its body is the whole body.
pub callbacks-request_with :
    (calls : List (ℕ × Call)) (stream_id : ℕ) (fields : List (Bytes × Bytes))
    (frames : List (List Bytes))
    → calls_of stream_id calls ≡ stream_calls fields frames
    → requests_of stream_id (callbacks calls new_state).pending_requests
      ≡ request_with fields (concat_frames frames) ∷ []
callbacks-request_with calls stream_id fields frames at =
    callbacks-stream_requests calls new_state stream_id
    ∙ ap (λ cs. stream_requests cs none) at
    ∙ stream_requests-stream_calls fields frames
