-- ===== src/Http/ClientV1/Response.antt =====
-- The response that a client gets (client_session_v1.hpp), however its bytes are split into reads. The
-- client treats headers as the server does, of which a client's session has a view.
use faio.Base.{
  ℕ, ◌≡◌, refl, sym, ap, ap₂, ◌∙◌, Bool, true, false, List, [], ◌∷◌, ◌++◌, map, All, append-nil,
  append_assoc, if◌then◌else◌,
}
use faio.Http.Text.{Bytes, concat}
use faio.Http.Types.{get, HttpHeaders, HttpResponse}
use faio.Http.SessionV1
use faio.Http.SessionV1.Assembly
use faio.Http.SessionV1.Assembly.{HeaderParts, IsNamed, header_table}
use faio.Http.ClientV1.{
  ClientSession, ClientCallback, message_begin, header_field, header_value, status_known, body_data,
  message_complete, finalize_as, finalize_header_if_ready, leave_value, on_message_begin, received,
  callback, callbacks,
}

abbrev view : ClientSession → SessionV1.Session
view s = record {
  current_method = get;
  current_url = [];
  current_headers = s.current_headers;
  current_body = s.current_body;
  current_header_field = s.current_header_field;
  current_header_value = s.current_header_value;
  reading_header_value = s.reading_header_value;
  keep_alive = true;
  pending_requests = [];
}

view-finalize_as :
    (field : Bytes) (s : ClientSession)
    → view (finalize_as field s) ≡ SessionV1.finalize_as field (view s)
view-finalize_as [] s = refl
view-finalize_as (c ∷ field) s = refl

view-leave_value : (s : ClientSession) → view (leave_value s) ≡ SessionV1.leave_value (view s)
view-leave_value s = go s.reading_header_value
  where
    go :
        (b : Bool)
        → view
            (if b then record (finalize_header_if_ready s) { reading_header_value = false } else s)
          ≡ (if b
              then record (SessionV1.finalize_header_if_ready (view s)) {
                reading_header_value = false;
              }
              else view s)
    go true =
        ap (λ (u : SessionV1.Session). record u { reading_header_value = false })
          (view-finalize_as s.current_header_field s)
    go false = refl

view-names :
    (parts : List Bytes) (s : ClientSession)
    → view (callbacks (map header_field parts) s)
      ≡ SessionV1.callbacks (map SessionV1.header_field parts) (view s)
view-names [] s = refl
view-names (part ∷ rest) s =
    view-names rest (callback (header_field part) s)
    ∙ ap
        (λ (u : SessionV1.Session).
          SessionV1.callbacks (map SessionV1.header_field rest)
            (record u { current_header_field = u.current_header_field ++ part }))
        (view-leave_value s)

view-values :
    (parts : List Bytes) (s : ClientSession)
    → view (callbacks (map header_value parts) s)
      ≡ SessionV1.callbacks (map SessionV1.header_value parts) (view s)
view-values [] s = refl
view-values (part ∷ rest) s = view-values rest (callback (header_value part) s)

-- The calls of the callbacks for headers in parts.
abbrev pub header_calls : List HeaderParts → List ClientCallback
header_calls [] = []
header_calls (h ∷ rest) =
    map header_field h.name_parts
    ++ (header_value h.value_part ∷ map header_value h.value_rest ++ header_calls rest)

pub callbacks-append :
    (xs ys : List ClientCallback) (s : ClientSession)
    → callbacks (xs ++ ys) s ≡ callbacks ys (callbacks xs s)
callbacks-append [] ys s = refl
callbacks-append (x ∷ xs) ys s = callbacks-append xs ys (callback x s)

abbrev Agree : List ClientCallback → List SessionV1.Callback → Type 0
Agree cs ds = (s : ClientSession) → view (callbacks cs s) ≡ SessionV1.callbacks ds (view s)

view-append :
    (xs ys : List ClientCallback) (us vs : List SessionV1.Callback)
    → Agree xs us
    → Agree ys vs
    → Agree (xs ++ ys) (us ++ vs)
view-append xs ys us vs hx hy s =
    ap view (callbacks-append xs ys s)
    ∙ hy (callbacks xs s)
    ∙ ap (SessionV1.callbacks vs) (hx s)
    ∙ sym (SessionV1.Assembly.callbacks-append us vs (view s))

view-headers :
    (hs : List HeaderParts) → Agree (header_calls hs) (SessionV1.Assembly.header_calls hs)
view-headers [] s = refl
view-headers (h ∷ hs) s =
    view-append (map header_field h.name_parts) _ (map SessionV1.header_field h.name_parts) _
      (view-names h.name_parts)
      (λ t.
        view-append (map header_value h.value_rest) (header_calls hs)
          (map SessionV1.header_value h.value_rest) (SessionV1.Assembly.header_calls hs)
          (view-values h.value_rest) (view-headers hs) (callback (header_value h.value_part) t))
      s

-- The responses that a call adds to the pending ones.
abbrev pub new_responses : ClientCallback → ClientSession → List HttpResponse
new_responses message_complete s = received s ∷ []
new_responses message_begin s = []
new_responses (header_field at) s = []
new_responses (header_value at) s = []
new_responses (status_known status) s = []
new_responses (body_data at) s = []

finalize_as-pending :
    (field : Bytes) (s : ClientSession)
    → (finalize_as field s).pending_responses ≡ s.pending_responses
finalize_as-pending [] s = refl
finalize_as-pending (c ∷ field) s = refl

callback-pending :
    (c : ClientCallback) (s : ClientSession)
    → (callback c s).pending_responses ≡ s.pending_responses ++ new_responses c s
callback-pending message_begin s = sym (append-nil s.pending_responses)
callback-pending (header_field at) s =
    go s.reading_header_value ∙ sym (append-nil s.pending_responses)
  where
    go :
        (b : Bool)
        → (if b
            then record (finalize_header_if_ready s) { reading_header_value = false }
            else s).pending_responses
          ≡ s.pending_responses
    go true = finalize_as-pending s.current_header_field s
    go false = refl
callback-pending (header_value at) s = sym (append-nil s.pending_responses)
callback-pending (status_known status) s =
    finalize_as-pending s.current_header_field s ∙ sym (append-nil s.pending_responses)
callback-pending (body_data at) s = sym (append-nil s.pending_responses)
callback-pending message_complete s = refl

abbrev pub all_new : List ClientCallback → ClientSession → List HttpResponse
all_new [] s = []
all_new (c ∷ rest) s = new_responses c s ++ all_new rest (callback c s)

pub callbacks-pending :
    (cs : List ClientCallback) (s : ClientSession)
    → (callbacks cs s).pending_responses ≡ s.pending_responses ++ all_new cs s
callbacks-pending [] s = sym (append-nil s.pending_responses)
callbacks-pending (c ∷ cs) s =
    callbacks-pending cs (callback c s)
    ∙ ap (λ (ps : List HttpResponse). ps ++ all_new cs (callback c s)) (callback-pending c s)
    ∙ append_assoc s.pending_responses (new_responses c s) (all_new cs (callback c s))

all_new-append :
    (xs ys : List ClientCallback) (s : ClientSession)
    → all_new (xs ++ ys) s ≡ all_new xs s ++ all_new ys (callbacks xs s)
all_new-append [] ys s = refl
all_new-append (x ∷ xs) ys s =
    ap (λ (ps : List HttpResponse). new_responses x s ++ ps) (all_new-append xs ys (callback x s))
    ∙ sym (
        append_assoc (new_responses x s) (all_new xs (callback x s))
          (all_new ys (callbacks xs (callback x s))))

all_new-names : (parts : List Bytes) (s : ClientSession) → all_new (map header_field parts) s ≡ []
all_new-names [] s = refl
all_new-names (part ∷ rest) s = all_new-names rest (callback (header_field part) s)

all_new-values : (parts : List Bytes) (s : ClientSession) → all_new (map header_value parts) s ≡ []
all_new-values [] s = refl
all_new-values (part ∷ rest) s = all_new-values rest (callback (header_value part) s)

all_new-headers : (hs : List HeaderParts) (s : ClientSession) → all_new (header_calls hs) s ≡ []
all_new-headers [] s = refl
all_new-headers (h ∷ hs) s =
    let t = callbacks (map header_field h.name_parts) s in
    let u = callback (header_value h.value_part) t in
    all_new-append (map header_field h.name_parts) _ s
    ∙ ap₂ ◌++◌ (all_new-names h.name_parts s) (
        all_new-append (map header_value h.value_rest) (header_calls hs) u
        ∙ ap₂ ◌++◌ (all_new-values h.value_rest u)
            (all_new-headers hs (callbacks (map header_value h.value_rest) u)))

-- A response as the parser gives it, in whatever parts.
pub record ResponseParts : Type 0 where
  pub status : ℕ
  pub header_parts : List HeaderParts
  pub body_parts : List Bytes

abbrev pub response_of : ResponseParts → HttpResponse
response_of m = record {
  status = m.status;
  headers = header_table m.header_parts [];
  body = concat m.body_parts;
}

abbrev pub body_calls : List Bytes → List ClientCallback
body_calls parts = map body_data parts ++ (message_complete ∷ [])

abbrev pub response_calls : ResponseParts → List ClientCallback
response_calls m =
    message_begin ∷ header_calls m.header_parts ++ (status_known m.status ∷ body_calls m.body_parts)

all_new-body :
    (parts : List Bytes) (s : ClientSession)
    → all_new (body_calls parts) s
      ≡ record {
        status = s.current_status;
        headers = s.current_headers;
        body = s.current_body ++ concat parts;
      }
        ∷ []
all_new-body [] s =
    ap
      (λ (b : Bytes).
        record { status = s.current_status; headers = s.current_headers; body = b } ∷ [])
      (sym (append-nil s.current_body))
all_new-body (part ∷ rest) s =
    all_new-body rest (callback (body_data part) s)
    ∙ ap
        (λ (b : Bytes).
          record { status = s.current_status; headers = s.current_headers; body = b } ∷ [])
        (append_assoc s.current_body part (concat rest))

pub all_new-response_calls :
    (m : ResponseParts) (s : ClientSession)
    → All IsNamed m.header_parts
    → all_new (response_calls m) s ≡ response_of m ∷ []
all_new-response_calls m s named =
    let begun = on_message_begin s in
    let read = callbacks (header_calls m.header_parts) begun in
    let closed = finalize_header_if_ready read in
    let same : view closed
        ≡ SessionV1.finalize_header_if_ready
            (SessionV1.callbacks (SessionV1.Assembly.header_calls m.header_parts) (view begun)) =
      view-finalize_as read.current_header_field read
      ∙ ap SessionV1.finalize_header_if_ready (view-headers m.header_parts begun) in
    let final = SessionV1.Assembly.headers-finalized m.header_parts (view begun) named in
    all_new-append (header_calls m.header_parts) (status_known m.status ∷ body_calls m.body_parts)
      begun
    ∙ ap
        (λ (ps : List HttpResponse).
          ps ++ all_new (status_known m.status ∷ body_calls m.body_parts) read)
        (all_new-headers m.header_parts begun)
    ∙ all_new-body m.body_parts (record closed { current_status = m.status })
    ∙ ap₂
        (λ (hs : HttpHeaders) (b : Bytes).
          record { status = m.status; headers = hs; body = b ++ concat m.body_parts } ∷ [])
        (ap (λ (u : SessionV1.Session). u.current_headers) same ∙ final.0)
        (ap (λ (u : SessionV1.Session). u.current_body) same ∙ final.1)
