-- ===== src/Http/SessionV1/Assembly.antt =====
-- The requests that the callbacks of server_session_v1.hpp assemble.
use faio.Base.{
  ◌≡◌, ◌≢◌, refl, sym, ap, ap₂, ◌∙◌, Bool, true, false, List, [], ◌∷◌, ◌++◌, map, Option, All,
  append-nil, append_assoc, if◌then◌else◌, Bool-cases, inl, inr,
}
use faio.Http.Text.{concat, Bytes, put}
use faio.Http.Types.{HttpHeaders, new_request}
use faio.Http.Ascii.{lower_ascii, trim_copy}
use faio.Http.SessionV1.{
  PendingRequest, Session, Callback, message_begin, url, header_field, header_value,
  headers_complete, body_data, message_complete, finalize_header_if_ready, method_from_llhttp,
  leave_value, on_message_begin, callback, callbacks,
}

-- The parts in which the parser gives the name of a header, and those of its value, one at least.
pub record HeaderParts : Type 0 where
  pub name_parts : List Bytes
  pub value_part : Bytes
  pub value_rest : List Bytes

-- A request as the parser gives it, in whatever parts.
pub record Message : Type 0 where
  pub method_name : Option Bytes
  pub url_parts : List Bytes
  pub header_parts : List HeaderParts
  pub body_parts : List Bytes
  pub should_keep_alive : Bool

abbrev pub name_of : HeaderParts → Bytes
name_of h = concat h.name_parts

abbrev pub value_of : HeaderParts → Bytes
value_of h = h.value_part ++ concat h.value_rest

abbrev pub header_calls : List HeaderParts → List Callback
header_calls [] = []
header_calls (h ∷ rest) =
    map header_field h.name_parts
    ++ (header_value h.value_part ∷ map header_value h.value_rest ++ header_calls rest)

-- The calls of the callbacks for a request.
abbrev pub calls : Message → List Callback
calls m =
    message_begin ∷ map url m.url_parts
    ++ (header_calls m.header_parts
        ++ (headers_complete m.method_name ∷ map body_data m.body_parts
            ++ (message_complete m.should_keep_alive ∷ [])))

abbrev pub header_table : List HeaderParts → HttpHeaders → HttpHeaders
header_table [] headers = headers
header_table (h ∷ rest) headers =
    header_table rest (put (lower_ascii (name_of h)) (trim_copy (value_of h)) headers)

-- The request that the parts make up.
abbrev pub pending_of : Message → PendingRequest
pending_of m = record {
  request =
      new_request (method_from_llhttp m.method_name) (concat m.url_parts)
        (header_table m.header_parts []) (concat m.body_parts);
  keep_alive = m.should_keep_alive;
}

abbrev pub IsNamed : HeaderParts → Type 0
IsNamed h = name_of h ≢ []

pub callbacks-append :
    (xs ys : List Callback) (s : Session) → callbacks (xs ++ ys) s ≡ callbacks ys (callbacks xs s)
callbacks-append [] ys s = refl
callbacks-append (x ∷ xs) ys s = callbacks-append xs ys (callback x s)

callbacks-url :
    (parts : List Bytes) (s : Session)
    → callbacks (map url parts) s ≡ record s { current_url = s.current_url ++ concat parts }
callbacks-url [] s =
    ap (λ (u : Bytes). record s { current_url = u }) (sym (append-nil s.current_url))
callbacks-url (part ∷ rest) s =
    callbacks-url rest (callback (url part) s)
    ∙ ap (λ (u : Bytes). record s { current_url = u })
        (append_assoc s.current_url part (concat rest))

callbacks-body :
    (parts : List Bytes) (s : Session)
    → callbacks (map body_data parts) s ≡ record s { current_body = s.current_body ++ concat parts }
callbacks-body [] s =
    ap (λ (u : Bytes). record s { current_body = u }) (sym (append-nil s.current_body))
callbacks-body (part ∷ rest) s =
    callbacks-body rest (callback (body_data part) s)
    ∙ ap (λ (u : Bytes). record s { current_body = u })
        (append_assoc s.current_body part (concat rest))

callbacks-value :
    (parts : List Bytes) (s : Session)
    → s.reading_header_value ≡ true
    → callbacks (map header_value parts) s
      ≡ record s { current_header_value = s.current_header_value ++ concat parts }
callbacks-value [] s h =
    ap (λ (u : Bytes). record s { current_header_value = u })
      (sym (append-nil s.current_header_value))
callbacks-value (part ∷ rest) s h =
    callbacks-value rest (callback (header_value part) s) refl
    ∙ ap₂
        (λ (u : Bytes) (b : Bool). record s { current_header_value = u; reading_header_value = b })
        (append_assoc s.current_header_value part (concat rest)) (sym h)

-- Between two headers, with `headers` so far, and behind the value of a header.
abbrev between : HttpHeaders → Session → Session
between headers b = record b {
  current_headers = headers;
  current_header_field = [];
  current_header_value = [];
  reading_header_value = false;
}

abbrev behind : Bytes → Bytes → HttpHeaders → Session → Session
behind name value headers b = record b {
  current_headers = headers;
  current_header_field = name;
  current_header_value = value;
  reading_header_value = true;
}

abbrev within : Bytes → HttpHeaders → Session → Session
within name headers b = record b {
  current_headers = headers;
  current_header_field = name;
  current_header_value = [];
  reading_header_value = false;
}

leave_value-behind :
    (name value : Bytes) (headers : HttpHeaders) (b : Session)
    → name ≢ []
    → leave_value (behind name value headers b)
      ≡ between (put (lower_ascii name) (trim_copy value) headers) b
leave_value-behind [] value headers b h = absurd (h refl)
leave_value-behind (c ∷ name) value headers b h = refl

callbacks-name :
    (parts : List Bytes) (name : Bytes) (headers : HttpHeaders) (b : Session)
    → callbacks (map header_field parts) (within name headers b)
      ≡ within (name ++ concat parts) headers b
callbacks-name [] name headers b = ap (λ (n : Bytes). within n headers b) (sym (append-nil name))
callbacks-name (part ∷ rest) name headers b =
    callbacks-name rest (name ++ part) headers b
    ∙ ap (λ (n : Bytes). within n headers b) (append_assoc name part (concat rest))

callbacks-header :
    (h : HeaderParts) (rest : List Callback) (headers : HttpHeaders) (b t : Session)
    → leave_value t ≡ between headers b
    → IsNamed h
    → callbacks
        (map header_field h.name_parts
          ++ (header_value h.value_part ∷ map header_value h.value_rest ++ rest))
        t
      ≡ callbacks rest (behind (name_of h) (value_of h) headers b)
callbacks-header h rest headers b t at named =
    callbacks-append (map header_field h.name_parts)
      (header_value h.value_part ∷ map header_value h.value_rest ++ rest) t
    ∙ ap (callbacks (header_value h.value_part ∷ map header_value h.value_rest ++ rest))
        (names h.name_parts named)
    ∙ callbacks-append (map header_value h.value_rest) rest
        (callback (header_value h.value_part) (within (name_of h) headers b))
    ∙ ap (callbacks rest) (
        callbacks-value h.value_rest
          (callback (header_value h.value_part) (within (name_of h) headers b)) refl)
  where
    names :
        (parts : List Bytes)
        → concat parts ≢ []
        → callbacks (map header_field parts) t ≡ within (concat parts) headers b
    names [] k = absurd (k refl)
    names (part ∷ more) k =
        ap
          (λ (u : Session).
            callbacks (map header_field more)
              (record u { current_header_field = u.current_header_field ++ part }))
          at
        ∙ callbacks-name more part headers b

callbacks-headers :
    (hs : List HeaderParts) (headers : HttpHeaders) (b t : Session)
    → leave_value t ≡ between headers b
    → All IsNamed hs
    → leave_value (callbacks (header_calls hs) t) ≡ between (header_table hs headers) b
callbacks-headers [] headers b t at named = at
callbacks-headers (h ∷ hs) headers b t at named =
    ap leave_value (callbacks-header h (header_calls hs) headers b t at named.0)
    ∙ callbacks-headers hs (put (lower_ascii (name_of h)) (trim_copy (value_of h)) headers) b
        (behind (name_of h) (value_of h) headers b)
        (leave_value-behind (name_of h) (value_of h) headers b named.0) named.1

-- Whether the last header has a value or there is none, the end of the headers leaves no header open.
finalize-between :
    (t : Session) (headers : HttpHeaders) (b : Session)
    → leave_value t ≡ between headers b
    → record (finalize_header_if_ready t) { reading_header_value = false } ≡ between headers b
finalize-between t headers b at = elim (Bool-cases t.reading_header_value) [
  | inl e ↦
      sym (
        ap
          (λ x.
            if x then record (finalize_header_if_ready t) { reading_header_value = false } else t)
          e)
      ∙ at
  | inr e ↦
      let same : t ≡ between headers b =
        sym (
          ap
            (λ x.
              if x then record (finalize_header_if_ready t) { reading_header_value = false } else t)
            e)
        ∙ at in
      ap (λ u. record (finalize_header_if_ready u) { reading_header_value = false }) same
]

-- The headers of a message that has begun, when they are complete.
pub headers-finalized :
    (hs : List HeaderParts) (s : Session)
    → All IsNamed hs
    → ((finalize_header_if_ready (callbacks (header_calls hs) (on_message_begin s))).current_headers
        ≡ header_table hs [])
      × ((finalize_header_if_ready (callbacks (header_calls hs) (on_message_begin s))).current_body
          ≡ [])
headers-finalized hs s named =
    let begun = on_message_begin s in
    let closed =
      finalize-between (callbacks (header_calls hs) begun) (header_table hs []) begun
        (callbacks-headers hs [] begun begun refl named) in
    (ap (λ (u : Session). u.current_headers) closed, ap (λ (u : Session). u.current_body) closed)

-- The pending requests after the rest of the calls, from a session behind the headers.
abbrev with_request : Message → Session → List PendingRequest
with_request m u =
    u.pending_requests
    ++ (record {
      request =
          new_request (method_from_llhttp m.method_name) u.current_url u.current_headers
            (u.current_body ++ concat m.body_parts);
      keep_alive = m.should_keep_alive;
    }
        ∷ [])

finished_lem :
    (m : Message) (u : Session)
    → ((callbacks
          (map body_data m.body_parts ++ (message_complete m.should_keep_alive ∷ []))
          (record u { current_method = method_from_llhttp m.method_name })).pending_requests
        ≡ with_request m u)
      × ((callbacks
            (map body_data m.body_parts ++ (message_complete m.should_keep_alive ∷ []))
            (record u { current_method = method_from_llhttp m.method_name })).keep_alive
          ≡ u.keep_alive)
finished_lem m u =
    let named = record u { current_method = method_from_llhttp m.method_name } in
    let last = message_complete m.should_keep_alive ∷ [] in
    let steps =
      callbacks-append (map body_data m.body_parts) last named
      ∙ ap (callbacks last) (callbacks-body m.body_parts named) in
    (ap (λ (s : Session). s.pending_requests) steps, ap (λ (s : Session). s.keep_alive) steps)

-- The calls for a request, from any session and in whatever parts, add that request to the pending ones,
-- with its names in lower case, its values trimmed and the last value of a name kept; every header's name
-- must have a byte.
pub calls-pending_of :
    (m : Message) (s : Session)
    → All IsNamed m.header_parts
    → ((callbacks (calls m) s).pending_requests ≡ s.pending_requests ++ (pending_of m ∷ []))
      × ((callbacks (calls m) s).keep_alive ≡ s.keep_alive)
calls-pending_of m s named =
    let begun = on_message_begin s in
    let base = record begun { current_url = concat m.url_parts } in
    let tail = map body_data m.body_parts ++ (message_complete m.should_keep_alive ∷ []) in
    let last = headers_complete m.method_name ∷ tail in
    let read = callbacks (header_calls m.header_parts) base in
    let steps =
      callbacks-append (map url m.url_parts) (header_calls m.header_parts ++ last) begun
      ∙ ap (callbacks (header_calls m.header_parts ++ last)) (callbacks-url m.url_parts begun)
      ∙ callbacks-append (header_calls m.header_parts) last base in
    let closed =
      finalize-between read (header_table m.header_parts []) base
        (callbacks-headers m.header_parts [] base base refl named) in
    let done = finished_lem m (finalize_header_if_ready read) in
    (
      ap (λ (x : Session). x.pending_requests) steps
          ∙ done.0
          ∙ ap (λ (x : Session). with_request m x) closed,
      ap (λ (x : Session). x.keep_alive) steps ∙ done.1 ∙ ap (λ (x : Session). x.keep_alive) closed,
    )

abbrev pub all_calls : List Message → List Callback
all_calls [] = []
all_calls (m ∷ rest) = calls m ++ all_calls rest

abbrev pub IsNamedAll : Message → Type 0
IsNamedAll m = All IsNamed m.header_parts

-- Several requests on one connection become pending in their order.
pub all_calls-pending_of :
    (ms : List Message) (s : Session)
    → All IsNamedAll ms
    → ((callbacks (all_calls ms) s).pending_requests ≡ s.pending_requests ++ map pending_of ms)
      × ((callbacks (all_calls ms) s).keep_alive ≡ s.keep_alive)
all_calls-pending_of [] s named = (sym (append-nil s.pending_requests), refl)
all_calls-pending_of (m ∷ ms) s named =
    let first = calls-pending_of m s named.0 in
    let rest = all_calls-pending_of ms (callbacks (calls m) s) named.1 in
    let steps = callbacks-append (calls m) (all_calls ms) s in
    (
      ap (λ (x : Session). x.pending_requests) steps
          ∙ rest.0
          ∙ ap (λ (p : List PendingRequest). p ++ map pending_of ms) first.0
          ∙ append_assoc s.pending_requests (pending_of m ∷ []) (map pending_of ms),
      ap (λ (x : Session). x.keep_alive) steps ∙ rest.1 ∙ first.1,
    )
