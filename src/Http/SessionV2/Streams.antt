-- ===== src/Http/SessionV2/Streams.antt =====
-- The streams of a connection do not mix (the server's callbacks of session_callbacks.hpp): the state is
-- that of one independent machine for each stream.
use faio.Base.{
  ℕ, ◌≡◌, refl, sym, ap, ap₂, ◌∙◌, Bool, true, false, ◌&&◌, List, [], ◌∷◌, ◌++◌, Option, none, some,
  inl, inr, Bool-cases, append-nil, append_assoc, if◌then◌else◌, ◌==◌, ==→eq, ==_refl,
}
use faio.Http.Types.{HttpRequest, new_request}
use faio.Http.SessionV2.{
  StreamRequest, ServerSessionState, new_stream, Call, begin_headers, header_field, headers_frame,
  data_frame, data_chunk, or_new, store, ensure, add_field, append_body, completed, body_ended,
  push_if, on_headers_frame, on_data_frame, callback, callbacks,
}

-- What a call does to the slot of its own stream, and the requests that it completes.
abbrev pub next_slot : Call → Option StreamRequest → Option StreamRequest
next_slot begin_headers slot = some (or_new slot)
next_slot (header_field name value) slot = some (add_field name value (or_new slot))
next_slot (headers_frame end_headers end_stream) none = none
next_slot (headers_frame end_headers end_stream) (some r) =
    some (completed (end_headers && end_stream) r)
next_slot (data_frame true) (some r) = some (body_ended r)
next_slot (data_frame true) none = none
next_slot (data_frame false) slot = slot
next_slot (data_chunk bytes) slot = some (append_body bytes (or_new slot))

abbrev pub request_of : StreamRequest → HttpRequest
request_of r = new_request r.method r.path r.headers r.body

abbrev pub when : Bool → StreamRequest → List HttpRequest
when b r = if b then request_of r ∷ [] else []

abbrev pub completes : Call → Option StreamRequest → List HttpRequest
completes (headers_frame end_headers end_stream) (some r) =
    when (end_headers && end_stream) (completed (end_headers && end_stream) r)
completes (data_frame true) (some r) = when r.headers_complete (body_ended r)
completes (headers_frame end_headers end_stream) none = []
completes (data_frame true) none = []
completes (data_frame false) slot = []
completes begin_headers slot = []
completes (header_field name value) slot = []
completes (data_chunk bytes) slot = []

-- All requests that the calls for one stream complete.
abbrev pub stream_requests : List Call → Option StreamRequest → List HttpRequest
stream_requests [] slot = []
stream_requests (c ∷ rest) slot = completes c slot ++ stream_requests rest (next_slot c slot)

-- The calls for a stream, and the pending requests of a stream.
abbrev pub calls_of : ℕ → List (ℕ × Call) → List Call
calls_of stream_id [] = []
calls_of stream_id ((j, c) ∷ rest) =
    let more = calls_of stream_id rest in if j == stream_id then c ∷ more else more

abbrev pub requests_of : ℕ → List (ℕ × HttpRequest) → List HttpRequest
requests_of stream_id [] = []
requests_of stream_id ((j, r) ∷ rest) =
    let more = requests_of stream_id rest in if j == stream_id then r ∷ more else more

requests_of-append :
    (stream_id : ℕ) (ps qs : List (ℕ × HttpRequest))
    → requests_of stream_id (ps ++ qs) ≡ requests_of stream_id ps ++ requests_of stream_id qs
requests_of-append stream_id [] qs = refl
requests_of-append stream_id ((j, r) ∷ ps) qs = elim (Bool-cases (j == stream_id)) [
  | inl e ↦ rw e (ap (◌∷◌ r) (requests_of-append stream_id ps qs))
  | inr e ↦ rw e (requests_of-append stream_id ps qs)
]

module _ (j : ℕ) where
  push_if-requests :
      (b : Bool) (r : StreamRequest) (s : ServerSessionState) (stream_id : ℕ)
      → (push_if b j r s).requests stream_id ≡ s.requests stream_id
  push_if-requests true r s stream_id = refl
  push_if-requests false r s stream_id = refl

  store_own : (r : StreamRequest) (s : ServerSessionState) → (store j r s).requests j ≡ some r
  store_own r s = ap (λ b. if b then some r else s.requests j) (==_refl j)

  -- The slot of the stream that a call is for.
  ensure_own :
      (slot : Option StreamRequest) (s : ServerSessionState)
      → s.requests j ≡ slot
      → (ensure j slot s).requests j ≡ some (or_new slot)
  ensure_own none s at = store_own new_stream s
  ensure_own (some r) s at = at

  headers_own :
      (slot : Option StreamRequest) (s : ServerSessionState) (end_headers end_stream : Bool)
      → s.requests j ≡ slot
      → (on_headers_frame j (end_headers && end_stream) slot s).requests j
        ≡ next_slot (headers_frame end_headers end_stream) slot
  headers_own none s end_headers end_stream at = at
  headers_own (some r) s end_headers end_stream at =
      let done = completed (end_headers && end_stream) r in
      push_if-requests (end_headers && end_stream) done (store j done s) j ∙ store_own done s

  data_own :
      (end_stream : Bool) (slot : Option StreamRequest) (s : ServerSessionState)
      → s.requests j ≡ slot
      → (on_data_frame j end_stream slot s).requests j ≡ next_slot (data_frame end_stream) slot
  data_own false slot s at = at
  data_own true none s at = at
  data_own true (some r) s at =
      push_if-requests r.headers_complete (body_ended r) (store j (body_ended r) s) j
      ∙ store_own (body_ended r) s

  callback_own :
      (c : Call) (s : ServerSessionState) → (callback j c s).requests j ≡ next_slot c (s.requests j)
  callback_own begin_headers s = ensure_own (s.requests j) (record s { current_stream_id = j }) refl
  callback_own (header_field name value) s = store_own _ s
  callback_own (headers_frame end_headers end_stream) s =
      headers_own (s.requests j) s end_headers end_stream refl
  callback_own (data_frame end_stream) s = data_own end_stream (s.requests j) s refl
  callback_own (data_chunk bytes) s = store_own _ s

  -- The requests of the stream that a call is for.
  push_own :
      (b : Bool) (r : StreamRequest) (s : ServerSessionState)
      → requests_of j (push_if b j r s).pending_requests
        ≡ requests_of j s.pending_requests ++ when b r
  push_own false r s = sym (append-nil (requests_of j s.pending_requests))
  push_own true r s =
      requests_of-append j s.pending_requests ((j, request_of r) ∷ [])
      ∙ ap (λ b. requests_of j s.pending_requests ++ (if b then request_of r ∷ [] else []))
          (==_refl j)

  pending_none :
      (s : ServerSessionState)
      → requests_of j s.pending_requests ≡ requests_of j s.pending_requests ++ []
  pending_none s = sym (append-nil (requests_of j s.pending_requests))

  pending_own :
      (c : Call) (s : ServerSessionState)
      → requests_of j (callback j c s).pending_requests
        ≡ requests_of j s.pending_requests ++ completes c (s.requests j)
  pending_own begin_headers s = go (s.requests j)
    where
      go :
          (slot : Option StreamRequest)
          → requests_of j (ensure j slot (record s { current_stream_id = j })).pending_requests
            ≡ requests_of j s.pending_requests ++ []
      go none = sym (append-nil (requests_of j s.pending_requests))
      go (some r) = sym (append-nil (requests_of j s.pending_requests))
  pending_own (header_field name value) s = pending_none s
  pending_own (headers_frame end_headers end_stream) s = go (s.requests j)
    where
      go :
          (slot : Option StreamRequest)
          → requests_of j (on_headers_frame j (end_headers && end_stream) slot s).pending_requests
            ≡ requests_of j s.pending_requests
              ++ completes (headers_frame end_headers end_stream) slot
      go none = pending_none s
      go (some r) =
          let done = completed (end_headers && end_stream) r in
          push_own (end_headers && end_stream) done (store j done s)
  pending_own (data_frame end_stream) s = go end_stream (s.requests j)
    where
      go :
          (ends : Bool) (slot : Option StreamRequest)
          → requests_of j (on_data_frame j ends slot s).pending_requests
            ≡ requests_of j s.pending_requests ++ completes (data_frame ends) slot
      go false slot = pending_none s
      go true none = pending_none s
      go true (some r) = push_own r.headers_complete (body_ended r) (store j (body_ended r) s)
  pending_own (data_chunk bytes) s = pending_none s

-- The slot and the requests of another stream.
module _ (j stream_id : ℕ) (other : (j == stream_id) ≡ false) where
  store_other :
      (r : StreamRequest) (s : ServerSessionState)
      → (store j r s).requests stream_id ≡ s.requests stream_id
  store_other r s = ap (λ b. if b then some r else s.requests stream_id) other

  push_other :
      (b : Bool) (r : StreamRequest) (s : ServerSessionState)
      → requests_of stream_id (push_if b j r s).pending_requests
        ≡ requests_of stream_id s.pending_requests
  push_other false r s = refl
  push_other true r s =
      requests_of-append stream_id s.pending_requests ((j, request_of r) ∷ [])
      ∙ ap (λ b. requests_of stream_id s.pending_requests ++ (if b then request_of r ∷ [] else []))
          other
      ∙ append-nil (requests_of stream_id s.pending_requests)

  abbrev Untouched : ServerSessionState → ServerSessionState → Type 0
  Untouched t s =
      (t.requests stream_id ≡ s.requests stream_id)
      × (requests_of stream_id t.pending_requests ≡ requests_of stream_id s.pending_requests)

  callback_other : (c : Call) (s : ServerSessionState) → Untouched (callback j c s) s
  callback_other begin_headers s = go (s.requests j)
    where
      go :
          (slot : Option StreamRequest)
          → Untouched (ensure j slot (record s { current_stream_id = j })) s
      go none = (store_other new_stream s, refl)
      go (some r) = (refl, refl)
  callback_other (header_field name value) s = (store_other _ s, refl)
  callback_other (headers_frame end_headers end_stream) s = go (s.requests j)
    where
      go :
          (slot : Option StreamRequest)
          → Untouched (on_headers_frame j (end_headers && end_stream) slot s) s
      go none = (refl, refl)
      go (some r) =
          let done = completed (end_headers && end_stream) r in
          (
            push_if-requests j (end_headers && end_stream) done (store j done s) stream_id
                ∙ store_other done s,
            push_other (end_headers && end_stream) done (store j done s),
          )
  callback_other (data_frame end_stream) s = go end_stream (s.requests j)
    where
      go : (ends : Bool) (slot : Option StreamRequest) → Untouched (on_data_frame j ends slot s) s
      go false slot = (refl, refl)
      go true none = (refl, refl)
      go true (some r) = (
        push_if-requests j r.headers_complete (body_ended r) (store j (body_ended r) s) stream_id
            ∙ store_other (body_ended r) s,
        push_other r.headers_complete (body_ended r) (store j (body_ended r) s),
      )
  callback_other (data_chunk bytes) s = (store_other _ s, refl)

-- Whatever calls of the callbacks a connection sees, the requests that become pending for a stream are
-- those that the stream's own calls complete, in order: calls for other streams between them change
-- nothing.
pub callbacks-stream_requests :
    (calls : List (ℕ × Call)) (s : ServerSessionState) (stream_id : ℕ)
    → requests_of stream_id (callbacks calls s).pending_requests
      ≡ requests_of stream_id s.pending_requests
        ++ stream_requests (calls_of stream_id calls) (s.requests stream_id)
callbacks-stream_requests [] s stream_id = pending_none stream_id s
callbacks-stream_requests ((j, c) ∷ rest) s stream_id =
    callbacks-stream_requests rest (callback j c s) stream_id ∙ elim (Bool-cases (j == stream_id)) [
      | inl e ↦ own e
      | inr e ↦
          let same = callback_other j stream_id e c s in
          ap₂ (λ ps slot. ps ++ stream_requests (calls_of stream_id rest) slot) same.1 same.0
          ∙ ap
              (λ b.
                requests_of stream_id s.pending_requests
                ++ stream_requests
                    (if b then c ∷ calls_of stream_id rest else calls_of stream_id rest)
                    (s.requests stream_id))
              (sym e)
    ]
  where
    own :
        (j == stream_id) ≡ true
        → requests_of stream_id (callback j c s).pending_requests
            ++ stream_requests (calls_of stream_id rest) ((callback j c s).requests stream_id)
          ≡ requests_of stream_id s.pending_requests
            ++ stream_requests (calls_of stream_id ((j, c) ∷ rest)) (s.requests stream_id)
    own e =
        let at = ==→eq j stream_id e in
        ap
          (λ k.
            requests_of stream_id (callback k c s).pending_requests
            ++ stream_requests (calls_of stream_id rest) ((callback k c s).requests stream_id))
          at
        ∙ ap₂ (λ ps slot. ps ++ stream_requests (calls_of stream_id rest) slot)
            (pending_own stream_id c s) (callback_own stream_id c s)
        ∙ append_assoc (requests_of stream_id s.pending_requests)
            (completes c (s.requests stream_id))
            (stream_requests (calls_of stream_id rest) (next_slot c (s.requests stream_id)))
        ∙ ap
            (λ b.
              requests_of stream_id s.pending_requests
              ++ stream_requests
                  (if b then c ∷ calls_of stream_id rest else calls_of stream_id rest)
                  (s.requests stream_id))
            (sym e)
