-- ===== src/Http/SessionV1/Pipeline/Order.antt =====
-- The responses of a connection (`run` and `consume_pending_requests` of server_session_v1.hpp): every
-- request is answered, in order, however its bytes are split into reads.
use faio.Base.{
  ℕ, ◌≡◌, refl, sym, ap, ap₂, subst, ◌∙◌, Bool, true, false, List, [], ◌∷◌, ◌++◌, map, Option, some,
  All, append-nil, append_assoc, if◌then◌else◌,
}
use faio.Http.Text.{Bytes}
use faio.Http.Types.{HttpRequest, HttpResponse}
use faio.Http.Router.{Result, returns, throws, HttpHandler}
use faio.Http.Wire.{Write}
use faio.Http.Wire.Delivery.{TakesSome}
use faio.Http.Detect.{Read, data_read, failed}
use faio.Http.SessionV1.{
  PendingRequest, Session, new_session, Callback, message_begin, url, header_field, header_value,
  headers_complete, body_data, message_complete, finalize_as, method_from_llhttp,
  finalize_header_if_ready, leave_value, callback, callbacks,
}
use faio.Http.SessionV1.Block.{write_response}
use faio.Http.SessionV1.Block.Delivery.{rendered, write_response_all}
use faio.Http.SessionV1.Assembly.{
  Message, all_calls, pending_of, IsNamedAll, callbacks-append, all_calls-pending_of,
}
use faio.Http.SessionV1.Pipeline.{
  waiting, closed, Running, flushed, threw, Flushed, popped, after_write, consume,
  consume_pending_requests, stop, after_flush, run_reads,
}

-- The responses to some requests, one behind the other.
abbrev pub responses : (HttpRequest → HttpResponse) → List PendingRequest → Bytes
responses respond [] = []
responses respond (p ∷ rest) = rendered (respond p.request) p.keep_alive ++ responses respond rest

responses-append :
    (respond : HttpRequest → HttpResponse) (ps qs : List PendingRequest)
    → responses respond (ps ++ qs) ≡ responses respond ps ++ responses respond qs
responses-append respond [] qs = refl
responses-append respond (p ∷ ps) qs =
    ap (λ t. rendered (respond p.request) p.keep_alive ++ t) (responses-append respond ps qs)
    ∙ sym (
        append_assoc (rendered (respond p.request) p.keep_alive) (responses respond ps)
          (responses respond qs))

abbrev pub IsKept : PendingRequest → Type 0
IsKept p = p.keep_alive ≡ true

All-left : (ps qs : List PendingRequest) → All IsKept (ps ++ qs) → All IsKept ps
All-left [] qs h = tt
All-left (p ∷ ps) qs h = (h.0, All-left ps qs h.1)

All-right : (ps qs : List PendingRequest) → All IsKept (ps ++ qs) → All IsKept qs
All-right [] qs h = h
All-right (p ∷ ps) qs h = All-right ps qs h.1

-- The callbacks only add to the pending requests, and do nothing else with them.
abbrev shift : List PendingRequest → Session → Session
shift q s = record s { pending_requests = q ++ s.pending_requests }

finalize_as-shift :
    (field : Bytes) (q : List PendingRequest) (s : Session)
    → finalize_as field (shift q s) ≡ shift q (finalize_as field s)
finalize_as-shift [] q s = refl
finalize_as-shift (c ∷ field) q s = refl

leave_value-shift :
    (q : List PendingRequest) (s : Session) → leave_value (shift q s) ≡ shift q (leave_value s)
leave_value-shift q s = go s.reading_header_value
  where
    go :
        (b : Bool)
        → (if b
            then record (finalize_header_if_ready (shift q s)) { reading_header_value = false }
            else shift q s)
          ≡ shift q (
              if b then record (finalize_header_if_ready s) { reading_header_value = false } else s)
    go true =
        ap (λ (u : Session). record u { reading_header_value = false })
          (finalize_as-shift s.current_header_field q s)
    go false = refl

callback-shift :
    (c : Callback) (q : List PendingRequest) (s : Session)
    → callback c (shift q s) ≡ shift q (callback c s)
callback-shift message_begin q s = refl
callback-shift (url at) q s = refl
callback-shift (header_field at) q s =
    ap (λ (u : Session). record u { current_header_field = u.current_header_field ++ at })
      (leave_value-shift q s)
callback-shift (header_value at) q s = refl
callback-shift (headers_complete name) q s =
    ap (λ (u : Session). record u { current_method = method_from_llhttp name })
      (finalize_as-shift s.current_header_field q s)
callback-shift (body_data at) q s = refl
callback-shift (message_complete kept) q s =
    ap
      (λ (ps : List PendingRequest). record (callback (message_complete kept) s) {
        pending_requests = ps;
      })
      (append_assoc q s.pending_requests _)

callbacks-shift :
    (cs : List Callback) (q : List PendingRequest) (s : Session)
    → callbacks cs (shift q s) ≡ shift q (callbacks cs s)
callbacks-shift [] q s = refl
callbacks-shift (c ∷ cs) q s =
    ap (callbacks cs) (callback-shift c q s) ∙ callbacks-shift cs q (callback c s)

finalize_as-keep_alive :
    (field : Bytes) (s : Session) → (finalize_as field s).keep_alive ≡ s.keep_alive
finalize_as-keep_alive [] s = refl
finalize_as-keep_alive (c ∷ field) s = refl

callback-keep_alive : (c : Callback) (s : Session) → (callback c s).keep_alive ≡ s.keep_alive
callback-keep_alive message_begin s = refl
callback-keep_alive (url at) s = refl
callback-keep_alive (header_field at) s = go s.reading_header_value
  where
    go :
        (b : Bool)
        → (if b
            then record (finalize_header_if_ready s) { reading_header_value = false }
            else s).keep_alive
          ≡ s.keep_alive
    go true = finalize_as-keep_alive s.current_header_field s
    go false = refl
callback-keep_alive (header_value at) s = refl
callback-keep_alive (headers_complete name) s = finalize_as-keep_alive s.current_header_field s
callback-keep_alive (body_data at) s = refl
callback-keep_alive (message_complete kept) s = refl

callbacks-keep_alive :
    (cs : List Callback) (s : Session) → (callbacks cs s).keep_alive ≡ s.keep_alive
callbacks-keep_alive [] s = refl
callbacks-keep_alive (c ∷ cs) s = callbacks-keep_alive cs (callback c s) ∙ callback-keep_alive c s

-- The requests of a session that are pending when its own were answered before.
pending-popped :
    (cs : List Callback) (s : Session)
    → (callbacks cs s).pending_requests
      ≡ s.pending_requests ++ (callbacks cs (popped s [])).pending_requests
pending-popped cs s =
    ap (λ (ps : List PendingRequest). (callbacks cs (popped s ps)).pending_requests)
      (sym (append-nil s.pending_requests))
    ∙ ap (λ (u : Session). u.pending_requests) (callbacks-shift cs s.pending_requests (popped s []))

abbrev done : Session → Bytes → ℕ → Flushed
done s wire next = record { end = flushed; session = popped s []; wire = wire; next_write = next }

module _ (respond : HttpRequest → HttpResponse) (handler : HttpHandler)
    (answers : (req : HttpRequest) → handler req ≡ returns (respond req)) (writes : ℕ → Write)
    (healthy : (j : ℕ) → TakesSome (writes j)) where
  consume_lem :
      (ps : List PendingRequest) (s : Session) (wire : Bytes) (i : ℕ)
      → All IsKept ps
      → s.keep_alive ≡ true
      → (next : ℕ) × (consume handler writes ps s wire i
          ≡ some (done s (wire ++ responses respond ps) next))
  consume_lem [] s wire i kept alive =
      (i, ap (λ (w : Bytes). some (done s w i)) (sym (append-nil wire)))
  consume_lem (p ∷ ps) s wire i kept alive =
      let text = rendered (respond p.request) p.keep_alive in
      let one = write_response_all (respond p.request) p.keep_alive writes i wire healthy in
      let next_session = record s { keep_alive = p.keep_alive; pending_requests = ps } in
      let rest = consume_lem ps next_session (wire ++ text) one.0 kept.1 kept.0 in
      (
        rest.0,
        ap
              (λ (r : Result HttpResponse). elim r [
                | throws e ↦
                    some
                      (record { end = threw e; session = popped s ps; wire = wire; next_write = i })
                | returns response ↦
                    after_write (popped s ps) p.keep_alive
                      (write_response response p.keep_alive writes i wire)
                      (consume handler writes ps)
              ])
              (answers p.request)
            ∙ ap (λ o. after_write (popped s ps) p.keep_alive o (consume handler writes ps)) one.1
            ∙ rest.1
            ∙ ap₂ (λ (k : Bool) (w : Bytes). some (done (record s { keep_alive = k }) w rest.0))
                (kept.0 ∙ sym alive) (append_assoc wire text (responses respond ps)),
      )

-- The session waits for more, with these bytes on the wire.
abbrev pub Answered : Bytes → Option Running → Type 0
Answered wire o = (r : Running) × (o ≡ some r) × (r.phase ≡ waiting) × (r.wire ≡ wire)

module _ {P : Type 0} (llhttp_execute : Bytes → P → P × List Callback × Bool)
    (llhttp_finish : P → List Callback) where
  -- The callbacks of some reads, and that the parser takes all their bytes.
  abbrev pub trace : List Read → P → List Callback
  trace [] p = []
  trace (failed e ∷ rest) p = trace rest p
  trace (data_read bytes ∷ rest) p =
      (llhttp_execute bytes p).1 ++ trace rest (llhttp_execute bytes p).0

  abbrev pub IsParsed : List Read → P → Type 0
  IsParsed [] p = Unit
  IsParsed (failed e ∷ rest) p = ⊥
  IsParsed (data_read [] ∷ rest) p = ⊥
  IsParsed (data_read (b ∷ bytes) ∷ rest) p =
      ((llhttp_execute (b ∷ bytes) p).2 ≡ true) × IsParsed rest (llhttp_execute (b ∷ bytes) p).0

  module _ (respond : HttpRequest → HttpResponse) (handler : HttpHandler)
      (answers : (req : HttpRequest) → handler req ≡ returns (respond req)) (writes : ℕ → Write)
      (healthy : (j : ℕ) → TakesSome (writes j)) where
    run_reads_lem :
        (reads : List Read) (p : P) (s : Session) (wire : Bytes) (i : ℕ)
        → s.pending_requests ≡ []
        → s.keep_alive ≡ true
        → IsParsed reads p
        → All IsKept (callbacks (trace reads p) s).pending_requests
        → Answered
            (wire ++ responses respond (callbacks (trace reads p) s).pending_requests)
            (run_reads llhttp_execute llhttp_finish handler writes reads p s wire i)
    unfolding consume_pending_requests
    run_reads_lem [] p s wire i empty alive parsed kept = (
      record { phase = waiting; session = s; wire = wire; next_write = i },
      refl,
      refl,
      sym (append-nil wire) ∙ ap (λ ps. wire ++ responses respond ps) (sym empty),
    )
    run_reads_lem (failed e ∷ rest) p s wire i empty alive parsed kept = absurd parsed
    run_reads_lem (data_read [] ∷ rest) p s wire i empty alive parsed kept = absurd parsed
    run_reads_lem (data_read (b ∷ bytes) ∷ rest) p s wire i empty alive parsed kept =
        let step = llhttp_execute (b ∷ bytes) p in
        let later = trace rest step.0 in
        let fed = callbacks step.1 s in
        let first = fed.pending_requests in
        let fed_alive = callbacks-keep_alive step.1 s ∙ alive in
        let all : (callbacks (trace (data_read (b ∷ bytes) ∷ rest) p) s).pending_requests
            ≡ first ++ (callbacks later (popped fed [])).pending_requests =
          ap (λ (u : Session). u.pending_requests) (callbacks-append step.1 later s)
          ∙ pending-popped later fed in
        let kept_all = subst (All IsKept) all kept in
        let flush =
          consume_lem respond handler answers writes healthy first fed wire i
            (All-left first (callbacks later (popped fed [])).pending_requests kept_all)
            fed_alive in
        let answered = wire ++ responses respond first in
        let more =
          run_reads_lem rest step.0 (popped fed []) answered flush.0 refl fed_alive parsed.1
            (All-right first (callbacks later (popped fed [])).pending_requests kept_all) in
        let loop = run_reads llhttp_execute llhttp_finish handler writes rest step.0 in
        let go_on = after_flush llhttp_execute llhttp_finish handler writes closed in
        let ended = stop llhttp_execute llhttp_finish handler writes closed in
        (
          more.0,
          ap
                (λ (x : Bool).
                  if x
                  then go_on (consume handler writes first fed wire i) loop
                  else some (record { phase = closed; session = fed; wire = wire; next_write = i }))
                parsed.0
              ∙ ap (λ o. go_on o loop) flush.1
              ∙ ap
                  (λ (x : Bool).
                    if x
                    then loop (popped fed []) answered flush.0
                    else some (ended (done fed answered flush.0)))
                  fed_alive
              ∙ more.1,
          more.2,
          more.3
              ∙ append_assoc wire (responses respond first)
                  (responses respond (callbacks later (popped fed [])).pending_requests)
              ∙ ap (λ t. wire ++ t)
                  (sym (
                    responses-append respond first
                      (callbacks later (popped fed [])).pending_requests))
              ∙ ap (λ ps. wire ++ responses respond ps) (sym all),
        )

    All-IsKept :
        (ms : List Message)
        → All (λ (m : Message). m.should_keep_alive ≡ true) ms
        → All IsKept (map pending_of ms)
    All-IsKept [] h = tt
    All-IsKept (m ∷ ms) h = (h.0, All-IsKept ms h.1)

    -- Requests that arrive in any number of reads, each split anywhere and several in one read, are all
    -- answered, and the wire holds the responses to them in their order and nothing else. The reads must give
    -- bytes that the parser takes, the parser's callbacks over all reads must be those of the requests, which
    -- keep the connection alive and name their headers; the handler must return a response and every write
    -- take some bytes.
    pub run_reads-responses :
        (ms : List Message) (reads : List Read) (p : P)
        → IsParsed reads p
        → trace reads p ≡ all_calls ms
        → All IsNamedAll ms
        → All (λ (m : Message). m.should_keep_alive ≡ true) ms
        → Answered
            (responses respond (map pending_of ms))
            (run_reads llhttp_execute llhttp_finish handler writes reads p new_session [] 0)
    run_reads-responses ms reads p parsed at named kept =
        let pending : (callbacks (trace reads p) new_session).pending_requests ≡ map pending_of ms =
          ap (λ cs. (callbacks cs new_session).pending_requests) at
          ∙ (all_calls-pending_of ms new_session named).0 in
        let run =
          run_reads_lem reads p new_session [] 0 refl refl parsed
            (subst (All IsKept) (sym pending) (All-IsKept ms kept)) in
        (run.0, run.1, run.2, run.3 ∙ ap (responses respond) pending)
