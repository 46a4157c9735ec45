-- ===== src/Http/ClientV1/Exchange.antt =====
-- What a client's `request` returns (client_session_v1.hpp).
use faio.Base.{
  ℕ, ◌≡◌, sym, ap, ap₂, ◌∙◌, Bool, true, List, [], ◌∷◌, ◌++◌, some, All, if◌then◌else◌, arith,
  length,
}
use faio.Http.Text.{Bytes}
use faio.Http.Types.{HttpRequest, HttpResponse}
use faio.Http.Wire.{Write, write_all}
use faio.Http.Wire.Delivery.{TakesSome, write_from_all}
use faio.Http.Detect.{Read, data_read, failed}
use faio.Http.SessionV1.Assembly.{IsNamed}
use faio.Http.ClientV1.{
  ClientSession, ClientCallback, callbacks, Reply, replied, faulted, protocol_error, read_loop,
  after_write, request, serialize_request,
}
use faio.Http.ClientV1.Response.{
  ResponseParts, response_of, response_calls, all_new, callbacks-append, callbacks-pending,
  all_new-response_calls,
}

-- The reply is the response, whatever session is left.
abbrev pub Replies : HttpResponse → Reply → Type 0
Replies resp r = (s : ClientSession) × (r ≡ replied resp s)

head_eq : (x resp : HttpResponse) (xs rest : List HttpResponse) → x ∷ xs ≡ resp ∷ rest → x ≡ resp
head_eq x resp xs rest h = ap (λ (l : List HttpResponse). elim l [ [] ↦ x | y ∷ ys ↦ y ]) h

module _ {P : Type 0} (llhttp_execute : Bytes → P → P × List ClientCallback × Bool)
    (llhttp_finish : P → List ClientCallback × Bool) where
  abbrev pub trace : List Read → P → List ClientCallback
  trace [] p = []
  trace (failed e ∷ rest) p = trace rest p
  trace (data_read bytes ∷ rest) p =
      (llhttp_execute bytes p).1 ++ trace rest (llhttp_execute bytes p).0

  abbrev pub IsParsed : List Read → P → Type 0
  IsParsed [] p = Unit
  IsParsed (failed e ∷ rest) p = ⊥
  IsParsed (data_read [] ∷ rest) p = ⊥
  IsParsed (data_read (b ∷ bytes) ∷ rest) p =
      ((llhttp_execute (b ∷ bytes) p).2 ≡ true) × IsParsed rest (llhttp_execute (b ∷ bytes) p).0

  -- The loop replies with the first response that all the reads make.
  read_loop-Replies :
      (reads : List Read) (p : P) (s : ClientSession) (resp : HttpResponse)
      (rest : List HttpResponse)
      → IsParsed reads p
      → (callbacks (trace reads p) s).pending_responses ≡ resp ∷ rest
      → Replies resp (read_loop llhttp_execute llhttp_finish reads p s.pending_responses s)
  read_loop-Replies [] p s resp rest parsed h = (
    record s { pending_responses = rest },
    ap (λ ps. read_loop llhttp_execute llhttp_finish [] p ps s) h,
  )
  read_loop-Replies (failed e ∷ reads) p s resp rest parsed h = absurd parsed
  read_loop-Replies (data_read [] ∷ reads) p s resp rest parsed h = absurd parsed
  read_loop-Replies (data_read (b ∷ bytes) ∷ reads) p s resp rest parsed h =
      let step = llhttp_execute (b ∷ bytes) p in
      let later = trace reads step.0 in
      let fed = callbacks step.1 s in
      go s.pending_responses (sym (callbacks-pending (step.1 ++ later) s) ∙ h) (
        read_loop-Replies reads step.0 fed resp rest parsed.1 (
          ap (λ (u : ClientSession). u.pending_responses) (sym (callbacks-append step.1 later s))
          ∙ h))
    where
      go :
          (ps : List HttpResponse)
          → ps ++ all_new (trace (data_read (b ∷ bytes) ∷ reads) p) s ≡ resp ∷ rest
          → Replies resp (
              read_loop llhttp_execute llhttp_finish reads
                (llhttp_execute (b ∷ bytes) p).0
                (callbacks (llhttp_execute (b ∷ bytes) p).1 s).pending_responses
                (callbacks (llhttp_execute (b ∷ bytes) p).1 s))
          → Replies resp
              (read_loop llhttp_execute llhttp_finish (data_read (b ∷ bytes) ∷ reads) p ps s)
      go [] at more = (
        more.0,
        ap
              (λ (x : Bool).
                if x
                then read_loop llhttp_execute llhttp_finish reads (llhttp_execute (b ∷ bytes) p).0
                    (callbacks (llhttp_execute (b ∷ bytes) p).1 s).pending_responses
                    (callbacks (llhttp_execute (b ∷ bytes) p).1 s)
                else faulted protocol_error)
              parsed.0
            ∙ more.1,
      )
      go (x ∷ xs) at more = (
        record s { pending_responses = xs },
        ap (λ (y : HttpResponse). replied y (record s { pending_responses = xs }))
            (head_eq x resp (xs ++ all_new (trace (data_read (b ∷ bytes) ∷ reads) p) s) rest at),
      )

  -- A client whose request can be written gets the response that the reads carry, however they split it,
  -- with its header names in lower case and its values trimmed. No older response may be pending; the
  -- parser must take the bytes of the reads, its callbacks over all reads must be those of the response,
  -- whose headers have names, and every write must take some bytes.
  pub request-Replies :
      (req : HttpRequest) (writes : ℕ → Write) (reads : List Read) (p : P) (s : ClientSession)
      (m : ResponseParts)
      → ((j : ℕ) → TakesSome (writes j))
      → s.pending_responses ≡ []
      → IsParsed reads p
      → trace reads p ≡ response_calls m
      → All IsNamed m.header_parts
      → (r : Reply) × (request llhttp_execute llhttp_finish req writes reads p s ≡ some r)
        × Replies (response_of m) r
  unfolding request write_all
  request-Replies req writes reads p s m healthy empty parsed at named =
      let text = serialize_request req in
      let one = write_from_all (length text) writes 0 text [] (omega arith) healthy in
      let all : (callbacks (trace reads p) s).pending_responses ≡ response_of m ∷ [] =
        callbacks-pending (trace reads p) s
        ∙ ap₂ ◌++◌ empty (ap (λ cs. all_new cs s) at ∙ all_new-response_calls m s named) in
      (
        read_loop llhttp_execute llhttp_finish reads p s.pending_responses s,
        ap
            (λ o.
              after_write llhttp_execute llhttp_finish o
                (read_loop llhttp_execute llhttp_finish reads p s.pending_responses s))
            one.1,
        read_loop-Replies reads p s (response_of m) [] parsed all,
      )
