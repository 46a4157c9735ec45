-- ===== src/Http/SessionV1/Pipeline.antt =====
-- The loops of server_session_v1.hpp: `run` and `consume_pending_requests`. The reads of a connection are
-- a list, those that have come so far; the parser's own functions are parameters.
pub mod Order
use faio.Base.{
  ℕ, zero, suc, ◌+◌, Bool, true, false, List, [], ◌∷◌, ◌++◌, Option, none, some, if◌then◌else◌,
}
use faio.Http.Text.{Bytes}
use faio.Http.Types.{HttpRequest, HttpResponse}
use faio.Http.Router.{Result, returns, throws, HttpHandler}
use faio.Http.Wire.{Write, WriteError, Sent}
use faio.Http.Detect.{Read, data_read, failed}
use faio.Http.SessionV1.{PendingRequest, Session, Callback, callbacks}
use faio.Http.SessionV1.Block.{write_response}

-- Where a session stands: it waits for a read, `run` has returned with the stream closed or not, or an
-- exception has left it.
pub data Phase : Type 0 where
  waiting : Phase
  closed : Phase
  returned : Phase
  left_by : Option Bytes → Phase

-- The session, the bytes on the wire and the number of the next write.
pub record Running : Type 0 where
  pub phase : Phase
  pub session : Session
  pub wire : Bytes
  pub next_write : ℕ

-- How `consume_pending_requests` ends: with no request left, with an error, or with an exception.
pub data Flush : Type 0 where
  flushed : Flush
  flush_failed : WriteError → Flush
  threw : Option Bytes → Flush

pub record Flushed : Type 0 where
  pub end : Flush
  pub session : Session
  pub wire : Bytes
  pub next_write : ℕ

abbrev pub popped : Session → List PendingRequest → Session
popped s rest = record s { pending_requests = rest }

abbrev pub after_write :
    Session → Bool → Option Sent → (Session → Bytes → ℕ → Option Flushed) → Option Flushed
after_write s keep_alive none more = none
after_write s keep_alive (some done) more = elim done.error [
  | none ↦ more (record s { keep_alive = keep_alive }) done.wire done.next_write
  | some e ↦
      some (record {
        end = flush_failed e;
        session = s;
        wire = done.wire;
        next_write = done.next_write;
      })
]

-- `consume_pending_requests` on the requests that are pending.
abbrev pub consume :
    HttpHandler → (ℕ → Write) → List PendingRequest → Session → Bytes → ℕ → Option Flushed
consume handler writes [] s wire i =
    some (record { end = flushed; session = popped s []; wire = wire; next_write = i })
consume handler writes (pending ∷ rest) s wire i = elim (handler pending.request) [
  | throws e ↦ some (record { end = threw e; session = popped s rest; wire = wire; next_write = i })
  | returns response ↦
      after_write (popped s rest) pending.keep_alive
        (write_response response pending.keep_alive writes i wire) (consume handler writes rest)
]

unfoldable pub consume_pending_requests :
    HttpHandler → (ℕ → Write) → Session → Bytes → ℕ → Option Flushed
consume_pending_requests handler writes s wire i =
    consume handler writes s.pending_requests s wire i

module _ {P : Type 0} (llhttp_execute : Bytes → P → P × List Callback × Bool)
    (llhttp_finish : P → List Callback) (handler : HttpHandler) (writes : ℕ → Write) where
  abbrev pub stop : Phase → Flushed → Running
  stop phase f = record {
    phase = phase;
    session = f.session;
    wire = f.wire;
    next_write = f.next_write;
  }

  -- Behind a flush: `run` ends on an error and, in the loop, where the connection is not kept alive.
  abbrev pub after_flush :
      Phase → Option Flushed → (Session → Bytes → ℕ → Option Running) → Option Running
  after_flush ended none more = none
  after_flush ended (some f) more = elim f.end [
    | flushed ↦
        if f.session.keep_alive then more f.session f.wire f.next_write else some (stop ended f)
    | flush_failed e ↦ some (stop ended f)
    | threw e ↦ some (stop (left_by e) f)
  ]

  -- The bytes of a read: the parser's callbacks, and the requests that are complete then.
  abbrev pub on_data :
      Phase
      → Bytes
      → P
      → Session
      → Bytes
      → ℕ
      → (P → Session → Bytes → ℕ → Option Running)
      → Option Running
  on_data ended bytes p s wire i more =
      let parsed = llhttp_execute bytes p in
      let fed = callbacks parsed.1 s in
      if parsed.2
      then after_flush ended (consume_pending_requests handler writes fed wire i) (more parsed.0)
      else some (record { phase = ended; session = fed; wire = wire; next_write = i })

  abbrev pub end_of_file : Option Flushed → Option Running
  end_of_file none = none
  end_of_file (some f) = elim f.end [
    | flushed ↦ some (stop closed f)
    | flush_failed e ↦ some (stop closed f)
    | threw e ↦ some (stop (left_by e) f)
  ]

  -- The main loop of `run`.
  abbrev pub run_reads : List Read → P → Session → Bytes → ℕ → Option Running
  run_reads [] p s wire i =
      some (record { phase = waiting; session = s; wire = wire; next_write = i })
  run_reads (failed e ∷ rest) p s wire i =
      some (record { phase = closed; session = s; wire = wire; next_write = i })
  run_reads (data_read [] ∷ rest) p s wire i =
      end_of_file (consume_pending_requests handler writes (callbacks (llhttp_finish p) s) wire i)
  run_reads (data_read (b ∷ bytes) ∷ rest) p s wire i =
      on_data closed (b ∷ bytes) p s wire i (run_reads rest)

  abbrev pub run : Bytes → List Read → P → Session → Bytes → ℕ → Option Running
  run [] reads p s wire i = run_reads reads p s wire i
  run (b ∷ initial_data) reads p s wire i =
      on_data returned (b ∷ initial_data) p s wire i (run_reads reads)
