-- ===== src/Http/Detect.antt =====
-- The class `HttpServer` of include/faio/detail/http/http_server.hpp: which protocol a connection speaks.
-- A read gives bytes (none at the end of the stream) or an error, and the reads of a connection are
-- numbered. The sessions are in the modules beside this one.
pub mod Detection
mod Tests
use Prim.Native.Nat.{min}
use faio.Base.{
  ℕ, zero, suc, ◌+◌, Bool, true, false, List, [], ◌∷◌, ◌++◌, Option, none, some, if◌then◌else◌, ltb,
  length, take,
}
use faio.Http.Text.{Bytes, codes, same}

pub data Read : Type 0 where
  data_read : Bytes → Read
  failed : ℕ → Read

pub data WireProtocol : Type 0 where
  http1 http2 : WireProtocol

-- What `detect_protocol` returns: an error, or the protocol and the bytes that were read.
pub data Outcome : Type 0 where
  error : ℕ → Outcome
  detected : WireProtocol → Bytes → Outcome

abbrev pub preface : Bytes
preface = codes "PRI * HTTP/2.0" ++ (13 ∷ 10 ∷ 13 ∷ 10 ∷ codes "SM" ++ (13 ∷ 10 ∷ 13 ∷ 10 ∷ []))

abbrev pub preface_size : ℕ
preface_size = 24

unfoldable pub is_h2_preface_prefix : Bytes → Bool
is_h2_preface_prefix bytes =
    same (take (min (length bytes) preface_size) bytes)
      (take (min (length bytes) preface_size) preface)

unfoldable pub is_h2_preface_complete : Bytes → Bool
is_h2_preface_complete bytes =
    if ltb (length bytes) preface_size then false else same (take preface_size bytes) preface

-- A round of the loop behind a read that gave bytes: the tests on all bytes so far, and the next rounds.
unfoldable pub classify : Bytes → Option Outcome → Option Outcome
classify initial_data rest =
    if is_h2_preface_prefix initial_data
    then (if is_h2_preface_complete initial_data then some (detected http2 initial_data) else rest)
    else some (detected http1 initial_data)

-- The loop from read `i` on, `none` when there are no rounds left.
unfoldable pub detect_from : ℕ → (ℕ → Read) → ℕ → Bytes → Option Outcome
detect_from zero reads i initial_data = none
detect_from (suc rounds) reads i initial_data =
    if ltb (length initial_data) preface_size
    then elim (reads i) [
      | failed e ↦ some (error e)
      | data_read [] ↦ some (detected http1 initial_data)
      | data_read (b ∷ bytes) ↦
          classify (initial_data ++ (b ∷ bytes))
            (detect_from rounds reads (suc i) (initial_data ++ (b ∷ bytes)))
    ]
    else some (detected http1 initial_data)

-- Every round reads a byte at least, so that a round more than the preface has bytes is enough.
unfoldable pub detect_protocol : (ℕ → Read) → Option Outcome
detect_protocol reads = detect_from (suc preface_size) reads 0 []

-- What becomes of the connection: it is closed, or a session runs on the bytes that were read.
pub data Connection : Type 0 where
  closed : Connection
  session_v1 : Bytes → Connection
  session_v2 : Bytes → Connection

-- `initialized`: that `Http2ServerSession::initialize` succeeds.
unfoldable pub handle_connection : Bool → Outcome → Connection
handle_connection initialized (error e) = closed
handle_connection initialized (detected protocol []) = closed
handle_connection initialized (detected http2 (b ∷ bytes)) =
    if initialized then session_v2 (b ∷ bytes) else closed
handle_connection initialized (detected http1 (b ∷ bytes)) = session_v1 (b ∷ bytes)
