-- ===== src/Http/Wire.antt =====
-- Writing to a connection: `write_all` of include/faio/detail/net/common/stream_write.hpp, and the loop of
-- `write_response` in include/faio/detail/http/v1/server_session_v1.hpp that writes a header block and a
-- body together. The writes of a connection are numbered, and each is answered by the number of bytes that
-- the kernel took or by an error.
pub mod Delivery
mod Tests
use faio.Base.{
  ℕ, zero, suc, ◌+◌, ◌-◌, Bool, true, false, List, [], ◌∷◌, ◌++◌, Option, none, some, if◌then◌else◌,
  leb, length, take, drop,
}
use faio.Http.Text.{Bytes}

pub data Write : Type 0 where
  written : ℕ → Write
  write_failed : ℕ → Write

pub data WriteError : Type 0 where
  io_error : ℕ → WriteError
  write_zero : WriteError

-- How a series of writes ended: its error, all bytes that the kernel took, and the number of the next write.
pub record Sent : Type 0 where
  pub error : Option WriteError
  pub wire : Bytes
  pub next_write : ℕ

abbrev pub sent : Option WriteError → Bytes → ℕ → Sent
sent error wire next_write = record { error = error; wire = wire; next_write = next_write }

-- The loop of `write_all` on what is left of the buffer; `none` when there are no rounds left.
unfoldable pub write_from : ℕ → (ℕ → Write) → ℕ → Bytes → Bytes → Option Sent
write_from rounds writes i [] wire = some (sent none wire i)
write_from zero writes i (b ∷ buf) wire = none
write_from (suc rounds) writes i (b ∷ buf) wire = elim (writes i) [
  | write_failed e ↦ some (sent (some (io_error e)) wire (suc i))
  | written zero ↦ some (sent (some write_zero) wire (suc i))
  | written (suc n) ↦
      write_from rounds writes (suc i) (drop (suc n) (b ∷ buf)) (wire ++ take (suc n) (b ∷ buf))
]

-- Every round writes a byte at least.
unfoldable pub write_all : (ℕ → Write) → ℕ → Bytes → Bytes → Option Sent
write_all writes i buf wire = write_from (length buf) writes i buf wire

-- What is left of a part of which a write of `n` bytes takes what it can, and the rest of the `n` bytes.
abbrev pub rest_of : ℕ → Bytes → Bytes
rest_of n part = if leb (length part) n then [] else drop n part

abbrev pub left_of : ℕ → Bytes → ℕ
left_of n part = if leb (length part) n then n - length part else 0

-- The loop of `write_response` over the header block and the body.
unfoldable pub write_parts : ℕ → (ℕ → Write) → ℕ → Bytes → Bytes → Bytes → Option Sent
write_parts rounds writes i [] [] wire = some (sent none wire i)
write_parts zero writes i header body wire = none
write_parts (suc rounds) writes i header body wire = elim (writes i) [
  | write_failed e ↦ some (sent (some (io_error e)) wire (suc i))
  | written zero ↦ some (sent (some write_zero) wire (suc i))
  | written (suc n) ↦
      write_parts rounds writes (suc i) (rest_of (suc n) header)
        (rest_of (left_of (suc n) header) body) (wire ++ take (suc n) (header ++ body))
]
