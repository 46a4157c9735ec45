-- ===== src/Http/SessionV1/Block/Delivery.antt =====
-- Writing a response (`write_response` of server_session_v1.hpp).
use faio.Base.{
  ℕ, suc, ◌+◌, ◌≤◌, ◌≡◌, sym, ap, ◌∙◌, Bool, false, [], ◌∷◌, ◌++◌, none, some, arith, length,
  length-append, append-nil, if◌then◌else◌, ◌==◌,
}
use faio.Http.Text.{Bytes}
use faio.Http.Types.{HttpResponse}
use faio.Http.Wire.{Write, Sent, sent, write_from, write_all, write_parts}
use faio.Http.Wire.Delivery.{
  write_parts-write_from, write_from-Delivers, write_from_all, TakesSome, IsDelivery,
}
use faio.Http.SessionV1.Block.{header_block, write_response}

-- The text of a response.
abbrev pub rendered : HttpResponse → Bool → Bytes
rendered resp keep_alive = header_block resp keep_alive ++ resp.body

write_response-write_from :
    (resp : HttpResponse) (keep_alive : Bool) (writes : ℕ → Write) (i : ℕ) (wire : Bytes)
    → (rounds : ℕ) × (length (rendered resp keep_alive) ≤ rounds)
      × (write_response resp keep_alive writes i wire
          ≡ write_from rounds writes i (rendered resp keep_alive) wire)
unfolding write_response write_all
write_response-write_from resp keep_alive writes i wire = go resp.body
  where
    go :
        (body : Bytes)
        → (rounds : ℕ) × (length (header_block resp keep_alive ++ body) ≤ rounds)
          × ((if length body == 0
                then write_all writes i (header_block resp keep_alive) wire
                else write_parts
                    (length (header_block resp keep_alive) + length body)
                    writes
                    i
                    (header_block resp keep_alive)
                    body
                    wire)
              ≡ write_from rounds writes i (header_block resp keep_alive ++ body) wire)
    go [] =
        let header = header_block resp keep_alive in
        (
          length header,
          omega (arith, ap (λ (t : Bytes). length t) (append-nil header)),
          ap (λ t. write_from (length header) writes i t wire) (sym (append-nil header)),
        )
    go (b ∷ body) =
        let header = header_block resp keep_alive in
        let rounds = length header + length (b ∷ body) in
        let busy : (suc (length body) == 0) ≡ false = ground arith in
        (
          rounds,
          omega (arith, length-append header (b ∷ body)),
          ap
                (λ x.
                  if x
                  then write_all writes i header wire
                  else write_parts rounds writes i header (b ∷ body) wire)
                busy
              ∙ write_parts-write_from rounds writes i header (b ∷ body) wire,
        )

-- Writing a response ends, behind a number of writes each of which took a byte at least. Either they have
-- taken the header block and the body, which are on the wire in this order and complete; or the next write
-- failed or took nothing, its error is the result, and the wire has got the beginning of the response
-- that the writes before it took.
pub write_response-IsDelivery :
    (resp : HttpResponse) (keep_alive : Bool) (writes : ℕ → Write) (i : ℕ) (wire : Bytes)
    → (s : Sent) × (write_response resp keep_alive writes i wire ≡ some s)
      × IsDelivery writes i (rendered resp keep_alive) wire s
write_response-IsDelivery resp keep_alive writes i wire =
    let one = write_response-write_from resp keep_alive writes i wire in
    let all = write_from-Delivers one.0 writes i (rendered resp keep_alive) wire one.1 in
    (all.0, one.2 ∙ all.1, all.2)

-- On a connection that takes some bytes at every write, the whole response arrives.
pub write_response_all :
    (resp : HttpResponse) (keep_alive : Bool) (writes : ℕ → Write) (i : ℕ) (wire : Bytes)
    → ((j : ℕ) → TakesSome (writes j))
    → (next : ℕ) × (write_response resp keep_alive writes i wire
        ≡ some (sent none (wire ++ rendered resp keep_alive) next))
write_response_all resp keep_alive writes i wire h =
    let one = write_response-write_from resp keep_alive writes i wire in
    let all = write_from_all one.0 writes i (rendered resp keep_alive) wire one.1 h in
    (all.0, one.2 ∙ all.1)
