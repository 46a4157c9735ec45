-- ===== src/Http/SessionV1/Tests.antt =====
-- A connection with two requests in three reads, on a parser that knows the calls of each read.
use faio.Base.{
  ℕ, zero, suc, ◌≡◌, ◌≢◌, refl, Bool, true, List, [], ◌∷◌, ◌++◌, map, none, some, arith,
}
use faio.Http.Text.{Bytes, codes}
use faio.Http.Types.{HttpRequest, HttpResponse, new_response, with_body}
use faio.Http.Router.{returns, HttpHandler}
use faio.Http.Wire.{Write, written, Sent}
use faio.Http.Wire.Delivery.{IsDelivery}
use faio.Http.Detect.{Read, data_read}
use faio.Http.SessionV1.{new_session, Callback}
use faio.Http.SessionV1.Assembly.{Message, HeaderParts, all_calls, pending_of}
use faio.Http.SessionV1.Block.{header_block, write_response}
use faio.Http.SessionV1.Block.Lines.{lines, block_lines}
use faio.Http.SessionV1.Block.Peer.{lines-header_block}
use faio.Http.SessionV1.Block.Delivery.{rendered, write_response-IsDelivery}
use faio.Http.SessionV1.Pipeline.{run_reads}
use faio.Http.SessionV1.Pipeline.Order.{responses, Answered, run_reads-responses}

abbrev host : HeaderParts
host = record {
  name_parts = codes "Ho" ∷ codes "st" ∷ [];
  value_part = codes " a";
  value_rest = codes "b " ∷ [];
}

abbrev first : Message
first = record {
  method_name = some (codes "POST");
  url_parts = codes "/x" ∷ codes "/y" ∷ [];
  header_parts = host ∷ [];
  body_parts = codes "bo" ∷ codes "dy" ∷ [];
  should_keep_alive = true;
}

abbrev second : Message
second = record {
  method_name = none;
  url_parts = codes "/z" ∷ [];
  header_parts = [];
  body_parts = [];
  should_keep_alive = true;
}

-- The parser's state is the calls that are still to come: 3 for the first read, 5 for the second.
abbrev cut : ℕ → List Callback → List Callback × List Callback
cut zero cs = (cs, [])
cut (suc n) [] = ([], [])
cut (suc n) (c ∷ cs) = let rest = cut n cs in (rest.0, c ∷ rest.1)

abbrev size_of : Bytes → ℕ
size_of [] = 0
size_of (b ∷ bytes) = b

abbrev execute : Bytes → List Callback → List Callback × List Callback × Bool
execute bytes cs = let parts = cut (size_of bytes) cs in (parts.0, parts.1, true)

abbrev finish : List Callback → List Callback
finish cs = []

abbrev reads : List Read
reads = data_read (3 ∷ []) ∷ data_read (9 ∷ []) ∷ data_read (9 ∷ []) ∷ []

abbrev answer : HttpRequest → HttpResponse
answer req = with_body req.path (new_response 200)

abbrev handler : HttpHandler
handler req = returns (answer req)

abbrev by_seven : ℕ → Write
by_seven j = written 7

abbrev response : HttpResponse
response = record {
  status = 404;
  headers = (codes "Connection", codes "close") ∷ [];
  body = codes "none";
}

lines-header_block_example :
    lines (header_block response true) ≡ block_lines response true ++ ([] ∷ [])
lines-header_block_example = lines-header_block response true ((refl, refl), tt)

write_response-IsDelivery_example :
    (s : Sent) × (write_response response true by_seven 0 [] ≡ some s)
    × IsDelivery by_seven 0 (rendered response true) [] s
write_response-IsDelivery_example = write_response-IsDelivery response true by_seven 0 []

run_reads-responses_example : Answered (responses answer (map pending_of (first ∷ second ∷ []))) (
    run_reads execute finish handler by_seven reads
      (all_calls (first ∷ second ∷ []))
      new_session
      []
      0)
run_reads-responses_example =
    run_reads-responses execute finish answer handler (λ req. refl) by_seven (λ j. omega arith)
      (first ∷ second ∷ []) reads (all_calls (first ∷ second ∷ [])) (refl, (refl, (refl, tt))) refl
      ((is_named, tt), (tt, tt)) (refl, (refl, tt))
  where
    is_named : codes "Host" ≢ []
    is_named e = ground (arith, e)
