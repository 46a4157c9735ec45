-- ===== src/Http/ClientV1/Tests.antt =====
-- A response in two reads, on a parser whose state is the calls that are still to come.
use faio.Base.{ℕ, zero, suc, ◌≡◌, ◌≢◌, refl, Bool, true, false, List, [], ◌∷◌, ◌++◌, some, arith}
use faio.Http.Text.{Bytes, codes}
use faio.Http.Types.{HttpRequest, get, http_method_to_string}
use faio.Http.Wire.{Write, written}
use faio.Http.Detect.{Read, data_read}
use faio.Http.SessionV1.Assembly.{HeaderParts}
use faio.Http.SessionV1.Block.{crlf}
use faio.Http.ClientV1.{ClientSession, ClientCallback, Reply, request, serialize_request}
use faio.Http.ClientV1.Response.{ResponseParts, response_of, response_calls}
use faio.Http.ClientV1.Exchange.{Replies, request-Replies}

abbrev kind : HeaderParts
kind = record {
  name_parts = codes "Content" ∷ codes "-Type" ∷ [];
  value_part = codes " text";
  value_rest = codes "/plain" ∷ [];
}

abbrev answer : ResponseParts
answer = record {
  status = 201;
  header_parts = kind ∷ [];
  body_parts = codes "do" ∷ codes "ne" ∷ [];
}

-- The first byte of a read says how many calls it makes.
abbrev cut : ℕ → List ClientCallback → List ClientCallback × List ClientCallback
cut zero cs = (cs, [])
cut (suc n) [] = ([], [])
cut (suc n) (c ∷ cs) = let rest = cut n cs in (rest.0, c ∷ rest.1)

abbrev execute : Bytes → List ClientCallback → List ClientCallback × List ClientCallback × Bool
execute [] cs = (cs, [], true)
execute (b ∷ bytes) cs = let parts = cut b cs in (parts.0, parts.1, true)

abbrev finish : List ClientCallback → List ClientCallback × Bool
finish cs = ([], true)

abbrev new_client : ClientSession
new_client = record {
  current_status = 200;
  current_headers = [];
  current_body = [];
  current_header_field = [];
  current_header_value = [];
  reading_header_value = false;
  pending_responses = [];
}

abbrev asked : HttpRequest
asked = record {
  method = get;
  path = [];
  headers = (codes "Host", codes "a") ∷ [];
  body = codes "xy";
  route_params = [];
  query_params = [];
  query_parsed = false;
}

abbrev reads : List Read
reads = data_read (4 ∷ []) ∷ data_read (9 ∷ []) ∷ []

abbrev by_nine : ℕ → Write
by_nine j = written 9

serialized :
    serialize_request asked
    ≡ codes "GET / HTTP/1.1"
      ++ crlf
      ++ codes "Host: a"
      ++ crlf
      ++ codes "connection: keep-alive"
      ++ crlf
      ++ codes "content-length: 2"
      ++ crlf
      ++ crlf
      ++ codes "xy"
unfolding serialize_request http_method_to_string
serialized = refl

request-Replies_example :
    (r : Reply) × (request execute finish asked by_nine reads (response_calls answer) new_client
      ≡ some r)
    × Replies (response_of answer) r
request-Replies_example =
    request-Replies execute finish asked by_nine reads (response_calls answer) new_client answer
      (λ j. omega arith) refl (refl, (refl, tt)) refl (is_named, tt)
  where
    is_named : codes "Content-Type" ≢ []
    is_named e = ground (arith, e)
