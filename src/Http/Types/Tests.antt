-- ===== src/Http/Types/Tests.antt =====
-- Requests with a query, and the methods.
use faio.Base.{ℕ, ◌≢◌, ◌≡◌, refl, false, [], ◌∷◌, ◌++◌, arith}
use faio.Http.Text.{codes}
use faio.Http.Types.{get, HttpRequest, url_decode, from_hex, parse_query_params_if_needed}
use faio.Http.Types.Encoding.{plainly, as_plus, in_upper, in_lower, IsEncodable}
use faio.Http.Types.Query.{Param, Encodable, encode_query, query_params-encode_query}

-- `q=a+b%26c%2b` and `n=1%3D1`.
abbrev query : Param
query = (
  (b'q', plainly) ∷ [],
  (b'a', plainly)
      ∷ (b' ', as_plus)
      ∷ (b'b', plainly)
      ∷ (b'&', in_upper)
      ∷ (b'c', plainly)
      ∷ (b'+', in_lower)
      ∷ [],
)

abbrev number : Param
number = ((b'n', plainly) ∷ [], (b'1', plainly) ∷ (b'=', in_upper) ∷ (b'1', plainly) ∷ [])

written : encode_query (query ∷ number ∷ []) ≡ codes "q=a+b%26c%2b&n=1%3D1"
written = refl

abbrev request : HttpRequest
request = record {
  method = get;
  path = codes "/find" ++ b'?' ∷ encode_query (query ∷ number ∷ []);
  headers = [];
  body = [];
  route_params = [];
  query_params = [];
  query_parsed = false;
}

decoded : url_decode (codes "a%20b+c%zz") ≡ codes "a b c%zz"
unfolding url_decode from_hex
decoded = refl

itself : (b : ℕ) → b ≢ b'%' → b ≢ b'+' → b ≢ b'&' → b ≢ b'=' → IsEncodable (b, plainly)
itself b h k l m = (h, k, l, m)

query-Encodable : Encodable query
query-Encodable = (
  (itself b'q' (omega arith) (omega arith) (omega arith) (omega arith), tt),
  (
    itself b'a' (omega arith) (omega arith) (omega arith) (omega arith),
    (
      refl,
      (
        itself b'b' (omega arith) (omega arith) (omega arith) (omega arith),
        (
          omega arith,
          (itself b'c' (omega arith) (omega arith) (omega arith) (omega arith), (omega arith, tt)),
        ),
      ),
    ),
  ),
)

number-Encodable : Encodable number
number-Encodable = (
  (itself b'n' (omega arith) (omega arith) (omega arith) (omega arith), tt),
  (
    itself b'1' (omega arith) (omega arith) (omega arith) (omega arith),
    (omega arith, (itself b'1' (omega arith) (omega arith) (omega arith) (omega arith), tt)),
  ),
)

query_params-encode_query_example :
    (parse_query_params_if_needed request).query_params
    ≡ (codes "q", codes "a b&c+") ∷ (codes "n", codes "1=1") ∷ []
query_params-encode_query_example =
    query_params-encode_query request (codes "/find") query (number ∷ []) refl refl refl refl
      (query-Encodable, (number-Encodable, tt))
