-- ===== src/Http/Types.antt =====
-- include/faio/detail/http/types.hpp: methods, requests with their query, and responses. A status is a
-- natural number.
pub mod Methods
pub mod Encoding
pub mod Query
mod Tests
use faio.Base.{
  ℕ, zero, suc, ◌+◌, ◌-◌, ◌*◌, Bool, true, false, ◌&&◌, List, [], ◌∷◌, ◌++◌, Option, none, some,
  if◌then◌else◌, ◌==◌, leb, length,
}
use faio.Http.Text.{Bytes, codes, same, until, beyond, has, Table, find, put, emplace}

pub data HttpMethod : Type 0 where
  get post put_method delete head options patch connect trace : HttpMethod

unfoldable pub http_method_to_string : HttpMethod → Bytes
http_method_to_string get = codes "GET"
http_method_to_string post = codes "POST"
http_method_to_string put_method = codes "PUT"
http_method_to_string delete = codes "DELETE"
http_method_to_string head = codes "HEAD"
http_method_to_string options = codes "OPTIONS"
http_method_to_string patch = codes "PATCH"
http_method_to_string connect = codes "CONNECT"
http_method_to_string trace = codes "TRACE"

unfoldable pub string_to_http_method : Bytes → HttpMethod
string_to_http_method method =
    if same method (codes "GET")
    then get
    else (if same method (codes "POST")
        then post
        else (if same method (codes "PUT")
            then put_method
            else (if same method (codes "DELETE")
                then delete
                else (if same method (codes "HEAD")
                    then head
                    else (if same method (codes "OPTIONS")
                        then options
                        else (if same method (codes "PATCH")
                            then patch
                            else (if same method (codes "CONNECT")
                                then connect
                                else (if same method (codes "TRACE") then trace else get))))))))

abbrev pub HttpHeaders : Type 0
HttpHeaders = Table Bytes

pub record HttpRequest : Type 0 where
  pub method : HttpMethod
  pub path : Bytes
  pub headers : HttpHeaders
  pub body : Bytes
  pub route_params : Table Bytes
  pub query_params : Table Bytes
  pub query_parsed : Bool

unfoldable pub new_request : HttpMethod → Bytes → HttpHeaders → Bytes → HttpRequest
new_request method path headers body = record {
  method = method;
  path = path;
  headers = headers;
  body = body;
  route_params = [];
  query_params = [];
  query_parsed = false;
}

-- `path_without_query`, and the router's `strip_query`.
abbrev pub strip_query : Bytes → Bytes
strip_query path = until b'?' path

abbrev pub query_string : Bytes → Bytes
query_string path = beyond b'?' path

abbrev pub header : HttpRequest → Bytes → Option Bytes
header r name = find name r.headers

abbrev pub path_param : HttpRequest → Bytes → Option Bytes
path_param r name = find name r.route_params

-- `none` for -1.
unfoldable pub from_hex : ℕ → Option ℕ
from_hex c =
    if leb b'0' c && leb c b'9'
    then some (c - b'0')
    else (if leb b'a' c && leb c b'f'
        then some (c - b'a' + 10)
        else (if leb b'A' c && leb c b'F' then some (c - b'A' + 10) else none))

-- `(high << 4) | low`.
abbrev pub hex_pair : Option ℕ → Option ℕ → Option ℕ
hex_pair (some high) (some low) = some (high * 16 + low)
hex_pair (some high) none = none
hex_pair none low = none

abbrev pub escape : ℕ → ℕ → ℕ → Option ℕ
escape c d e = if c == b'%' then hex_pair (from_hex d) (from_hex e) else none

abbrev pub plus : ℕ → ℕ
plus c = if c == b'+' then b' ' else c

-- The loop takes a `%` with two hexadecimal digits behind it, or one byte.
unfoldable pub url_decode : Bytes → Bytes
url_decode [] = []
url_decode (c ∷ []) = plus c ∷ []
url_decode (c ∷ d ∷ []) = plus c ∷ url_decode (d ∷ [])
url_decode (c ∷ d ∷ e ∷ s) = elim (escape c d e) [
  | some b ↦ b ∷ url_decode s
  | none ↦ plus c ∷ url_decode (d ∷ e ∷ s)
]

abbrev pub add_param : Bytes → Table Bytes → Table Bytes
add_param item params =
    if has b'=' item
    then put (url_decode (until b'=' item)) (url_decode (beyond b'=' item)) params
    else emplace (url_decode item) [] params

abbrev pub add_item : Bytes → Table Bytes → Table Bytes
add_item [] params = params
add_item (c ∷ item) params = add_param (c ∷ item) params

-- The loop over the items, with one round for each.
unfoldable pub parse_items : ℕ → Bytes → Table Bytes → Table Bytes
parse_items zero query params = params
parse_items (suc rounds) query params = elim (has b'&' query) [
  | true ↦ parse_items rounds (beyond b'&' query) (add_item (until b'&' query) params)
  | false ↦ add_item (until b'&' query) params
]

unfoldable pub parse_query_params_if_needed : HttpRequest → HttpRequest
parse_query_params_if_needed r = if r.query_parsed then r else record r {
  query_parsed = true;
  query_params =
      parse_items (length (query_string r.path) + 1) (query_string r.path) r.query_params;
}

-- The request afterwards, and the value.
unfoldable pub query_param : HttpRequest → Bytes → HttpRequest × Option Bytes
query_param r name =
    let parsed = parse_query_params_if_needed r in (parsed, find name parsed.query_params)

pub record HttpResponse : Type 0 where
  pub status : ℕ
  pub headers : HttpHeaders
  pub body : Bytes

-- `HttpResponseBuilder(status)`, `header` and `body` are these on the response that it holds.
abbrev pub new_response : ℕ → HttpResponse
new_response status = record { status = status; headers = []; body = [] }

abbrev pub with_header : Bytes → Bytes → HttpResponse → HttpResponse
with_header name value r = record r { headers = put name value r.headers }

abbrev pub with_body : Bytes → HttpResponse → HttpResponse
with_body body r = record r { body = body }
