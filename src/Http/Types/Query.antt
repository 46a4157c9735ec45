-- ===== src/Http/Types/Query.antt =====
-- The query of a request (types.hpp): what a client encodes is what the request's parameters are.
use faio.Base.{
  ℕ, zero, suc, ◌+◌, ◌≤◌, ◌<◌, ◌≡◌, refl, ap, ap₂, ◌∙◌, Bool, true, false, List, [], ◌∷◌, ◌++◌, inl,
  inr, All, arith, length, length-append, if◌then◌else◌,
}
use faio.Http.Text.{
  Bytes, beyond, has, Table, put, until_all, until-append, beyond-append, has-append,
}
use faio.Http.Types.Encoding.{Char, encode, text, IsEncodable, url_decode-encode, has-encode}
use faio.Http.Types.{
  HttpRequest, query_string, add_param, add_item, parse_items, parse_query_params_if_needed,
}

-- A key and its value, as a client writes them.
abbrev pub Param : Type 0
Param = List Char × List Char

-- What a client sends: `key=value`, with `&` between them.
abbrev pub encode_item : Param → Bytes
encode_item (key, value) = encode key ++ b'=' ∷ encode value

abbrev pub encode_query : List Param → Bytes
encode_query [] = []
encode_query (kv ∷ []) = encode_item kv
encode_query (kv ∷ other ∷ rest) = encode_item kv ++ b'&' ∷ encode_query (other ∷ rest)

abbrev pub put_all : List Param → Table Bytes → Table Bytes
put_all [] params = params
put_all ((key, value) ∷ rest) params = put_all rest (put (text key) (text value) params)

abbrev pub Encodable : Param → Type 0
Encodable (key, value) = All IsEncodable key × All IsEncodable value

has-encode_item : (kv : Param) → Encodable kv → has b'&' (encode_item kv) ≡ false
has-encode_item (key, value) h =
    has-append b'&' (encode key) (b'=' ∷ encode value) (has-encode b'&' key (inl refl) h.0)
    ∙ has-encode b'&' value (inl refl) h.1

add_param-encode_item :
    (key value : List Char) (params : Table Bytes)
    → Encodable (key, value)
    → add_param (encode_item (key, value)) params ≡ put (text key) (text value) params
add_param-encode_item key value params h =
    let none_in = has-encode b'=' key (inr refl) h.0 in
    let seen : has b'=' (encode_item (key, value)) ≡ true =
      has-append b'=' (encode key) (b'=' ∷ encode value) none_in in
    rw
      (
        seen,
        until-append b'=' (encode key) (encode value) none_in,
        beyond-append b'=' (encode key) (encode value) none_in,
      )
      (ap₂ (λ k v. put k v params) (url_decode-encode key h.0) (url_decode-encode value h.1))

add_item-busy :
    (c : ℕ) (xs ys : Bytes) (params : Table Bytes)
    → add_item (xs ++ c ∷ ys) params ≡ add_param (xs ++ c ∷ ys) params
add_item-busy c [] ys params = refl
add_item-busy c (x ∷ xs) ys params = refl

add_item-encode_item :
    (kv : Param) (params : Table Bytes)
    → Encodable kv
    → add_item (encode_item kv) params ≡ put (text kv.0) (text kv.1) params
add_item-encode_item (key, value) params h =
    add_item-busy b'=' (encode key) (encode value) params ∙ add_param-encode_item key value params h

parse_items_last :
    (n : ℕ) (query : Bytes) (params : Table Bytes)
    → has b'&' query ≡ false
    → parse_items (suc n) query params ≡ add_item query params
unfolding parse_items
parse_items_last n query params h =
    rw (parse_items, h) (ap (λ q. add_item q params) (until_all b'&' query h))

parse_items_more :
    (n : ℕ) (item query : Bytes) (params : Table Bytes)
    → has b'&' item ≡ false
    → parse_items (suc n) (item ++ b'&' ∷ query) params ≡ parse_items n query (add_item item params)
unfolding parse_items
parse_items_more n item query params h =
    rw (parse_items, has-append b'&' item (b'&' ∷ query) h)
      (ap₂ (λ q i. parse_items n q (add_item i params)) (beyond-append b'&' item query h)
        (until-append b'&' item query h))

-- The loop reads the items one after the other.
parse_items-encode_query :
    (n : ℕ) (kv : Param) (rest : List (Param)) (params : Table Bytes)
    → All Encodable (kv ∷ rest)
    → length rest < n
    → parse_items n (encode_query (kv ∷ rest)) params ≡ put_all (kv ∷ rest) params
parse_items-encode_query zero kv rest params h fuel = absurd (omega arith)
parse_items-encode_query (suc n) kv [] params h fuel =
    parse_items_last n (encode_item kv) params (has-encode_item kv h.0)
    ∙ add_item-encode_item kv params h.0
parse_items-encode_query (suc n) kv (other ∷ rest) params h fuel =
    parse_items_more n (encode_item kv) (encode_query (other ∷ rest)) params
      (has-encode_item kv h.0)
    ∙ ap (parse_items n (encode_query (other ∷ rest))) (add_item-encode_item kv params h.0)
    ∙ parse_items-encode_query n other rest (put (text kv.0) (text kv.1) params) h.1 (omega arith)

length-encode_query :
    (kv : Param) (rest : List (Param)) → length rest ≤ length (encode_query (kv ∷ rest))
length-encode_query kv [] = omega arith
length-encode_query kv (other ∷ rest) = omega (
  arith,
  length-encode_query other rest,
  length-append (encode_item kv) (b'&' ∷ encode_query (other ∷ rest)),
)

-- When the query of a request is parsed for the first time, and its path holds no `?` before the query, its
-- parameters, none before, are the keys and values that the client meant, a later value of a key replacing an earlier one; there must be one at least. Of the bytes
-- of a key or a value the client writes each as it likes: as itself, if it is none of `%`, `+`, `&` and `=`;
-- a space as `+`; or any as `%` and two hexadecimal digits, with capital or with small letters.
pub query_params-encode_query :
    (r : HttpRequest) (path : Bytes) (kv : Param) (rest : List (Param))
    → r.path ≡ path ++ b'?' ∷ encode_query (kv ∷ rest)
    → r.query_parsed ≡ false
    → r.query_params ≡ []
    → has b'?' path ≡ false
    → All Encodable (kv ∷ rest)
    → (parse_query_params_if_needed r).query_params ≡ put_all (kv ∷ rest) []
unfolding parse_query_params_if_needed
query_params-encode_query r path kv rest at fresh none_yet clean h =
    let query : query_string r.path ≡ encode_query (kv ∷ rest) =
      ap (beyond b'?') at ∙ beyond-append b'?' path (encode_query (kv ∷ rest)) clean in
    ap (λ (b : Bool). HttpRequest.query_params (if b then r else parsed)) fresh
    ∙ ap₂ (λ q params. parse_items (length q + 1) q params) query none_yet
    ∙ parse_items-encode_query _ kv rest [] h (omega (arith, length-encode_query kv rest))
  where
    parsed : HttpRequest
    parsed = record r {
      query_parsed = true;
      query_params =
          parse_items (length (query_string r.path) + 1) (query_string r.path) r.query_params;
    }
