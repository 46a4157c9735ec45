-- ===== src/Http/Types/Methods.antt =====
-- The names of the methods (types.hpp).
use faio.Base.{◌≡◌, refl}
use faio.Http.Types.{
  HttpMethod, get, post, put_method, delete, head, options, patch, connect, trace,
  http_method_to_string, string_to_http_method,
}

-- Every method is read back from its name.
pub string_to_http_method-http_method_to_string :
    (m : HttpMethod) → string_to_http_method (http_method_to_string m) ≡ m
unfolding string_to_http_method http_method_to_string
string_to_http_method-http_method_to_string get = refl
string_to_http_method-http_method_to_string post = refl
string_to_http_method-http_method_to_string put_method = refl
string_to_http_method-http_method_to_string delete = refl
string_to_http_method-http_method_to_string head = refl
string_to_http_method-http_method_to_string options = refl
string_to_http_method-http_method_to_string patch = refl
string_to_http_method-http_method_to_string connect = refl
string_to_http_method-http_method_to_string trace = refl
