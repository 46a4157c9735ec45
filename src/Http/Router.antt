-- ===== src/Http/Router.antt =====
-- The class `HttpRouter` of include/faio/detail/http/http_server.hpp. A handler is a function from a
-- request to a response or an exception; an empty `std::function` is `none`.
pub mod Path
pub mod Matching
pub mod Dispatch
pub mod FastPath
pub mod Routes
mod Tests
use faio.Base.{
  ℕ, zero, suc, ◌+◌, Bool, true, false, not, ◌&&◌, ◌||◌, List, [], ◌∷◌, ◌++◌, Option, none, some,
  if◌then◌else◌, ◌==◌, ltb, length, get_or, set, replicate, drop,
}
use faio.Http.Text.{Bytes, codes, same, until, beyond, has, Table, find, put, emplace}
use faio.Http.Types.{
  HttpMethod, get, post, put_method, delete, head, options, patch, connect, trace, HttpRequest,
  HttpResponse, strip_query, new_response, with_header, with_body,
}

-- What a coroutine ends with: a value, or an exception, with its message if it is a `std::exception`.
pub data Result (A : Type 0) : Type 0 where
  returns : A → Result A
  throws : Option Bytes → Result A

abbrev pub HttpHandler : Type 0
HttpHandler = HttpRequest → Result HttpResponse

abbrev pub HttpErrorHandler : Type 0
HttpErrorHandler = HttpRequest → Bytes → Result HttpResponse

-- `HttpMiddlewareResult`.
pub data HttpMiddlewareResult : Type 0 where
  next : HttpMiddlewareResult
  respond : HttpResponse → HttpMiddlewareResult

abbrev pub HttpMiddleware : Type 0
HttpMiddleware = HttpRequest → Result HttpMiddlewareResult

pub record DynamicRoute : Type 0 where
  pub method : Option HttpMethod
  pub segments : List Bytes
  pub wildcard_name : Option Bytes
  pub handler : HttpHandler

pub record HttpRouter : Type 0 where
  pub routes : List (Table HttpHandler)
  pub any_method_routes : Table HttpHandler
  pub dynamic_routes : List DynamicRoute
  pub middlewares : List HttpMiddleware
  pub fallback_handler : Option HttpHandler
  pub error_handler : Option HttpErrorHandler

abbrev pub http_method_count : ℕ
http_method_count = 9

unfoldable pub new_router : HttpRouter
new_router = record {
  routes = replicate http_method_count [];
  any_method_routes = [];
  dynamic_routes = [];
  middlewares = [];
  fallback_handler = none;
  error_handler = none;
}

abbrev pub method_index : HttpMethod → ℕ
method_index get = 0
method_index post = 1
method_index put_method = 2
method_index delete = 3
method_index head = 4
method_index options = 5
method_index patch = 6
method_index connect = 7
method_index trace = 8

abbrev pub skip_slashes : Bytes → Bytes
skip_slashes [] = []
skip_slashes (c ∷ s) = let rest = skip_slashes s in if c == b'/' then rest else c ∷ s

-- A part is kept if it is not empty.
abbrev pub push_segment : Bytes → List Bytes → List Bytes
push_segment [] rest = rest
push_segment (c ∷ s) rest = (c ∷ s) ∷ rest

-- The loop of `split_path`, from the byte at `start` on; a round takes a segment and the slashes behind.
unfoldable pub split_segments : ℕ → Bytes → List Bytes
split_segments zero s = []
split_segments (suc rounds) [] = []
split_segments (suc rounds) (c ∷ s) =
    let rest = split_segments rounds (skip_slashes (beyond b'/' (c ∷ s))) in
    push_segment (until b'/' (c ∷ s)) rest

unfoldable pub split_path : Bytes → List Bytes
split_path path = let clean = strip_query path in split_segments (length clean) (skip_slashes clean)

abbrev pub is_dynamic_path : Bytes → Bool
is_dynamic_path path = has b':' path || has b'*' path

abbrev pub wildcard_of : Bytes → Bytes
wildcard_of [] = codes "wildcard"
wildcard_of (c ∷ name) = c ∷ name

abbrev pub add_segment : Bytes → List Bytes × Option Bytes → List Bytes × Option Bytes
add_segment segment (segments, wildcard) = (segment ∷ segments, wildcard)

-- The loop of `register_route`: the segments up to the first that begins with `*`, and the wildcard.
abbrev pub compile : List Bytes → List Bytes × Option Bytes
compile [] = ([], none)
compile ([] ∷ rest) = add_segment [] (compile rest)
compile ((c ∷ segment) ∷ rest) =
    let more = add_segment (c ∷ segment) (compile rest) in
    if c == b'*' then ([], some (wildcard_of segment)) else more

abbrev pub register_static : Option HttpMethod → Bytes → HttpHandler → HttpRouter → HttpRouter
register_static none path handler r = record r {
  any_method_routes = put path handler r.any_method_routes;
}
register_static (some method) path handler r = record r {
  routes =
      set r.routes (method_index method)
        (put path handler (get_or r.routes (method_index method) []));
}

abbrev pub dynamic_route : Option HttpMethod → Bytes → HttpHandler → DynamicRoute
dynamic_route method path handler =
    let parts = compile (split_path path) in
    record { method = method; segments = parts.0; wildcard_name = parts.1; handler = handler }

-- `register_route`, which `handle` and its kin call.
unfoldable pub handle : Option HttpMethod → Bytes → HttpHandler → HttpRouter → HttpRouter
handle method path handler r =
    let clean = strip_query path in
    if not (is_dynamic_path clean)
    then register_static method clean handler r
    else record r { dynamic_routes = r.dynamic_routes ++ dynamic_route method clean handler ∷ [] }

abbrev pub use_middleware : HttpMiddleware → HttpRouter → HttpRouter
use_middleware middleware r = record r { middlewares = r.middlewares ++ middleware ∷ [] }

-- `join_path_segments` on the segments from `from` on.
abbrev pub join_from : Bytes → List Bytes → Bytes
join_from out [] = out
join_from [] (segment ∷ rest) = join_from segment rest
join_from (c ∷ out) (segment ∷ rest) = join_from (c ∷ out ++ b'/' ∷ segment) rest

abbrev pub join_path_segments : List Bytes → ℕ → Bytes
join_path_segments segments from = join_from [] (drop from segments)

abbrev pub same_method : Option HttpMethod → HttpMethod → Bool
same_method none m = true
same_method (some method) m = method_index method == method_index m

-- The loop over the segments of the pattern; none of the actual ones is read past the end.
abbrev pub match_segments : List Bytes → List Bytes → Table Bytes → Option (Table Bytes)
match_segments [] actuals params = some params
match_segments (pattern ∷ patterns) [] params = none
match_segments ([] ∷ patterns) (actual ∷ actuals) params =
    let rest = match_segments patterns actuals params in if same [] actual then rest else none
match_segments ((c ∷ name) ∷ patterns) (actual ∷ actuals) params =
    let bound = match_segments patterns actuals (emplace name actual params) in
    let rest = match_segments patterns actuals params in
    if c == b':'
    then (if same name [] then none else bound)
    else (if same (c ∷ name) actual then rest else none)

abbrev pub add_wildcard : Option Bytes → Bytes → Option (Table Bytes) → Option (Table Bytes)
add_wildcard none rest found = found
add_wildcard (some name) rest none = none
add_wildcard (some name) rest (some params) = some (emplace name rest params)

-- The test of the numbers of segments.
abbrev pub enough : Option Bytes → ℕ → ℕ → Bool
enough none patterns actuals = actuals == patterns
enough (some name) patterns actuals = not (ltb actuals patterns)

-- The parameters, if the route matches.
unfoldable pub match_dynamic_route : DynamicRoute → HttpRequest → Option (Table Bytes)
match_dynamic_route route req =
    let actuals = split_path req.path in
    if same_method route.method req.method
    then (if enough route.wildcard_name (length route.segments) (length actuals)
        then add_wildcard route.wildcard_name (join_path_segments actuals (length route.segments))
            (match_segments route.segments actuals [])
        else none)
    else none

abbrev pub default_error : HttpResponse
default_error =
    with_body (codes "Internal Server Error\n")
      (with_header (codes "content-type") (codes "text/plain") (new_response 500))

abbrev pub not_found : HttpResponse
not_found =
    with_body (codes "Not Found\n")
      (with_header (codes "content-type") (codes "text/plain") (new_response 404))

-- `err_message`.
abbrev pub message_of : Option Bytes → Bytes
message_of none = codes "unknown exception"
message_of (some what) = what

abbrev pub recover : Option HttpErrorHandler → HttpRequest → Option Bytes → Result HttpResponse
recover none req e = returns default_error
recover (some error_handler) req e = error_handler req (message_of e)

abbrev pub safe : Option HttpErrorHandler → HttpRequest → Result HttpResponse → Result HttpResponse
safe eh req (returns response) = returns response
safe eh req (throws e) = recover eh req e

unfoldable pub invoke_handler_safe : HttpRouter → HttpHandler → HttpRequest → Result HttpResponse
invoke_handler_safe r handler req = safe r.error_handler req (handler req)

abbrev pub responding : Result HttpResponse → Result HttpMiddlewareResult
responding (returns response) = returns (respond response)
responding (throws e) = throws e

abbrev pub safe_middleware :
    Option HttpErrorHandler
    → HttpRequest
    → Result HttpMiddlewareResult
    → Result HttpMiddlewareResult
safe_middleware eh req (returns result) = returns result
safe_middleware eh req (throws e) = responding (recover eh req e)

unfoldable pub invoke_middleware_safe :
    HttpRouter → HttpMiddleware → HttpRequest → Result HttpMiddlewareResult
invoke_middleware_safe r middleware req = safe_middleware r.error_handler req (middleware req)

abbrev pub inject : HttpRequest → Table Bytes → HttpRequest
inject req params = record req { route_params = params }

-- The handler and the request of the first dynamic route that matches.
abbrev pub first_match : List DynamicRoute → HttpRequest → Option (HttpHandler × HttpRequest)
first_match [] req = none
first_match (route ∷ rest) req =
    let later = first_match rest req in
    elim (match_dynamic_route route req) [
      | none ↦ later
      | some params ↦ some (route.handler, inject req params)
    ]

abbrev pub invoke_match :
    HttpRouter → Option (HttpHandler × HttpRequest) → Option (Result HttpResponse)
invoke_match r none = none
invoke_match r (some (handler, req)) = some (invoke_handler_safe r handler req)

-- `dispatch_dynamic`: `none` where no route matches.
unfoldable pub dispatch_dynamic : HttpRouter → HttpRequest → Option (Result HttpResponse)
dispatch_dynamic r req = invoke_match r (first_match r.dynamic_routes req)

abbrev pub method_route : HttpRouter → HttpRequest → Option HttpHandler
method_route r req = find (strip_query req.path) (get_or r.routes (method_index req.method) [])

abbrev pub any_route : HttpRouter → HttpRequest → Option HttpHandler
any_route r req = find (strip_query req.path) r.any_method_routes

abbrev pub run_or : Option HttpHandler → HttpRequest → Result HttpResponse → Result HttpResponse
run_or none req rest = rest
run_or (some handler) req rest = handler req

abbrev pub run_safe_or :
    HttpRouter → Option HttpHandler → HttpRequest → Result HttpResponse → Result HttpResponse
run_safe_or r none req rest = rest
run_safe_or r (some handler) req rest = invoke_handler_safe r handler req

-- The fast path of `dispatch`.
unfoldable pub dispatch_static : HttpRouter → HttpRequest → Result HttpResponse
dispatch_static r req =
    run_or (method_route r req) req
      (run_or (any_route r req) req (run_or r.fallback_handler req (returns not_found)))

abbrev pub matched_or : Option (Result HttpResponse) → Result HttpResponse → Result HttpResponse
matched_or none rest = rest
matched_or (some response) rest = response

-- `dispatch` behind the middlewares.
unfoldable pub dispatch_route : HttpRouter → HttpRequest → Result HttpResponse
dispatch_route r req = run_safe_or r (method_route r req) req (
    run_safe_or r (any_route r req) req (
      matched_or (dispatch_dynamic r req)
        (run_safe_or r r.fallback_handler req (returns not_found))))

abbrev pub after_middleware :
    Result HttpMiddlewareResult → Result HttpResponse → Result HttpResponse
after_middleware (returns next) rest = rest
after_middleware (returns (respond response)) rest = returns response
after_middleware (throws e) rest = throws e

abbrev pub run_middlewares :
    HttpRouter → List HttpMiddleware → HttpRequest → Result HttpResponse → Result HttpResponse
run_middlewares r [] req rest = rest
run_middlewares r (middleware ∷ more) req rest =
    after_middleware (invoke_middleware_safe r middleware req) (run_middlewares r more req rest)

abbrev pub is_none {ℓ} : {A : Type ℓ} → Option A → Bool
is_none none = true
is_none (some a) = false

unfoldable pub dispatch : HttpRouter → HttpRequest → Result HttpResponse
dispatch r req =
    if (length r.middlewares == 0) && (length r.dynamic_routes == 0) && is_none r.error_handler
    then dispatch_static r req
    else run_middlewares r r.middlewares req (dispatch_route r req)
