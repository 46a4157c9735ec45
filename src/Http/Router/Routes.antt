-- ===== src/Http/Router/Routes.antt =====
-- The registration of routes (`handle` of http_server.hpp) and what dispatch finds then.
use faio.Base.{
  ℕ, zero, suc, ◌<◌, ◌≡◌, refl, sym, ap, ◌∙◌, Bool, true, false, not, ◌&&◌, List, [], ◌∷◌, ◌++◌,
  Option, none, some, inl, inr, Bool-cases, arith, length, if◌then◌else◌, ◌==◌, get_or, set,
  length-set, replicate, get_or-set_self, get_or-set_ne, append_assoc, append-nil, ==→eq,
}
use faio.Http.Text.{Bytes, Table, same, find, put, find-put_self, find-put_ne, same→eq, same_refl}
use faio.Http.Types.{
  HttpMethod, get, post, put_method, delete, head, options, patch, connect, trace, HttpRequest,
  strip_query,
}
use faio.Http.Router.{
  HttpHandler, DynamicRoute, HttpRouter, http_method_count, new_router, method_index,
  is_dynamic_path, register_static, dynamic_route, handle, method_route, any_route,
}

-- One call of `handle`: the method, the path and the handler.
abbrev pub Registration : Type 0
Registration = Option HttpMethod × Bytes × HttpHandler

abbrev pub register_all : List Registration → HttpRouter → HttpRouter
register_all [] r = r
register_all ((method, path, handler) ∷ rest) r = register_all rest (handle method path handler r)

abbrev pub IsValid : HttpRouter → Type 0
IsValid r = length r.routes ≡ http_method_count

-- The registration is one of an exact route for the key.
abbrev pub same_key : Option HttpMethod → Option HttpMethod → Bool
same_key none none = true
same_key none (some n) = false
same_key (some m) none = false
same_key (some m) (some n) = method_index m == method_index n

abbrev pub is_exact : Option HttpMethod → Bytes → Registration → Bool
is_exact key clean (method, path, handler) =
    not (is_dynamic_path (strip_query path)) && same_key method key && same (strip_query path) clean

-- The handler of the last exact registration for a key.
abbrev pub latest :
    Option HttpMethod → Bytes → List Registration → Option HttpHandler → Option HttpHandler
latest key clean [] before = before
latest key clean (registration ∷ rest) before =
    latest key clean rest (if is_exact key clean registration then some registration.2 else before)

-- The routes of the dynamic registrations, in order.
abbrev pub dynamic_of : List Registration → List DynamicRoute
dynamic_of [] = []
dynamic_of ((method, path, handler) ∷ rest) =
    if is_dynamic_path (strip_query path)
    then dynamic_route method (strip_query path) handler ∷ dynamic_of rest
    else dynamic_of rest

method_index_lt : (m : HttpMethod) → method_index m < http_method_count
method_index_lt get = omega arith
method_index_lt post = omega arith
method_index_lt put_method = omega arith
method_index_lt delete = omega arith
method_index_lt head = omega arith
method_index_lt options = omega arith
method_index_lt patch = omega arith
method_index_lt connect = omega arith
method_index_lt trace = omega arith

-- What `find` gives behind a `put`, whatever the keys are.
find-put :
    (path clean : Bytes) (handler : HttpHandler) (m : Table HttpHandler)
    → find clean (put path handler m) ≡ (if same path clean then some handler else find clean m)
find-put path clean handler m = elim (Bool-cases (same path clean)) [
  | inl e ↦ rw e (
      ap (λ k. find k (put path handler m)) (sym (same→eq path clean e))
      ∙ find-put_self path handler m)
  | inr e ↦ rw e (find-put_ne path clean handler m (λ k. ground (arith, e, k, same_refl path)))
]

pub handle-IsValid :
    (method : Option HttpMethod) (path : Bytes) (handler : HttpHandler) (r : HttpRouter)
    → IsValid r
    → IsValid (handle method path handler r)
unfolding handle
handle-IsValid method path handler r h = go (not (is_dynamic_path (strip_query path))) method
  where
    go :
        (static : Bool) (method : Option HttpMethod)
        → IsValid (
            if static then register_static method (strip_query path) handler r else record r {
              dynamic_routes =
                  r.dynamic_routes ++ dynamic_route method (strip_query path) handler ∷ [];
            })
    go false method = h
    go true none = h
    go true (some m) = length-set r.routes (method_index m) _ ∙ h

-- The router that `handle` gives, by what its test says.
abbrev registered : Bool → Option HttpMethod → Bytes → HttpHandler → HttpRouter → HttpRouter
registered static method clean handler r =
    if static
    then register_static method clean handler r
    else record r { dynamic_routes = r.dynamic_routes ++ dynamic_route method clean handler ∷ [] }

module _ (clean : Bytes) (handler : HttpHandler) (r : HttpRouter) (req : HttpRequest) where
  registered_same :
      (m : HttpMethod) (same_index : Bool)
      → IsValid r
      → (method_index m == method_index req.method) ≡ same_index
      → find (strip_query req.path) (
          get_or
            (set r.routes
              (method_index m)
              (put clean handler (get_or r.routes (method_index m) [])))
            (method_index req.method)
            [])
        ≡ (if same_index && same clean (strip_query req.path)
            then some handler
            else method_route r req)
  registered_same m true h e =
      let at = ==→eq (method_index m) (method_index req.method) e in
      let inside : method_index m < length r.routes = omega (arith, h, method_index_lt m) in
      ap
        (λ i. find (strip_query req.path) (
          get_or
            (set r.routes (method_index m)
              (put clean handler (get_or r.routes (method_index m) [])))
            i []))
        (sym at)
      ∙ ap (find (strip_query req.path)) (
          get_or-set_self r.routes (method_index m)
            (put clean handler (get_or r.routes (method_index m) [])) [] inside)
      ∙ find-put clean (strip_query req.path) handler (get_or r.routes (method_index m) [])
      ∙ ap
          (λ i.
            if same clean (strip_query req.path)
            then some handler
            else find (strip_query req.path) (get_or r.routes i []))
          at
  registered_same m false h e = ap (find (strip_query req.path)) (
      get_or-set_ne r.routes (method_index m) (method_index req.method)
        (put clean handler (get_or r.routes (method_index m) [])) [] (λ k. ground (arith, e, k)))

  method_route-registered :
      (static : Bool) (method : Option HttpMethod)
      → IsValid r
      → method_route (registered static method clean handler r) req ≡ (
          if static && same_key method (some req.method) && same clean (strip_query req.path)
          then some handler
          else method_route r req)
  method_route-registered false method h = refl
  method_route-registered true none h = refl
  method_route-registered true (some m) h =
      registered_same m (method_index m == method_index req.method) h refl

  any_route-registered :
      (static : Bool) (method : Option HttpMethod)
      → any_route (registered static method clean handler r) req ≡ (
          if static && same_key method none && same clean (strip_query req.path)
          then some handler
          else any_route r req)
  any_route-registered false method = refl
  any_route-registered true none = find-put clean (strip_query req.path) handler r.any_method_routes
  any_route-registered true (some m) = refl

dynamic_routes-registered :
    (dynamic : Bool) (method : Option HttpMethod) (clean : Bytes) (handler : HttpHandler)
    (r : HttpRouter) (rest : List DynamicRoute)
    → (registered (not dynamic) method clean handler r).dynamic_routes ++ rest
      ≡ r.dynamic_routes ++ (if dynamic then dynamic_route method clean handler ∷ rest else rest)
dynamic_routes-registered false none clean handler r rest = refl
dynamic_routes-registered false (some m) clean handler r rest = refl
dynamic_routes-registered true method clean handler r rest =
    append_assoc r.dynamic_routes (dynamic_route method clean handler ∷ []) rest

method_route-register_all :
    (registrations : List Registration) (r : HttpRouter) (req : HttpRequest)
    → IsValid r
    → method_route (register_all registrations r) req
      ≡ latest (some req.method) (strip_query req.path) registrations (method_route r req)
unfolding handle
method_route-register_all [] r req h = refl
method_route-register_all ((method, path, handler) ∷ rest) r req h =
    method_route-register_all rest (handle method path handler r) req
      (handle-IsValid method path handler r h)
    ∙ ap (latest (some req.method) (strip_query req.path) rest) (
        method_route-registered (strip_query path) handler r req
          (not (is_dynamic_path (strip_query path))) method h)

any_route-register_all :
    (registrations : List Registration) (r : HttpRouter) (req : HttpRequest)
    → any_route (register_all registrations r) req
      ≡ latest none (strip_query req.path) registrations (any_route r req)
unfolding handle
any_route-register_all [] r req = refl
any_route-register_all ((method, path, handler) ∷ rest) r req =
    any_route-register_all rest (handle method path handler r) req
    ∙ ap (latest none (strip_query req.path) rest) (
        any_route-registered (strip_query path) handler r req
          (not (is_dynamic_path (strip_query path))) method)

dynamic_routes-register_all :
    (registrations : List Registration) (r : HttpRouter)
    → (register_all registrations r).dynamic_routes ≡ r.dynamic_routes ++ dynamic_of registrations
unfolding handle
dynamic_routes-register_all [] r = sym (append-nil r.dynamic_routes)
dynamic_routes-register_all ((method, path, handler) ∷ rest) r =
    dynamic_routes-register_all rest (handle method path handler r)
    ∙ dynamic_routes-registered (is_dynamic_path (strip_query path)) method (strip_query path)
        handler r (dynamic_of rest)

-- After any calls of `handle` on a new router, the exact routes that a request finds are those of the last
-- calls with its path for its method and for any method, and the dynamic routes are those of the other
-- calls in their order.
pub routes-register_all :
    (registrations : List Registration) (req : HttpRequest)
    → (method_route (register_all registrations new_router) req
        ≡ latest (some req.method) (strip_query req.path) registrations none)
      × (any_route (register_all registrations new_router) req
          ≡ latest none (strip_query req.path) registrations none)
      × ((register_all registrations new_router).dynamic_routes ≡ dynamic_of registrations)
unfolding new_router
routes-register_all registrations req = (
  method_route-register_all registrations new_router req refl
      ∙ ap
          (λ m.
            latest (some req.method) (strip_query req.path) registrations
              (find (strip_query req.path) m))
          (no_route http_method_count (method_index req.method)),
  any_route-register_all registrations new_router req,
  dynamic_routes-register_all registrations new_router,
)
  where
    no_route : (n i : ℕ) → get_or (replicate {A = Table HttpHandler} n []) i [] ≡ []
    no_route zero i = refl
    no_route (suc n) zero = refl
    no_route (suc n) (suc i) = no_route n i
