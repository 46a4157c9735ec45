-- ===== src/Http/Router/Dispatch.antt =====
-- The choice of a handler, and exceptions (`dispatch` of http_server.hpp).
use faio.Base.{
  ◌≡◌, refl, sym, ap, ap₂, subst, ◌∙◌, Bool, true, false, ◌&&◌, List, [], ◌∷◌, ◌++◌, Option, none,
  some, All, arith, length, if◌then◌else◌, ◌==◌,
}
use faio.Http.Text.{Bytes, Table}
use faio.Http.Types.{HttpRequest, HttpResponse}
use faio.Http.Router.{
  Result, returns, throws, HttpHandler, HttpErrorHandler, HttpMiddlewareResult, next, respond,
  HttpMiddleware, DynamicRoute, HttpRouter, match_dynamic_route, default_error, not_found,
  message_of, recover, safe, invoke_handler_safe, responding, safe_middleware,
  invoke_middleware_safe, inject, first_match, invoke_match, dispatch_dynamic, method_route,
  any_route, run_safe_or, dispatch_static, matched_or, dispatch_route, after_middleware,
  run_middlewares, is_none, dispatch,
}

-- A handler that fits a request, with the request that it gets.
abbrev pub Candidate : Type 0
Candidate = HttpHandler × HttpRequest

abbrev pub offer : Option HttpHandler → HttpRequest → List Candidate
offer none req = []
offer (some handler) req = (handler, req) ∷ []

abbrev pub offer_match : HttpHandler → Option (Table Bytes) → HttpRequest → List Candidate
offer_match handler none req = []
offer_match handler (some params) req = (handler, inject req params) ∷ []

abbrev pub offer_dynamic : List DynamicRoute → HttpRequest → List Candidate
offer_dynamic [] req = []
offer_dynamic (route ∷ rest) req =
    offer_match route.handler (match_dynamic_route route req) req ++ offer_dynamic rest req

-- Every handler that fits, the most specific first.
abbrev pub candidates : HttpRouter → HttpRequest → List Candidate
candidates r req =
    offer (method_route r req) req
    ++ (offer (any_route r req) req
        ++ (offer_dynamic r.dynamic_routes req ++ offer r.fallback_handler req))

-- The first one runs, and without any the answer is 404.
abbrev pub serve : HttpRouter → List Candidate → Result HttpResponse
serve r [] = returns not_found
serve r ((handler, req) ∷ rest) = invoke_handler_safe r handler req

module _ (r : HttpRouter) where
  run_safe_or-offer :
      (o : Option HttpHandler) (req : HttpRequest) (rest : List Candidate)
      → run_safe_or r o req (serve r rest) ≡ serve r (offer o req ++ rest)
  run_safe_or-offer none req rest = refl
  run_safe_or-offer (some handler) req rest = refl

  first_match-offer :
      (routes : List DynamicRoute) (req : HttpRequest) (rest : List Candidate)
      → matched_or (invoke_match r (first_match routes req)) (serve r rest)
        ≡ serve r (offer_dynamic routes req ++ rest)
  first_match-offer [] req rest = refl
  first_match-offer (route ∷ routes) req rest =
      go (match_dynamic_route route req) (first_match-offer routes req rest)
    where
      go :
          (found : Option (Table Bytes))
          → matched_or (invoke_match r (first_match routes req)) (serve r rest)
            ≡ serve r (offer_dynamic routes req ++ rest)
          → matched_or
              (invoke_match r (elim found [
                | none ↦ first_match routes req
                | some params ↦ some (route.handler, inject req params)
              ]))
              (serve r rest)
            ≡ serve r ((offer_match route.handler found req ++ offer_dynamic routes req) ++ rest)
      go none later = later
      go (some params) later = refl

  offer-nil :
      (o : Option HttpHandler) (req : HttpRequest)
      → run_safe_or r o req (returns not_found) ≡ serve r (offer o req)
  offer-nil none req = refl
  offer-nil (some handler) req = refl

  -- Behind the middlewares, the handler that runs is the first of the exact route of the method, the exact
  -- route of any method, the dynamic routes that match in their order of registration, and the fallback;
  -- it runs on the request with the parameters of its match, and the answer is 404 where there is none.
  pub dispatch_route-candidates :
      (req : HttpRequest) → dispatch_route r req ≡ serve r (candidates r req)
  unfolding dispatch_route dispatch_dynamic
  dispatch_route-candidates req =
      let last = offer r.fallback_handler req in
      let dynamic = offer_dynamic r.dynamic_routes req ++ last in
      let any = offer (any_route r req) req ++ dynamic in
      ap (λ s. run_safe_or r (method_route r req) req (run_safe_or r (any_route r req) req s))
        (ap (matched_or (invoke_match r (first_match r.dynamic_routes req)))
            (offer-nil r.fallback_handler req)
          ∙ first_match-offer r.dynamic_routes req last)
      ∙ ap (run_safe_or r (method_route r req) req)
          (run_safe_or-offer (any_route r req) req dynamic)
      ∙ run_safe_or-offer (method_route r req) req any

-- An error handler that itself throws nothing.
abbrev pub HandlesErrors : Option HttpErrorHandler → Type 0
HandlesErrors none = Unit
HandlesErrors (some error_handler) =
    (req : HttpRequest) (e : Bytes)
    → (response : HttpResponse) × (error_handler req e ≡ returns response)

abbrev pub Returns : Result HttpResponse → Type 0
Returns result = (response : HttpResponse) × (result ≡ returns response)

recover-Returns :
    (eh : Option HttpErrorHandler) (req : HttpRequest) (e : Option Bytes)
    → HandlesErrors eh
    → Returns (recover eh req e)
recover-Returns none req e h = (default_error, refl)
recover-Returns (some error_handler) req e h = h req (message_of e)

safe-Returns :
    (eh : Option HttpErrorHandler) (req : HttpRequest) (result : Result HttpResponse)
    → HandlesErrors eh
    → Returns (safe eh req result)
safe-Returns eh req (returns response) h = (response, refl)
safe-Returns eh req (throws e) h = recover-Returns eh req e h

serve-Returns :
    (r : HttpRouter) (offers : List Candidate)
    → HandlesErrors r.error_handler
    → Returns (serve r offers)
unfolding invoke_handler_safe
serve-Returns r [] h = (not_found, refl)
serve-Returns r ((handler, req) ∷ rest) h = safe-Returns r.error_handler req (handler req) h

module _ (r : HttpRouter) (h : HandlesErrors r.error_handler) (req : HttpRequest) where
  middleware_Returns :
      (result : Result HttpMiddlewareResult) (rest : Result HttpResponse)
      → Returns rest
      → Returns (after_middleware (safe_middleware r.error_handler req result) rest)
  middleware_Returns (returns next) rest k = k
  middleware_Returns (returns (respond response)) rest k = (response, refl)
  middleware_Returns (throws e) rest k =
      let error = recover-Returns r.error_handler req e h in
      (error.0, ap (λ result. after_middleware (responding result) rest) error.1)

  run_middlewares-Returns :
      (middlewares : List HttpMiddleware) (rest : Result HttpResponse)
      → Returns rest
      → Returns (run_middlewares r middlewares req rest)
  unfolding invoke_middleware_safe
  run_middlewares-Returns [] rest k = k
  run_middlewares-Returns (middleware ∷ more) rest k =
      middleware_Returns (middleware req) (run_middlewares r more req rest)
        (run_middlewares-Returns more rest k)

  dispatch_route-Returns : Returns (dispatch_route r req)
  dispatch_route-Returns =
      subst Returns (sym (dispatch_route-candidates r req)) (serve-Returns r (candidates r req) h)

-- A router with an error handler answers every request, whatever its handlers and middlewares throw, if the
-- error handler itself throws nothing.
pub dispatch-Returns :
    (r : HttpRouter) (error_handler : HttpErrorHandler) (req : HttpRequest)
    → r.error_handler ≡ some error_handler
    → HandlesErrors (some error_handler)
    → Returns (dispatch r req)
unfolding dispatch
dispatch-Returns r error_handler req at h =
    let safe_too : HandlesErrors r.error_handler = subst HandlesErrors (sym at) h in
    let slow : ((length r.middlewares == 0)
          && (length r.dynamic_routes == 0)
          && is_none r.error_handler)
        ≡ false =
      ap (λ eh. (length r.middlewares == 0) && (length r.dynamic_routes == 0) && is_none eh) at
      ∙ and_false _ in
    subst (λ fast. Returns (if fast then dispatch_static r req else general)) (sym slow)
      (run_middlewares-Returns r safe_too req r.middlewares (dispatch_route r req)
        (dispatch_route-Returns r safe_too req))
  where
    general : Result HttpResponse
    general = run_middlewares r r.middlewares req (dispatch_route r req)

    and_false : (b : Bool) → (b && false) ≡ false
    and_false true = refl
    and_false false = refl

run_middlewares-respond :
    (r : HttpRouter) (before : List HttpMiddleware) (middleware : HttpMiddleware)
    (after : List HttpMiddleware) (req : HttpRequest) (response : HttpResponse)
    (rest : Result HttpResponse)
    → All (λ (m : HttpMiddleware). m req ≡ returns next) before
    → middleware req ≡ returns (respond response)
    → run_middlewares r (before ++ middleware ∷ after) req rest ≡ returns response
unfolding invoke_middleware_safe
run_middlewares-respond r [] middleware after req response rest h k =
    ap
      (λ result.
        after_middleware (safe_middleware r.error_handler req result)
          (run_middlewares r after req rest))
      k
run_middlewares-respond r (m ∷ before) middleware after req response rest h k =
    let later = run_middlewares r (before ++ middleware ∷ after) req rest in
    ap (λ result. after_middleware (safe_middleware r.error_handler req result) later) h.0
    ∙ run_middlewares-respond r before middleware after req response rest h.1 k

-- The first middleware that does not pass the request on answers it: neither a later middleware nor a
-- handler has a part in the answer.
pub dispatch-respond :
    (r : HttpRouter) (before : List HttpMiddleware) (middleware : HttpMiddleware)
    (after : List HttpMiddleware) (req : HttpRequest) (response : HttpResponse)
    → r.middlewares ≡ before ++ middleware ∷ after
    → All (λ (m : HttpMiddleware). m req ≡ returns next) before
    → middleware req ≡ returns (respond response)
    → dispatch r req ≡ returns response
unfolding dispatch
dispatch-respond r before middleware after req response at h k =
    ap₂
      (λ (fast : Bool) ms.
        if fast then dispatch_static r req else run_middlewares r ms req (dispatch_route r req))
      slow at
    ∙ run_middlewares-respond r before middleware after req response (dispatch_route r req) h k
  where
    some_one : (ms : List HttpMiddleware) → (length (ms ++ middleware ∷ after) == 0) ≡ false
    some_one [] = ground arith
    some_one (m ∷ ms) = ground arith

    slow :
        ((length r.middlewares == 0) && (length r.dynamic_routes == 0) && is_none r.error_handler)
        ≡ false
    slow =
        ap (λ b. b && (length r.dynamic_routes == 0) && is_none r.error_handler)
          (ap (λ (ms : List HttpMiddleware). length ms == 0) at ∙ some_one before)
