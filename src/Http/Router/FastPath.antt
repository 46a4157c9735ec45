-- ===== src/Http/Router/FastPath.antt =====
-- The fast path of `dispatch` (http_server.hpp), which runs a handler without a guard.
use faio.Base.{
  ◌≡◌, refl, sym, ap, ap₂, ◌∙◌, ◌&&◌, List, [], ◌∷◌, ◌++◌, Option, none, some, length,
  if◌then◌else◌, ◌==◌,
}
use faio.Http.Types.{HttpRequest, HttpResponse}
use faio.Http.Router.{
  Result, returns, HttpHandler, HttpErrorHandler, HttpRouter, not_found, safe, invoke_handler_safe,
  first_match, invoke_match, dispatch_dynamic, method_route, any_route, run_or, run_safe_or,
  dispatch_static, matched_or, dispatch_route, run_middlewares, is_none, dispatch,
}
use faio.Http.Router.Dispatch.{Candidate, offer, offer_dynamic, candidates}

-- The fast path is taken.
abbrev pub IsPlain : HttpRouter → Type 0
IsPlain r = (r.middlewares ≡ []) × (r.dynamic_routes ≡ []) × (r.error_handler ≡ none)

safe-run_or :
    (r : HttpRouter) (o : Option HttpHandler) (req : HttpRequest) (rest : Result HttpResponse)
    → r.error_handler ≡ none
    → safe none req (run_or o req rest) ≡ run_safe_or r o req (safe none req rest)
unfolding invoke_handler_safe
safe-run_or r none req rest h = refl
safe-run_or r (some handler) req rest h = ap (λ eh. safe eh req (handler req)) (sym h)

dispatch_static-dispatch_route :
    (r : HttpRouter) (req : HttpRequest)
    → IsPlain r
    → safe none req (dispatch_static r req) ≡ dispatch_route r req
unfolding dispatch_static dispatch_route dispatch_dynamic
dispatch_static-dispatch_route r req h =
    let run = run_safe_or r (method_route r req) req in
    let run_any = run_safe_or r (any_route r req) req in
    let run_last = run_safe_or r r.fallback_handler req (returns not_found) in
    safe-run_or r (method_route r req) req _ h.2
    ∙ ap run (safe-run_or r (any_route r req) req _ h.2)
    ∙ ap (λ s. run (run_any s)) (safe-run_or r r.fallback_handler req (returns not_found) h.2)
    ∙ ap (λ routes. run (run_any (matched_or (invoke_match r (first_match routes req)) run_last)))
        (sym h.1)

-- The first one runs with no guard around it: an exception that it throws is the result.
abbrev pub serve_bare : List Candidate → Result HttpResponse
serve_bare [] = returns not_found
serve_bare ((handler, req) ∷ rest) = handler req

run_or-offer :
    (o : Option HttpHandler) (req : HttpRequest) (rest : List Candidate)
    → run_or o req (serve_bare rest) ≡ serve_bare (offer o req ++ rest)
run_or-offer none req rest = refl
run_or-offer (some handler) req rest = refl

run_or-nil :
    (o : Option HttpHandler) (req : HttpRequest)
    → run_or o req (returns not_found) ≡ serve_bare (offer o req)
run_or-nil none req = refl
run_or-nil (some handler) req = refl

dispatch_static-candidates :
    (r : HttpRouter) (req : HttpRequest)
    → IsPlain r
    → dispatch_static r req ≡ serve_bare (candidates r req)
unfolding dispatch_static
dispatch_static-candidates r req h =
    let last = offer r.fallback_handler req in
    let any = offer (any_route r req) req ++ last in
    ap (λ s. run_or (method_route r req) req (run_or (any_route r req) req s))
      (run_or-nil r.fallback_handler req)
    ∙ ap (run_or (method_route r req) req) (run_or-offer (any_route r req) req last)
    ∙ run_or-offer (method_route r req) req any
    ∙ ap
        (λ routes. serve_bare (
          offer (method_route r req) req
          ++ (offer (any_route r req) req
              ++ (offer_dynamic routes req ++ offer r.fallback_handler req))))
        (sym h.1)

-- The fast path, which a router without middlewares, dynamic routes and error handler takes, lets an
-- exception out: `dispatch` gives what the first handler that fits gives, an exception that it throws
-- included, or 404 where there is none. The general path, on the same router, runs the same handler and
-- differs exactly in that it answers the exception with the default error.
pub dispatch-dispatch_route :
    (r : HttpRouter) (req : HttpRequest)
    → IsPlain r
    → (dispatch r req ≡ serve_bare (candidates r req))
      × (dispatch_route r req ≡ safe none req (serve_bare (candidates r req)))
unfolding dispatch
dispatch-dispatch_route r req h =
    let fast : dispatch r req ≡ dispatch_static r req =
      ap (λ fast. if fast then dispatch_static r req else general)
        (ap₂ (λ ms ds. (length ms == 0) && (length ds == 0) && is_none r.error_handler) h.0 h.1
          ∙ ap (λ (eh : Option HttpErrorHandler). is_none eh) h.2) in
    let bare = dispatch_static-candidates r req h in
    (fast ∙ bare, sym (dispatch_static-dispatch_route r req h) ∙ ap (safe none req) bare)
  where
    general : Result HttpResponse
    general = run_middlewares r r.middlewares req (dispatch_route r req)
