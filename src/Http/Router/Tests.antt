-- ===== src/Http/Router/Tests.antt =====
-- A router with one static and one dynamic route.
use faio.Base.{◌≡◌, ◌↔◌, refl, false, List, [], ◌∷◌, none, some}
use faio.Http.Text.{Bytes, codes}
use faio.Http.Types.{get, HttpRequest, HttpResponse, new_response, with_body, strip_query}
use faio.Http.Router.{
  returns, throws, HttpHandler, HttpErrorHandler, HttpMiddleware, next, respond, HttpRouter,
  new_router, split_path, split_segments, dispatch_dynamic, dispatch_static, invoke_handler_safe,
  handle, match_dynamic_route, method_route, any_route, dispatch, dispatch_route, dynamic_route,
  safe,
}
use faio.Http.Router.Path.{fields, split_path-fields}
use faio.Http.Router.Matching.{Matches, bound, match_dynamic_route-bound}
use faio.Http.Router.Dispatch.{
  serve, candidates, Returns, dispatch_route-candidates, dispatch-Returns,
}
use faio.Http.Router.FastPath.{serve_bare, dispatch-dispatch_route}
use faio.Http.Router.Routes.{Registration, register_all, latest, dynamic_of, routes-register_all}

abbrev ok : Bytes → HttpResponse
ok text = with_body text (new_response 200)

abbrev greet : HttpHandler
greet req = returns (ok (codes "hi"))

abbrev fail : HttpHandler
fail req = throws (some (codes "boom"))

abbrev on_error : HttpErrorHandler
on_error req what = returns (ok what)

abbrev request : Bytes → HttpRequest
request path = record {
  method = get;
  path = path;
  headers = [];
  body = [];
  route_params = [];
  query_params = [];
  query_parsed = false;
}

abbrev calls : List Registration
calls =
    (some get, codes "/hi", fail)
    ∷ (some get, codes "/hi?x", greet)
    ∷ (none, codes "/u/:id/*rest", greet)
    ∷ []

abbrev router : HttpRouter
router = register_all calls new_router

abbrev plain : HttpRouter
plain = handle (some get) (codes "/boom") fail new_router

abbrev guarded : HttpRouter
guarded = record router { error_handler = some on_error }

abbrev pass : HttpMiddleware
pass req = returns next

abbrev stop : HttpMiddleware
stop req = returns (respond (ok (codes "stop")))

abbrev segments : List Bytes
segments = codes "a" ∷ codes "b" ∷ []

split : split_path (codes "//a///b/?x/y") ≡ segments
unfolding split_path split_segments
split = refl

found :
    match_dynamic_route
      (dynamic_route none (codes "/u/:id/*rest") greet)
      (request (codes "/u/7/a/b"))
    ≡ some ((codes "id", codes "7") ∷ (codes "rest", codes "a/b") ∷ [])
unfolding match_dynamic_route split_path split_segments
found = refl

served : dispatch router (request (codes "/hi?q")) ≡ returns (ok (codes "hi"))
unfolding dispatch new_router handle dispatch_route dispatch_dynamic invoke_handler_safe split_path
    split_segments
served = refl

escapes : dispatch plain (request (codes "/boom")) ≡ throws (some (codes "boom"))
unfolding dispatch new_router handle dispatch_static
escapes = refl

split_path-fields_example : split_path (codes "//a///b/?x/y") ≡ fields (codes "//a///b/")
split_path-fields_example = split_path-fields (codes "//a///b/?x/y")

match_dynamic_route-bound_example :
    (match_dynamic_route
        (dynamic_route none (codes "/u/:id/*rest") greet)
        (request (codes "/u/7/a/b"))
      ≡ some ((codes "id", codes "7") ∷ (codes "rest", codes "a/b") ∷ []))
    ↔ (Matches (dynamic_route none (codes "/u/:id/*rest") greet) (request (codes "/u/7/a/b"))
        × ((codes "id", codes "7") ∷ (codes "rest", codes "a/b") ∷ []
            ≡ bound (dynamic_route none (codes "/u/:id/*rest") greet) (request (codes "/u/7/a/b"))))
match_dynamic_route-bound_example =
    match_dynamic_route-bound (dynamic_route none (codes "/u/:id/*rest") greet)
      (request (codes "/u/7/a/b")) ((codes "id", codes "7") ∷ (codes "rest", codes "a/b") ∷ [])

dispatch_route-candidates_example :
    dispatch_route router (request (codes "/u/7/a"))
    ≡ serve router (candidates router (request (codes "/u/7/a")))
dispatch_route-candidates_example = dispatch_route-candidates router (request (codes "/u/7/a"))

dispatch-dispatch_route_example :
    (dispatch plain (request (codes "/boom"))
      ≡ serve_bare (candidates plain (request (codes "/boom"))))
    × (dispatch_route plain (request (codes "/boom"))
        ≡ safe none
            (request (codes "/boom"))
            (serve_bare (candidates plain (request (codes "/boom")))))
unfolding handle new_router
dispatch-dispatch_route_example =
    dispatch-dispatch_route plain (request (codes "/boom")) (refl, refl, refl)

dispatch-Returns_example : Returns (dispatch guarded (request (codes "/hi")))
dispatch-Returns_example =
    dispatch-Returns guarded on_error (request (codes "/hi")) refl (λ req e. (ok e, refl))

routes-register_all_example :
    (method_route (register_all calls new_router) (request (codes "/hi"))
      ≡ latest (some get) (strip_query (codes "/hi")) calls none)
    × (any_route (register_all calls new_router) (request (codes "/hi"))
        ≡ latest none (strip_query (codes "/hi")) calls none)
    × ((register_all calls new_router).dynamic_routes ≡ dynamic_of calls)
routes-register_all_example = routes-register_all calls (request (codes "/hi"))
