-- ===== src/Http/Router/Matching.antt =====
-- Matching a path with the pattern of a dynamic route (`match_dynamic_route` of http_server.hpp).
use faio.Base.{
  ℕ, ◌≤◌, ◌≡◌, ◌≢◌, refl, sym, ap, ◌∙◌, Bool, true, false, List, [], ◌∷◌, Option, none, some, arith,
  length, if◌then◌else◌, ◌==◌, ==→eq, get_or, ==_refl, ◌↔◌,
}
use faio.Http.Text.{Bytes, same, Table, emplace, same→eq, same_refl, same_ne}
use faio.Http.Types.{
  HttpMethod, get, post, put_method, delete, head, options, patch, connect, trace, HttpRequest,
}
use faio.Http.Router.{
  DynamicRoute, method_index, same_method, match_segments, add_wildcard, enough,
  match_dynamic_route, split_path, join_path_segments,
}

-- A segment of a path fits one of a pattern: a `:` with a name takes any, another one takes itself.
abbrev pub FitsAs : Bool → ℕ → Bytes → Bytes → Type 0
FitsAs true c name actual = name ≢ []
FitsAs false c name actual = (c ∷ name) ≡ actual

abbrev pub Fits : Bytes → Bytes → Type 0
Fits [] actual = [] ≡ actual
Fits (c ∷ name) actual = FitsAs (c == b':') c name actual

-- Each segment of the pattern has one that fits it.
abbrev pub FitAll : List Bytes → List Bytes → Type 0
FitAll [] actuals = Unit
FitAll (pattern ∷ patterns) [] = ⊥
FitAll (pattern ∷ patterns) (actual ∷ actuals) = Fits pattern actual × FitAll patterns actuals

abbrev pub bind_as : Bool → Bytes → Bytes → Table Bytes → Table Bytes
bind_as true name actual params = emplace name actual params
bind_as false name actual params = params

-- What a segment binds, and what the pattern does.
abbrev pub bind : Bytes → Bytes → Table Bytes → Table Bytes
bind [] actual params = params
bind (c ∷ name) actual params = bind_as (c == b':') name actual params

abbrev pub bindings : List Bytes → List Bytes → Table Bytes → Table Bytes
bindings [] actuals params = params
bindings (pattern ∷ patterns) [] params = params
bindings (pattern ∷ patterns) (actual ∷ actuals) params =
    bindings patterns actuals (bind pattern actual params)

none_some {ℓ κ} : {A : Type ℓ} {B : Type κ} {a : A} → none ≡ some a → B
none_some h = ground (arith, h)

-- Of a conditional that gives something, what its test says.
if_some {ℓ} :
    {A : Type ℓ} (b : Bool) (o : Option A) (a : A)
    → (if b then o else none) ≡ some a
    → (b ≡ true) × (o ≡ some a)
if_some true o a h = (refl, h)
if_some false o a h = none_some h

if_none {ℓ} :
    {A : Type ℓ} (b : Bool) (o : Option A) (a : A)
    → (if b then none else o) ≡ some a
    → (b ≡ false) × (o ≡ some a)
if_none false o a h = (refl, h)
if_none true o a h = none_some h

module _ (patterns actuals : List Bytes) where
  -- A round of the loop for a segment that fits, and for one of which the loop goes on.
  match_segments_step :
      (pattern actual : Bytes) (params : Table Bytes)
      → Fits pattern actual
      → match_segments (pattern ∷ patterns) (actual ∷ actuals) params
        ≡ match_segments patterns actuals (bind pattern actual params)
  match_segments_step [] actual params h = rw (sym h) refl
  match_segments_step (c ∷ name) actual params h = go (c == b':') h
    where
      go :
          (b : Bool)
          → FitsAs b c name actual
          → (if b
              then (if same name []
                  then none
                  else match_segments patterns actuals (emplace name actual params))
              else (if same (c ∷ name) actual
                  then match_segments patterns actuals params
                  else none))
            ≡ match_segments patterns actuals (bind_as b name actual params)
      go true fit = rw (same_ne name [] fit) refl
      go false fit =
          ap (λ b. if b then match_segments patterns actuals params else none)
            (ap (same (c ∷ name)) (sym fit) ∙ same_refl (c ∷ name))

  match_segments_back :
      (pattern actual : Bytes) (params found : Table Bytes)
      → match_segments (pattern ∷ patterns) (actual ∷ actuals) params ≡ some found
      → Fits pattern actual
        × (match_segments patterns actuals (bind pattern actual params) ≡ some found)
  match_segments_back [] actual params found h =
      let both = if_some (same [] actual) (match_segments patterns actuals params) found h in
      (same→eq [] actual both.0, both.1)
  match_segments_back (c ∷ name) actual params found h = go (c == b':') h
    where
      go :
          (b : Bool)
          → (if b
              then (if same name []
                  then none
                  else match_segments patterns actuals (emplace name actual params))
              else (if same (c ∷ name) actual
                  then match_segments patterns actuals params
                  else none))
            ≡ some found
          → FitsAs b c name actual
            × (match_segments patterns actuals (bind_as b name actual params) ≡ some found)
      go true k =
          let bound = match_segments patterns actuals (emplace name actual params) in
          let both = if_none (same name []) bound found k in
          (λ e. ground (arith, both.0, ap (λ x. same x []) e), both.1)
      go false k =
          let rest = match_segments patterns actuals params in
          let both = if_some (same (c ∷ name) actual) rest found k in
          (same→eq (c ∷ name) actual both.0, both.1)

match_segments-FitAll :
    (patterns actuals : List Bytes) (params : Table Bytes)
    → FitAll patterns actuals
    → match_segments patterns actuals params ≡ some (bindings patterns actuals params)
match_segments-FitAll [] actuals params h = refl
match_segments-FitAll (pattern ∷ patterns) [] params h = absurd h
match_segments-FitAll (pattern ∷ patterns) (actual ∷ actuals) params h =
    match_segments_step patterns actuals pattern actual params h.0
    ∙ match_segments-FitAll patterns actuals (bind pattern actual params) h.1

FitAll-match_segments :
    (patterns actuals : List Bytes) (params found : Table Bytes)
    → match_segments patterns actuals params ≡ some found
    → FitAll patterns actuals
FitAll-match_segments [] actuals params found h = tt
FitAll-match_segments (pattern ∷ patterns) [] params found h = none_some h
FitAll-match_segments (pattern ∷ patterns) (actual ∷ actuals) params found h =
    let both = match_segments_back patterns actuals pattern actual params found h in
    (both.0, FitAll-match_segments patterns actuals (bind pattern actual params) found both.1)

abbrev pub AcceptsMethod : Option HttpMethod → HttpMethod → Type 0
AcceptsMethod none m = Unit
AcceptsMethod (some method) m = method ≡ m

-- A pattern that ends in a wildcard takes the segments that are left.
abbrev pub CountFits : Option Bytes → ℕ → ℕ → Type 0
CountFits none patterns actuals = actuals ≡ patterns
CountFits (some name) patterns actuals = patterns ≤ actuals

-- The route's method, if it has one, is the request's; the path has as many segments as the pattern, or at
-- least as many if the pattern ends in a wildcard; and each segment of the pattern has one that fits it.
abbrev pub Matches : DynamicRoute → HttpRequest → Type 0
Matches route req =
    AcceptsMethod route.method req.method
    × CountFits route.wildcard_name (length route.segments) (length (split_path req.path))
    × FitAll route.segments (split_path req.path)

abbrev pub bind_rest : Option Bytes → Bytes → Table Bytes → Table Bytes
bind_rest none rest params = params
bind_rest (some name) rest params = emplace name rest params

-- A parameter is bound to its segment, and the wildcard to the rest of the path; the first of two bindings
-- of a name stays.
abbrev pub bound : DynamicRoute → HttpRequest → Table Bytes
bound route req =
    bind_rest route.wildcard_name (join_path_segments (split_path req.path) (length route.segments))
      (bindings route.segments (split_path req.path) [])

abbrev all_methods : List HttpMethod
all_methods = get ∷ post ∷ put_method ∷ delete ∷ head ∷ options ∷ patch ∷ connect ∷ trace ∷ []

pub get_or-method_index : (m : HttpMethod) → get_or all_methods (method_index m) get ≡ m
get_or-method_index get = refl
get_or-method_index post = refl
get_or-method_index put_method = refl
get_or-method_index delete = refl
get_or-method_index head = refl
get_or-method_index options = refl
get_or-method_index patch = refl
get_or-method_index connect = refl
get_or-method_index trace = refl

pub method_index_inj : (m n : HttpMethod) → method_index m ≡ method_index n → m ≡ n
method_index_inj m n h =
    sym (get_or-method_index m) ∙ ap (λ i. get_or all_methods i get) h ∙ get_or-method_index n

AcceptsMethod→same :
    (o : Option HttpMethod) (m : HttpMethod) → AcceptsMethod o m → same_method o m ≡ true
AcceptsMethod→same none m h = refl
AcceptsMethod→same (some n) m h = rw h (==_refl (method_index m))

same→AcceptsMethod :
    (o : Option HttpMethod) (m : HttpMethod) → same_method o m ≡ true → AcceptsMethod o m
same→AcceptsMethod none m h = tt
same→AcceptsMethod (some n) m h = method_index_inj n m (==→eq (method_index n) (method_index m) h)

CountFits→enough :
    (o : Option Bytes) (patterns actuals : ℕ)
    → CountFits o patterns actuals
    → enough o patterns actuals ≡ true
CountFits→enough none patterns actuals h = ground (arith, h)
CountFits→enough (some name) patterns actuals h = ground (arith, h)

enough→CountFits :
    (o : Option Bytes) (patterns actuals : ℕ)
    → enough o patterns actuals ≡ true
    → CountFits o patterns actuals
enough→CountFits none patterns actuals h = ==→eq actuals patterns h
enough→CountFits (some name) patterns actuals h = ground (arith, h)

add_wildcard-some :
    (o : Option Bytes) (rest : Bytes) (params : Table Bytes)
    → add_wildcard o rest (some params) ≡ some (bind_rest o rest params)
add_wildcard-some none rest params = refl
add_wildcard-some (some name) rest params = refl

add_wildcard_back :
    (o : Option Bytes) (rest : Bytes) (r : Option (Table Bytes)) (params : Table Bytes)
    → add_wildcard o rest r ≡ some params
    → (found : Table Bytes) × (r ≡ some found)
add_wildcard_back o rest (some found) params h = (found, refl)
add_wildcard_back none rest none params h = none_some h
add_wildcard_back (some name) rest none params h = none_some h

match_dynamic_route-Matches :
    (route : DynamicRoute) (req : HttpRequest)
    → Matches route req
    → match_dynamic_route route req ≡ some (bound route req)
unfolding match_dynamic_route
match_dynamic_route-Matches route req h =
    rw
      (
        AcceptsMethod→same route.method req.method h.0,
        CountFits→enough route.wildcard_name (length route.segments) (length (split_path req.path))
            h.1,
        match_segments-FitAll route.segments (split_path req.path) [] h.2,
      )
      (add_wildcard-some route.wildcard_name
        (join_path_segments (split_path req.path) (length route.segments))
        (bindings route.segments (split_path req.path) []))

Matches-match_dynamic_route :
    (route : DynamicRoute) (req : HttpRequest) (params : Table Bytes)
    → match_dynamic_route route req ≡ some params
    → Matches route req
unfolding match_dynamic_route
Matches-match_dynamic_route route req params h =
    let actuals = split_path req.path in
    let rest = join_path_segments actuals (length route.segments) in
    let found = match_segments route.segments actuals [] in
    let first = if_some (same_method route.method req.method) _ params h in
    let second =
      if_some (enough route.wildcard_name (length route.segments) (length actuals)) _ params
        first.1 in
    let third = add_wildcard_back route.wildcard_name rest found params second.1 in
    (
      same→AcceptsMethod route.method req.method first.0,
      enough→CountFits route.wildcard_name (length route.segments) (length actuals) second.0,
      FitAll-match_segments route.segments actuals [] third.0 third.1,
    )

-- A dynamic route matches a request with some parameters if and only if the request's method and path fit
-- the route and the parameters are what the pattern binds.
pub match_dynamic_route-bound :
    (route : DynamicRoute) (req : HttpRequest) (params : Table Bytes)
    → (match_dynamic_route route req ≡ some params)
      ↔ (Matches route req × (params ≡ bound route req))
match_dynamic_route-bound route req params = (
  λ h.
      let fits = Matches-match_dynamic_route route req params h in
      (fits, some_inj (sym h ∙ match_dynamic_route-Matches route req fits)),
  λ h. match_dynamic_route-Matches route req h.0 ∙ ap some (sym h.1),
)
  where
    some_inj : {a b : Table Bytes} → some a ≡ some b → a ≡ b
    some_inj {a} e = ap (λ o. elim o [ none ↦ a | some x ↦ x ]) e
