-- ===== src/Handlers/Routes/Guarded.antt =====
-- internal/handlers/routes.go: the middlewares of each route of the API.
use gslb.Prelude.{
  ℕ, zero, suc, String, Bool, true, false, not, ◌&&◌, ◌≡◌, refl, some, List, [], ◌∷◌, get_elem?,
  arith,
}
use gslb.Auth.Middleware.{should_skip_auth}
use gslb.Handlers.Routes.{Guard, Piece, Route, api_routes}
use gslb.Handlers.Routes.Gate.{path_of}

-- After `auth.Middleware` a route has role guards and at most one guard of the access, which is the last.
abbrev pub asks_once : List Guard → Bool
asks_once [] = true
asks_once (Guard.role required ∷ rest) = asks_once rest
asks_once (Guard.config_access ∷ []) = true
asks_once (Guard.backend_access ∷ []) = true
asks_once _ = false

-- The path needs no session, or it may be one that needs none.
abbrev pub may_skip : List Piece → Bool
may_skip (Piece.text t ∷ []) = should_skip_auth t
may_skip _ = true

-- A route behind `auth.Middleware` that has a further guard, or a path that needs a session.
abbrev pub is_guarded : List Piece → List Guard → Bool
is_guarded path (Guard.cors ∷ Guard.global_limit ∷ Guard.session ∷ []) = not (may_skip path)
is_guarded path (Guard.cors ∷ Guard.global_limit ∷ Guard.session ∷ g ∷ rest) = asks_once (g ∷ rest)
is_guarded path _ = false

abbrev all_guarded : List Route → Bool
all_guarded [] = true
all_guarded (route ∷ rest) = is_guarded route.path route.guards && all_guarded rest

api_routes-guarded : all_guarded api_routes ≡ true
unfolding api_routes should_skip_auth
api_routes-guarded = refl

first_guarded :
    (r : Route) (rest : List Route)
    → all_guarded (r ∷ rest) ≡ true
    → is_guarded r.path r.guards ≡ true
first_guarded r rest g = ground (arith, g)

get_elem?-guarded :
    (i : ℕ) (routes : List Route) (route : Route)
    → all_guarded routes ≡ true
    → get_elem? routes i ≡ some route
    → is_guarded route.path route.guards ≡ true
get_elem?-guarded i [] route g h = cc
get_elem?-guarded zero (r ∷ rest) route g h =
    let same : route ≡ r = cc in rw same (first_guarded r rest g)
get_elem?-guarded (suc i) (r ∷ rest) route g h =
    get_elem?-guarded i rest route (ground (arith, g)) h

pub api_route-guarded :
    (i : ℕ) (route : Route)
    → get_elem? api_routes i ≡ some route
    → is_guarded route.path route.guards ≡ true
api_route-guarded i route found = get_elem?-guarded i api_routes route api_routes-guarded found

-- A path that is let through without a session is one that may be.
pub skips-may_skip :
    (params : String → String) (path : List Piece)
    → should_skip_auth (path_of params path) ≡ true
    → may_skip path ≡ true
unfolding path_of
skips-may_skip params [] h = refl
skips-may_skip params (Piece.text t ∷ []) h = h
skips-may_skip params (Piece.param name ∷ []) h = refl
skips-may_skip params (Piece.text t ∷ q ∷ rest) h = refl
skips-may_skip params (Piece.param name ∷ q ∷ rest) h = refl
