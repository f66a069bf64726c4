-- ===== src/Handlers/Logout/Served.antt =====
-- internal/handlers/auth.go and internal/handlers/routes.go: a logout through its route.
use gslb.Prelude.{
  ℕ, zero, suc, String, Bool, true, false, not, ◌&&◌, ◌||◌, ◌≡◌, refl, sym, Option, some, none,
  List, [], ◌∷◌, get_elem?, str_eq, if◌then◌else◌, arith,
}
use gslb.Types.{Session}
use gslb.Result.{Result}
use gslb.Store.Sessions.{session_store}
use gslb.Auth.Middleware.{Outcome, next, abort, session_from_context}
use gslb.Handlers.RateLimiter.{allow}
use gslb.Handlers.Site.{Server}
use gslb.Handlers.Logout.{LogoutReply, revoke_session_of, logout}
use gslb.Handlers.Routes.{
  Guard, Endpoint, Route, public_routes, auth_routes, api_routes, register_routes,
}
use gslb.Handlers.Routes.Gate.{HttpRequest, Hall, visit, is_options, pass, pass_all, serve_route}

-- The routes of `Logout`.
abbrev pub is_logout : Endpoint → Bool
is_logout Endpoint.logout = true
is_logout _ = false

abbrev only_limits : List Guard → Bool
only_limits (Guard.cors ∷ Guard.global_limit ∷ Guard.auth_limit ∷ []) = true
only_limits _ = false

abbrev logouts_only_limited : List Route → Bool
logouts_only_limited [] = true
logouts_only_limited (route ∷ rest) =
    (not (is_logout route.endpoint) || only_limits route.guards) && logouts_only_limited rest

register_routes-only_limits : logouts_only_limited (register_routes true) ≡ true
unfolding register_routes public_routes auth_routes api_routes
register_routes-only_limits = refl

first-only_limits :
    (r : Route) (rest : List Route)
    → logouts_only_limited (r ∷ rest) ≡ true
    → is_logout r.endpoint ≡ true
    → only_limits r.guards ≡ true
first-only_limits r rest a h = ground (arith, a, h)

get_elem?-only_limits :
    (i : ℕ) (routes : List Route) (route : Route)
    → logouts_only_limited routes ≡ true
    → get_elem? routes i ≡ some route
    → is_logout route.endpoint ≡ true
    → only_limits route.guards ≡ true
get_elem?-only_limits i [] route a h e = cc
get_elem?-only_limits zero (r ∷ rest) route a h e =
    let same : route ≡ r = cc in rw same (first-only_limits r rest a (rw (sym same) e))
get_elem?-only_limits (suc i) (r ∷ rest) route a h e =
    get_elem?-only_limits i rest route (ground (arith, a)) h e

-- What the handler of the route answers, where the request reaches it, and the state after the request.
unfoldable pub reach_logout :
    Server
    → (String → String → Option String)
    → HttpRequest
    → String
    → String
    → Outcome × Hall
    → Option LogoutReply × Hall
reach_logout server link req cookie_name end_session_url (next ctx, w) =
    let done =
      logout (session_store server.now) link cookie_name end_session_url req.origin ctx
        w.sessions in
    (some done.0, record w { sessions = done.1 })
reach_logout server link req cookie_name end_session_url (abort status text, w) = (none, w)

module _ (server : Server) (parse : String → Result Session)
    (link : String → String → Option String) (req : HttpRequest)
    (cookie_name end_session_url : String) where
  -- A request that takes the route: `none` where a middleware ends it.
  unfoldable pub serve_logout : Route → Hall → Option LogoutReply × Hall
  serve_logout route w =
      reach_logout server link req cookie_name end_session_url
        (serve_route server parse req route w)

  -- The middlewares of the logout let the request on.
  abbrev pub reaches : Hall → Bool
  reaches w =
      not (is_options req.method)
      && (allow server.now req.client_ip w.global_limiter).0
      && (allow server.now req.client_ip w.auth_limiter).0

  abbrev pub logged_out : LogoutReply
  logged_out = record {
    cleared_cookie = cookie_name;
    logout_url = if str_eq end_session_url "" then none else link end_session_url req.origin;
  }

  only_limits-frame :
      (guards : List Guard) (route : Route) (w : Hall)
      → only_limits guards ≡ true
      → ((reach_logout server link req cookie_name end_session_url
            (pass_all server parse req guards (visit route req) none w)).0
          ≡ (if reaches w then some logged_out else none))
        × ((reach_logout server link req cookie_name end_session_url
              (pass_all server parse req guards (visit route req) none w)).1.sessions
            ≡ w.sessions)
  unfolding reach_logout pass_all pass logout revoke_session_of session_from_context
  only_limits-frame (Guard.cors ∷ Guard.global_limit ∷ Guard.auth_limit ∷ []) route w only =
      ground arith
  only_limits-frame _ route w only = cc

  -- With OIDC enabled, whatever the request, its token and the tables: a request to the route of the logout
  -- leaves the sessions of the database as they were, so that it revokes none. It is answered by the handler,
  -- which clears the cookie, exactly when it is no preflight and both limiters allow it.
  pub serve_logout-frame :
      (i : ℕ) (route : Route) (w : Hall)
      → get_elem? (register_routes true) i ≡ some route
      → is_logout route.endpoint ≡ true
      → ((serve_logout route w).0 ≡ (if reaches w then some logged_out else none))
        × ((serve_logout route w).1.sessions ≡ w.sessions)
  unfolding serve_logout serve_route
  serve_logout-frame i route w found e =
      only_limits-frame route.guards route w
        (get_elem?-only_limits i (register_routes true) route register_routes-only_limits found e)
