-- ===== src/Handlers/Routes/Writers.antt =====
-- internal/handlers/routes.go: who may change a config.
use gslb.Prelude.{
  ℕ, zero, suc, String, Bool, true, false, not, ◌&&◌, ◌||◌, ◌≡◌, refl, sym, some, none, List, [],
  ◌∷◌, get_elem?, arith,
}
use gslb.Types.{Session}
use gslb.Result.{Result, ok}
use gslb.Store.Access.{can_access}
use gslb.Store.Sessions.{session_store}
use gslb.Auth.Middleware.{next, middleware, require_config_access}
use gslb.Handlers.RateLimiter.{allow}
use gslb.Handlers.Site.{Server}
use gslb.Handlers.Routes.{Guard, Endpoint, Route, api_routes}
use gslb.Handlers.Routes.Gate.{HttpRequest, Hall, visit, is_options, pass, pass_all, serve_route}

-- The handlers that write to a config or to what belongs to it, less those of DELETE and of its roles.
abbrev pub writes_config : Endpoint → Bool
writes_config Endpoint.update_config = true
writes_config Endpoint.add_backend = true
writes_config Endpoint.configure_health_check = true
writes_config Endpoint.configure_dns_provider = true
writes_config _ = false

abbrev asks_access : List Guard → Bool
asks_access (Guard.cors ∷ Guard.global_limit ∷ Guard.session ∷ Guard.config_access ∷ []) = true
asks_access _ = false

abbrev writes_ask_access : List Route → Bool
writes_ask_access [] = true
writes_ask_access (route ∷ rest) =
    (not (writes_config route.endpoint) || asks_access route.guards) && writes_ask_access rest

api_routes-ask_access : writes_ask_access api_routes ≡ true
unfolding api_routes
api_routes-ask_access = refl

first-asks_access :
    (r : Route) (rest : List Route)
    → writes_ask_access (r ∷ rest) ≡ true
    → writes_config r.endpoint ≡ true
    → asks_access r.guards ≡ true
first-asks_access r rest a h = ground (arith, a, h)

get_elem?-asks_access :
    (i : ℕ) (routes : List Route) (route : Route)
    → writes_ask_access routes ≡ true
    → get_elem? routes i ≡ some route
    → writes_config route.endpoint ≡ true
    → asks_access route.guards ≡ true
get_elem?-asks_access i [] route a h e = cc
get_elem?-asks_access zero (r ∷ rest) route a h e =
    let same : route ≡ r = cc in rw same (first-asks_access r rest a (rw (sym same) e))
get_elem?-asks_access (suc i) (r ∷ rest) route a h e =
    get_elem?-asks_access i rest route (ground (arith, a)) h e

module _ (server : Server) (parse : String → Result Session) (req : HttpRequest) where
  asks_access-passes :
      (guards : List Guard) (route : Route) (s : Session) (w : Hall)
      → asks_access guards ≡ true
      → is_options req.method ≡ false
      → (allow server.now req.client_ip w.global_limiter).0 ≡ true
      → (middleware parse (session_store server.now) (visit route req) none w.sessions).0
        ≡ next (some s)
      → (can_access s.user_id (req.params "id") w.site.roles).0 ≡ ok true
      → (pass_all server parse req guards (visit route req) none w).0 ≡ next (some s)
  unfolding pass_all pass require_config_access
  asks_access-passes (Guard.cors ∷ Guard.global_limit ∷ Guard.session ∷ Guard.config_access ∷ [])
        route s w a m l p g =
      ground (arith, m, l, p, g)
  asks_access-passes _ route s w a m l p g = cc

  -- Whatever roles the session has, also "viewer" alone: a request to update a config, to add a backend
  -- to it, or to configure its health check or its DNS provider, reaches the handler when the limiter and
  -- auth.Middleware let it through and the tables of the roles give the user access to the config.
  pub granted-writes :
      (i : ℕ) (route : Route) (s : Session) (w : Hall)
      → get_elem? api_routes i ≡ some route
      → writes_config route.endpoint ≡ true
      → is_options req.method ≡ false
      → (allow server.now req.client_ip w.global_limiter).0 ≡ true
      → (middleware parse (session_store server.now) (visit route req) none w.sessions).0
        ≡ next (some s)
      → (can_access s.user_id (req.params "id") w.site.roles).0 ≡ ok true
      → (serve_route server parse req route w).0 ≡ next (some s)
  unfolding serve_route
  granted-writes i route s w found e m l p g =
      asks_access-passes route.guards route s w
        (get_elem?-asks_access i api_routes route api_routes-ask_access found e) m l p g
