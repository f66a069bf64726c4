-- ===== src/Handlers/Routes/Gate.antt =====
-- internal/handlers/routes.go: what of a request comes through the middlewares of a route, over the SQL
-- database; CORS of internal/handlers/handlers.go. Which route a request takes is gin's: the route is
-- given, with the values of the parameters of its path. `parse` is ParseSession.
use Prim.Native.String.{◌++◌}
use gslb.Prelude.{
  ℕ, String, Bool, true, false, ◌||◌, List, [], ◌∷◌, str_eq, none, some, Option, if◌then◌else◌,
}
use gslb.Types.{Session}
use gslb.Result.{Result}
use gslb.Store.Sessions.{Sessions, session_store}
use gslb.Auth.Middleware.{
  Request, Context, Outcome, next, abort, middleware, require_role, require_config_access,
  require_backend_config_access,
}
use gslb.Handlers.RateLimiter.{RateLimiter, new_rate_limiter, allow}
use gslb.Handlers.Site.{Site, Server, site_handlers}
use gslb.Handlers.Routes.{Method, Guard, Piece, Route}

pub record HttpRequest : Type 0 where
  pub method : Method
  pub origin : String
  pub host : String
  pub client_ip : String
  pub cookie : Option String
  pub authorization : String
  pub params : String → String

-- The state that the middlewares read and change.
pub record Hall : Type 0 where
  pub site : Site
  pub sessions : Sessions
  pub global_limiter : RateLimiter
  pub auth_limiter : RateLimiter

-- A minute, in nanoseconds.
abbrev minute : ℕ
minute = 60000000000

-- The limiters that `RegisterRoutes` makes.
unfoldable pub new_hall : Site → Sessions → Hall
new_hall site sessions = record {
  site = site;
  sessions = sessions;
  global_limiter = new_rate_limiter 100 minute;
  auth_limiter = new_rate_limiter 10 minute;
}

abbrev pub piece_text : (String → String) → Piece → String
piece_text params (Piece.text t) = t
piece_text params (Piece.param name) = params name

-- The path that a pattern stands for.
unfoldable pub path_of : (String → String) → List Piece → String
path_of params [] = ""
path_of params (p ∷ []) = piece_text params p
path_of params (p ∷ q ∷ rest) = piece_text params p ++ path_of params (q ∷ rest)

abbrev pub visit : Route → HttpRequest → Request
visit route req = record {
  path = path_of req.params route.path;
  cookie = req.cookie;
  authorization = req.authorization;
  id = req.params "id";
}

-- The header Access-Control-Allow-Origin of the response.
unfoldable pub allow_origin : HttpRequest → Option String
allow_origin req =
    let is_same_origin =
      str_eq req.origin ""
      || str_eq req.origin ("http://" ++ req.host)
      || str_eq req.origin ("https://" ++ req.host) in
    let is_dev_origin =
      str_eq req.origin "http://localhost:5173" || str_eq req.origin "http://localhost:3000" in
    if is_same_origin || is_dev_origin
    then (if str_eq req.origin "" then none else some req.origin)
    else none

abbrev pub is_options : Method → Bool
is_options Method.options = true
is_options _ = false

-- `RateLimit`
abbrev pub rate_limit : Bool → Context → Outcome
rate_limit true ctx = next ctx
rate_limit false ctx = abort 429 "Rate limit exceeded"

module _ (server : Server) (parse : String → Result Session) (req : HttpRequest) where
  unfoldable pub pass : Guard → Request → Context → Hall → Outcome × Hall
  pass Guard.cors v ctx w = (if is_options req.method then abort 204 "" else next ctx, w)
  pass Guard.global_limit v ctx w =
      let allowed = allow server.now req.client_ip w.global_limiter in
      (rate_limit allowed.0 ctx, record w { global_limiter = allowed.1 })
  pass Guard.auth_limit v ctx w =
      let allowed = allow server.now req.client_ip w.auth_limiter in
      (rate_limit allowed.0 ctx, record w { auth_limiter = allowed.1 })
  pass Guard.session v ctx w =
      let checked = middleware parse (session_store server.now) v ctx w.sessions in
      (checked.0, record w { sessions = checked.1 })
  pass (Guard.role required) v ctx w = (require_role required ctx, w)
  pass Guard.config_access v ctx w =
      let checked = require_config_access (site_handlers server).config_roles v ctx w.site in
      (checked.0, record w { site = checked.1 })
  pass Guard.backend_access v ctx w =
      let checked =
        require_backend_config_access (site_handlers server).config_roles
          (site_handlers server).store.backends v ctx w.site in
      (checked.0, record w { site = checked.1 })

  -- The middlewares in their order; the first that aborts ends the request.
  unfoldable pub pass_all : List Guard → Request → Context → Hall → Outcome × Hall
  pass_all [] v ctx w = (next ctx, w)
  pass_all (g ∷ rest) v ctx w =
      let passed = pass g v ctx w in
      elim passed.0 [
        | next later ↦ pass_all rest v later passed.1
        | abort status text ↦ (abort status text, passed.1)
      ]

  -- A request that takes the route: `next`, with the context of the handler, where it reaches it.
  unfoldable pub serve_route : Route → Hall → Outcome × Hall
  serve_route route w = pass_all route.guards (visit route req) none w
