-- ===== src/Examples/Routes.antt =====
-- internal/handlers/routes.go: a request with a session through the routes, and a logout.
use gslb.Prelude.{String, Option, some, ◌≡◌, refl, [], ◌∷◌, All, filter_by}
use gslb.Prelude.Dict.{lookup}
use gslb.Types.{Session}
use gslb.Result.{ok}
use gslb.Store.Sql.{statement}
use gslb.Store.Access.{count_users, count_access, can_access}
use gslb.Store.Sessions.{find_session, get_session_record}
use gslb.Auth.Oidc.{validate_session}
use gslb.Auth.Middleware.{next, should_skip_auth, get_token, middleware, require_config_access}
use gslb.Handlers.RateLimiter.{new_rate_limiter, allow, times_of}
use gslb.Handlers.Routes.{
  Method, Guard, Endpoint, Route, Piece, public_routes, auth_routes, api_routes, register_routes,
}
use gslb.Handlers.Routes.Gate.{
  HttpRequest, Hall, new_hall, path_of, visit, pass, pass_all, serve_route,
}
use gslb.Handlers.Routes.Allowed.{Lets, reached-Lets}
use gslb.Handlers.Routes.Writers.{granted-writes}
use gslb.Handlers.Logout.Served.{serve_logout, logged_out, serve_logout-frame}
use gslb.Examples.Server.{server, site}
use gslb.Examples.Sessions.{alice, database, parse}

abbrev hall : Hall
unfolding new_hall new_rate_limiter
hall = new_hall site database

abbrev request : HttpRequest
request = record {
  method = Method.put;
  origin = "";
  host = "gslb.example.com";
  client_ip = "127.0.0.1";
  cookie = some "token";
  authorization = "";
  params = λ name. "c";
}

abbrev update : Route
update = record {
  method = Method.put;
  path = Piece.text "/api/v1/configs/" ∷ Piece.param "id" ∷ Piece.text "" ∷ [];
  guards = Guard.cors ∷ Guard.global_limit ∷ Guard.session ∷ Guard.config_access ∷ [];
  endpoint = Endpoint.update_config;
}

reached-Lets_example :
    (s : Session) × (parse (get_token (visit update request)) ≡ ok s)
    × (some alice ≡ some s)
    × All (Lets server parse request (visit update request) hall s) update.guards
unfolding api_routes serve_route pass_all pass middleware get_token should_skip_auth path_of allow
    times_of validate_session get_session_record statement find_session require_config_access
    can_access count_access count_users hall filter_by lookup
reached-Lets_example =
    reached-Lets server parse request 6 update (some alice) hall
      (serve_route server parse request update hall).1 refl refl refl

granted-writes_example : (serve_route server parse request update hall).0 ≡ next (some alice)
unfolding api_routes middleware get_token should_skip_auth path_of allow times_of validate_session
    get_session_record statement find_session can_access count_access count_users hall filter_by
    lookup
granted-writes_example =
    granted-writes server parse request 6 update alice hall refl refl refl refl refl refl

abbrev sign_off : HttpRequest
sign_off = record request { method = Method.post; origin = "https://gslb.example.com" }

abbrev logout_route : Route
logout_route = record {
  method = Method.post;
  path = Piece.text "/api/v1/auth/logout" ∷ [];
  guards = Guard.cors ∷ Guard.global_limit ∷ Guard.auth_limit ∷ [];
  endpoint = Endpoint.logout;
}

abbrev link : String → String → Option String
link url origin = some "https://provider.example.com/end"

serve_logout-frame_example :
    ((serve_logout server parse link sign_off "session" "https://provider.example.com" logout_route
        hall).0
      ≡ some (logged_out server parse link sign_off "session" "https://provider.example.com"))
    × ((serve_logout server parse link sign_off "session" "https://provider.example.com"
          logout_route hall).1.sessions
        ≡ database)
unfolding register_routes public_routes auth_routes allow times_of hall filter_by lookup
serve_logout-frame_example =
    serve_logout-frame server parse link sign_off "session" "https://provider.example.com" 4
      logout_route hall refl refl
