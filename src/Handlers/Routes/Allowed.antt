-- ===== src/Handlers/Routes/Allowed.antt =====
-- internal/handlers/routes.go: who reaches the handlers of the group `api`, where OIDC is enabled.
use gslb.Prelude.{
  ℕ, String, true, false, ◌≡◌, refl, sym, ◌⊎◌, inl, inr, Bool-cases, none, some, List, [], ◌∷◌, Any,
  All, get_elem?, arith,
}
use mathlib.Core.Path.{subst}
use gslb.Types.{Session, Backend}
use gslb.Result.{Result, ok, Result-cases}
use gslb.Store.Access.{can_access}
use gslb.Store.Sessions.{Sessions, session_store}
use gslb.Auth.Oidc.{has_role}
use gslb.Auth.Middleware.{
  Request, Context, Outcome, next, abort, should_skip_auth, get_token, holds_any, middleware,
  require_role, require_config_access, require_backend_config_access,
}
use gslb.Auth.Middleware.Access.{IsUnrevoked, middleware-IsUnrevoked, holds_any-Any}
use gslb.Handlers.RateLimiter.{RateLimiter, allow}
use gslb.Handlers.Site.{Server, site_handlers}
use gslb.Handlers.Routes.{Guard, Piece, Route, api_routes}
use gslb.Handlers.Routes.Guarded.{asks_once, is_guarded, api_route-guarded, skips-may_skip}
use gslb.Store.Access.Members.{is_member, can_access-none}
use gslb.Handlers.Routes.Gate.{
  HttpRequest, Hall, path_of, visit, is_options, pass, pass_all, serve_route,
}

Outcome-cases :
    (o : Outcome)
    → ((ctx : Context) × (o ≡ next ctx))
      ⊎ ((status : ℕ) × (text : String) × (o ≡ abort status text))
Outcome-cases (next ctx) = inl (ctx, refl)
Outcome-cases (abort status text) = inr (status, text, refl)

module _ (server : Server) (parse : String → Result Session) (req : HttpRequest) where
  -- What a guard lets through: a request with a session, in the state before the request.
  abbrev pub Lets : Request → Hall → Session → Guard → Type 0
  Lets v w s Guard.cors = is_options req.method ≡ false
  Lets v w s Guard.global_limit = (allow server.now req.client_ip w.global_limiter).0 ≡ true
  Lets v w s Guard.auth_limit = (allow server.now req.client_ip w.auth_limiter).0 ≡ true
  Lets v w s Guard.session = IsUnrevoked (session_store server.now) w.sessions s
  Lets v w s (Guard.role required) = Any (λ role. Any (λ r. r ≡ role) s.roles) required
  Lets v w s Guard.config_access =
      (has_role "admin" s.roles ≡ true) ⊎ ((can_access s.user_id v.id w.site.roles).0 ≡ ok true)
  Lets v w s Guard.backend_access =
      (has_role "admin" s.roles ≡ true)
      ⊎ ((b : Backend) × (((site_handlers server).store.backends.get_backend v.id w.site).0 ≡ ok b)
          × ((can_access s.user_id b.config_id w.site.roles).0 ≡ ok true))

  asked-Lets :
      (rest : List Guard) (v : Request) (s : Session) (after : Context) (w w' : Hall)
      (rl : RateLimiter) (sessions : Sessions)
      → asks_once rest ≡ true
      → pass_all server parse req rest v
          (some s)
          (record w { global_limiter = rl; sessions = sessions })
        ≡ (next after, w')
      → (after ≡ some s) × All (Lets v w s) rest
  unfolding pass_all pass require_role require_config_access require_backend_config_access
  asked-Lets [] v s after w w' rl sessions once h = ground (arith, h)
  asked-Lets (Guard.role required ∷ rest) v s after w w' rl sessions once h =
      elim (Bool-cases (holds_any required s.roles)) [
        | inl held ↦
            let (same, others) =
              asked-Lets rest v s after w w' rl sessions once (ground (arith, h, held)) in
            (same, ((holds_any-Any required s.roles).0 held, others))
        | inr lacking ↦ absurd (ground (arith, h, lacking))
      ]
  asked-Lets (Guard.config_access ∷ []) v s after w w' rl sessions once h = ground (arith, h)
  asked-Lets (Guard.config_access ∷ g ∷ rest) v s after w w' rl sessions once h = cc
  asked-Lets (Guard.backend_access ∷ []) v s after w w' rl sessions once h =
      elim (Bool-cases (has_role "admin" s.roles)) [
        | inl admin ↦ ground (arith, h, admin)
        | inr n ↦
            elim (Result-cases ((site_handlers server).store.backends.get_backend v.id w.site).0) [
              | inl (b, e) ↦
                  let facts : (after ≡ some s)
                      × ((can_access s.user_id b.config_id w.site.roles).0 ≡ ok true) =
                    ground (arith, h, n, e) in
                  (facts.0, (inr (b, e, facts.1), tt))
              | inr (x, e) ↦ absurd (ground (arith, h, n, e))
            ]
      ]
  asked-Lets (Guard.backend_access ∷ g ∷ rest) v s after w w' rl sessions once h = cc
  asked-Lets (Guard.cors ∷ rest) v s after w w' rl sessions once h = cc
  asked-Lets (Guard.global_limit ∷ rest) v s after w w' rl sessions once h = cc
  asked-Lets (Guard.auth_limit ∷ rest) v s after w w' rl sessions once h = cc
  asked-Lets (Guard.session ∷ rest) v s after w w' rl sessions once h = cc

  -- Without a session a guard after `auth.Middleware` lets nothing through.
  asked-none :
      (g : Guard) (rest : List Guard) (v : Request) (after : Context) (w w' : Hall)
      → asks_once (g ∷ rest) ≡ true
      → is_member "" w.site.roles.rows.user_roles ≡ false
      → pass_all server parse req (g ∷ rest) v none w ≡ (next after, w')
      → ⊥
  unfolding pass_all pass require_role require_config_access require_backend_config_access
  asked-none (Guard.role required) rest v after w w' once nobody h = ground (arith, h)
  asked-none Guard.config_access rest v after w w' once nobody h =
      can_access-none "" v.id w.site.roles nobody (ground (arith, h))
  asked-none Guard.backend_access rest v after w w' once nobody h =
      elim (Result-cases ((site_handlers server).store.backends.get_backend v.id w.site).0) [
        | inl (b, e) ↦ can_access-none "" b.config_id w.site.roles nobody (ground (arith, h, e))
        | inr (x, e) ↦ ground (arith, h, e)
      ]
  asked-none Guard.cors rest v after w w' once nobody h = cc
  asked-none Guard.global_limit rest v after w w' once nobody h = cc
  asked-none Guard.auth_limit rest v after w w' once nobody h = cc
  asked-none Guard.session rest v after w w' once nobody h = cc

  -- The state behind the limiter, and behind `auth.Middleware`.
  abbrev limited : Hall → Hall
  limited w = record w { global_limiter = (allow server.now req.client_ip w.global_limiter).1 }

  abbrev checked : Request → Hall → Outcome × Sessions
  checked v w = middleware parse (session_store server.now) v none w.sessions

  -- The later middlewares let a request through that `auth.Middleware` has given a context.
  abbrev Asks : List Guard → Request → Context → Hall → Hall → Context → Type 0
  Asks rest v after w w' ctx =
      pass_all server parse req rest v ctx (record (limited w) { sessions = (checked v w).1 })
      ≡ (next after, w')

  front-passed :
      (rest : List Guard) (v : Request) (after : Context) (w w' : Hall)
      → pass_all server parse req (Guard.cors ∷ Guard.global_limit ∷ Guard.session ∷ rest) v none w
        ≡ (next after, w')
      → (is_options req.method ≡ false)
        × ((allow server.now req.client_ip w.global_limiter).0 ≡ true)
        × ((later : Context) × ((checked v w).0 ≡ next later) × Asks rest v after w w' later)
  unfolding pass_all pass
  front-passed rest v after w w' h = elim (Outcome-cases (checked v w).0) [
    | inl (later, e) ↦
        (ground (arith, h, e), ground (arith, h, e), (later, e, ground (arith, h, e)))
    | inr (status, text, e) ↦ absurd (ground (arith, h, e))
  ]

  skipped-none :
      (v : Request) (w : Hall) (later : Context)
      → should_skip_auth v.path ≡ true
      → (checked v w).0 ≡ next later
      → later ≡ none
  unfolding middleware
  skipped-none v w later skipped e = ground (arith, skipped, e)

  -- Behind `CORS`, the limiter and `auth.Middleware`, with a path that needs a session.
  unskipped-Lets :
      (rest : List Guard) (v : Request) (after : Context) (w w' : Hall)
      → asks_once rest ≡ true
      → should_skip_auth v.path ≡ false
      → pass_all server parse req (Guard.cors ∷ Guard.global_limit ∷ Guard.session ∷ rest) v none w
        ≡ (next after, w')
      → (s : Session) × (parse (get_token v) ≡ ok s)
        × (after ≡ some s)
        × All (Lets v w s) (Guard.cors ∷ Guard.global_limit ∷ Guard.session ∷ rest)
  unskipped-Lets rest v after w w' once n h =
      let (origin, limit, (later, passed, asked)) = front-passed rest v after w w' h in
      let (s, parsed, same, live) =
        middleware-IsUnrevoked parse (session_store server.now) v none later w.sessions n passed in
      let (kept, others) =
        asked-Lets rest v s after w w' (allow server.now req.client_ip w.global_limiter).1
          (checked v w).1 once (subst (Asks rest v after w w') same asked) in
      (s, parsed, kept, (origin, (limit, (live, others))))

  guarded-Lets :
      (path : List Piece) (rest : List Guard) (v : Request) (after : Context) (w w' : Hall)
      → is_guarded path (Guard.cors ∷ Guard.global_limit ∷ Guard.session ∷ rest) ≡ true
      → v.path ≡ path_of req.params path
      → is_member "" w.site.roles.rows.user_roles ≡ false
      → pass_all server parse req (Guard.cors ∷ Guard.global_limit ∷ Guard.session ∷ rest) v none w
        ≡ (next after, w')
      → (s : Session) × (parse (get_token v) ≡ ok s)
        × (after ≡ some s)
        × All (Lets v w s) (Guard.cors ∷ Guard.global_limit ∷ Guard.session ∷ rest)
  guarded-Lets path [] v after w w' g p nobody h = elim (Bool-cases (should_skip_auth v.path)) [
    | inl skipped ↦ absurd (ground (arith, g, skips-may_skip req.params path (rw (sym p) skipped)))
    | inr n ↦ unskipped-Lets [] v after w w' refl n h
  ]
  guarded-Lets path (q ∷ rest) v after w w' g p nobody h =
      elim (Bool-cases (should_skip_auth v.path)) [
        | inl skipped ↦
            let (origin, limit, (later, passed, asked)) = front-passed (q ∷ rest) v after w w' h in
            absurd (
              asked-none q rest v after (record (limited w) { sessions = (checked v w).1 }) w' g
                nobody
                (subst (Asks (q ∷ rest) v after w w') (skipped-none v w later skipped passed)
                  asked))
        | inr n ↦ unskipped-Lets (q ∷ rest) v after w w' g n h
      ]

  checked-Lets :
      (path : List Piece) (guards : List Guard) (v : Request) (after : Context) (w w' : Hall)
      → is_guarded path guards ≡ true
      → v.path ≡ path_of req.params path
      → is_member "" w.site.roles.rows.user_roles ≡ false
      → pass_all server parse req guards v none w ≡ (next after, w')
      → (s : Session) × (parse (get_token v) ≡ ok s) × (after ≡ some s) × All (Lets v w s) guards
  checked-Lets path (Guard.cors ∷ Guard.global_limit ∷ Guard.session ∷ []) v after w w' g p nobody
        h =
      guarded-Lets path [] v after w w' g p nobody h
  checked-Lets path (Guard.cors ∷ Guard.global_limit ∷ Guard.session ∷ q ∷ rest) v after w w' g p
        nobody h =
      guarded-Lets path (q ∷ rest) v after w w' g p nobody h
  checked-Lets path _ v after w w' g p nobody h = cc

  -- With OIDC enabled, whatever the request and the values of the parameters in its path: it reaches the
  -- handler of a route of the API only with a token that parses to a session that has no id, or whose
  -- record is in the database without a time of revocation, and with this session as its context. Every
  -- middleware of the route has let it through: for RequireRole the session has one of the roles, for
  -- RequireConfigAccess and RequireBackendConfigAccess the session is an admin's or the tables of the
  -- roles give its user access to the config, the one that the backend belongs to. So it is also for a
  -- path that shouldSkipAuth lets through, such as one that ends in ".html", as long as no row of the
  -- users' roles has the empty id.
  pub reached-Lets :
      (i : ℕ) (route : Route) (after : Context) (w w' : Hall)
      → get_elem? api_routes i ≡ some route
      → is_member "" w.site.roles.rows.user_roles ≡ false
      → serve_route server parse req route w ≡ (next after, w')
      → (s : Session) × (parse (get_token (visit route req)) ≡ ok s)
        × (after ≡ some s)
        × All (Lets (visit route req) w s) route.guards
  unfolding serve_route
  reached-Lets i route after w w' found nobody h =
      checked-Lets route.path route.guards (visit route req) after w w'
        (api_route-guarded i route found) refl nobody h
