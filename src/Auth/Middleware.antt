-- ===== src/Auth/Middleware.antt =====
-- internal/auth/middleware.go. A middleware either lets the request go on with a context or ends it
-- with a status and an error. `parse` is `ParseSession` of internal/auth/oidc.go.
pub mod Access
use Prim.Native.String.{len, slice}
use text.Mathlib.Text.{starts_with}
use gslb.Prelude.{
  ℕ, ◌-◌, String, Bool, true, false, ◌&&◌, ◌||◌, Option, none, some, List, [], ◌∷◌, leb, str_eq,
  if◌then◌else◌,
}
use gslb.Types.{Session, Backend}
use gslb.Result.{Result, ok, err}
use gslb.Store.{SessionStore, ConfigRoleStore, BackendStore}
use gslb.Auth.Oidc.{validate_session, has_role}

-- What the middlewares read of a request: the cookie with the configured name, the header and the
-- `:id` of the path.
pub record Request : Type 0 where
  pub path : String
  pub cookie : Option String
  pub authorization : String
  pub id : String

-- The keys "session", "userID" and "userRoles" of the gin context, which are set together.
abbrev pub Context : Type 0
Context = Option Session

pub data Outcome : Type 0 where
  next : Context → Outcome
  abort : ℕ → String → Outcome

-- `s` ends in `t`.
abbrev pub has_suffix : String → String → Bool
has_suffix s t = leb (len t) (len s) && str_eq (slice s (len s - len t) (len s)) t

unfoldable pub should_skip_auth : String → Bool
should_skip_auth path =
    str_eq path "/health"
    || str_eq path "/ready"
    || str_eq path "/"
    || starts_with path "/api/v1/auth/login"
    || starts_with path "/api/v1/auth/callback"
    || starts_with path "/api/v1/auth/logout"
    || starts_with path "/assets/"
    || has_suffix path ".html"

abbrev pub bearer_token : String → String
bearer_token header = if starts_with header "Bearer " then slice header 7 (len header) else ""

-- The cookie, and the header where there is none or an empty one.
unfoldable pub get_token : Request → String
get_token req = elim req.cookie [
  | none ↦ bearer_token req.authorization
  | some value ↦ if str_eq value "" then bearer_token req.authorization else value
]

abbrev pub user_id_of : Context → String
user_id_of none = ""
user_id_of (some session) = session.user_id

abbrev pub roles_of : Context → List String
roles_of none = []
roles_of (some session) = session.roles

-- Some required role is one of the user's.
abbrev pub holds_any : List String → List String → Bool
holds_any [] roles = false
holds_any (required ∷ rest) roles = has_role required roles || holds_any rest roles

unfoldable pub require_role : List String → Context → Outcome
require_role required none = abort 403 "access denied"
require_role required (some session) =
    if holds_any required session.roles
    then next (some session)
    else abort 403 "insufficient permissions"

abbrev pub decide_access : Context → Result Bool → Outcome
decide_access ctx (ok true) = next ctx
decide_access ctx (ok false) = abort 403 "access denied to this configuration"
decide_access ctx (err e) = abort 403 "access denied to this configuration"

module _ {W : Type 0} (parse : String → Result Session) (sessions : SessionStore W) where
  authenticate : Result Session → W → Outcome × W
  authenticate (err e) w = (abort 401 "invalid or expired session", w)
  authenticate (ok session) w =
      let checked = validate_session sessions session w in
      elim checked.0 [
        | ok _ ↦ (next (some session), checked.1)
        | err e ↦ (abort 401 "session revoked", checked.1)
      ]

  -- `Middleware`
  unfoldable pub middleware : Request → Context → W → Outcome × W
  unfolding authenticate
  middleware req ctx w =
      if should_skip_auth req.path
      then (next ctx, w)
      else if str_eq (get_token req) ""
      then (abort 401 "authentication required", w)
      else authenticate (parse (get_token req)) w

module _ {W : Type 0} (access : ConfigRoleStore W) where
  unfoldable pub require_config_access : Request → Context → W → Outcome × W
  require_config_access req ctx w =
      let asked = access.can_access (user_id_of ctx) req.id w in
      if has_role "admin" (roles_of ctx)
      then (next ctx, w)
      else (decide_access ctx asked.0, asked.1)

  backend_access : Context → Result Backend → W → Outcome × W
  backend_access ctx (err e) w = (abort 404 "backend not found", w)
  backend_access ctx (ok backend) w =
      let asked = access.can_access (user_id_of ctx) backend.config_id w in
      (decide_access ctx asked.0, asked.1)

  unfoldable pub require_backend_config_access :
      BackendStore W → Request → Context → W → Outcome × W
  unfolding backend_access
  require_backend_config_access backends req ctx w =
      let found = backends.get_backend req.id w in
      if has_role "admin" (roles_of ctx) then (next ctx, w) else backend_access ctx found.0 found.1

unfoldable pub session_from_context : Context → Option Session
session_from_context ctx = ctx
