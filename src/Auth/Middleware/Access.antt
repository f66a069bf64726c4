-- ===== src/Auth/Middleware/Access.antt =====
-- internal/auth/middleware.go: which requests get through.
use gslb.Prelude.{
  String, true, false, ◌≡◌, refl, ◌↔◌, ◌⊎◌, inl, inr, Bool-cases, Option-cases, none, some, List,
  [], ◌∷◌, Any, str_eq, eq_iff, arith,
}
use gslb.Types.{Session, SessionRecord, Backend}
use gslb.Result.{Result, ok, Result-cases}
use gslb.Store.{SessionStore, ConfigRoleStore, BackendStore}
use gslb.Auth.Oidc.{validate_session, has_role}
use gslb.Auth.Middleware.{
  Request, Context, next, abort, should_skip_auth, get_token, user_id_of, roles_of, holds_any,
  require_role, middleware, require_config_access, require_backend_config_access,
}

-- What ValidateSession asks: the session has no id, as that of an old token, or its record is in the
-- database and has no time of revocation.
abbrev pub IsUnrevoked : {W : Type 0} → SessionStore W → W → Session → Type 0
IsUnrevoked s w session =
    (session.jti ≡ "")
    ⊎ ((r : SessionRecord) × ((s.get_session_record session.jti w).0 ≡ ok r)
        × (r.revoked_at ≡ none))

validate_session-IsUnrevoked :
    {W : Type 0} (s : SessionStore W) (session : Session) (w : W)
    → (validate_session s session w).0 ≡ ok tt
    → IsUnrevoked s w session
unfolding validate_session
validate_session-IsUnrevoked s session w h =
    elim (Result-cases (s.get_session_record session.jti w).0) [
      | inl (r, e) ↦ elim (Bool-cases (str_eq session.jti "")) [
        | inl no_id ↦ inl ((eq_iff session.jti "").0 no_id)
        | inr id ↦ elim (Option-cases r.revoked_at) [
          | inl live ↦ inr (r, e, live)
          | inr (t, revoked) ↦ absurd (ground (arith, h, e, id, revoked))
        ]
      ]
      | inr (x, e) ↦ elim (Bool-cases (str_eq session.jti "")) [
        | inl no_id ↦ inl ((eq_iff session.jti "").0 no_id)
        | inr id ↦ absurd (ground (arith, h, e, id))
      ]
    ]

-- A request to a path that needs a session gets through only with a token that parses to a session
-- that has no id, or whose record is in the database without a time of revocation; this session is
-- then the context.
pub middleware-IsUnrevoked :
    {W : Type 0} (parse : String → Result Session) (s : SessionStore W) (req : Request)
    (ctx after : Context) (w : W)
    → should_skip_auth req.path ≡ false
    → (middleware parse s req ctx w).0 ≡ next after
    → (session : Session) × (parse (get_token req) ≡ ok session)
      × (after ≡ some session)
      × IsUnrevoked s w session
unfolding middleware
middleware-IsUnrevoked parse s req ctx after w guarded passed =
    elim (Result-cases (parse (get_token req))) [
      | inl (session, e) ↦ elim (Result-cases (validate_session s session w).0) [
        | inl (d, v) ↦ (
          session,
          e,
          ground (arith, guarded, passed, e, v),
          validate_session-IsUnrevoked s session w v,
        )
        | inr (x, v) ↦ absurd (ground (arith, guarded, passed, e, v))
      ]
      | inr (x, e) ↦ absurd (ground (arith, guarded, passed, e))
    ]

-- A config is reached exactly by an admin, and by a user to whom the store grants it.
require_config_access_iff :
    {W : Type 0} (access : ConfigRoleStore W) (req : Request) (ctx : Context) (w : W)
    → ((require_config_access access req ctx w).0 ≡ next ctx) ↔ (
        (has_role "admin" (roles_of ctx) ≡ true)
        ⊎ ((access.can_access (user_id_of ctx) req.id w).0 ≡ ok true))
unfolding require_config_access
require_config_access_iff access req ctx w = ground arith

-- A backend is reached exactly by an admin, and by a user to whom the store grants the config that
-- the backend belongs to.
require_backend_config_access_iff :
    {W : Type 0} (access : ConfigRoleStore W) (backends : BackendStore W) (req : Request)
    (ctx : Context) (w : W)
    → ((require_backend_config_access access backends req ctx w).0 ≡ next ctx) ↔ (
        (has_role "admin" (roles_of ctx) ≡ true)
        ⊎ ((b : Backend) × ((backends.get_backend req.id w).0 ≡ ok b)
            × ((access.can_access (user_id_of ctx) b.config_id (backends.get_backend req.id w).1).0
                ≡ ok true)))
unfolding require_backend_config_access
require_backend_config_access_iff access backends req ctx w = (
  λ passed. elim (Bool-cases (has_role "admin" (roles_of ctx))) [
    | inl admin ↦ inl admin
    | inr n ↦ elim (Result-cases (backends.get_backend req.id w).0) [
      | inl (b, e) ↦ inr (b, e, ground (arith, passed, n, e))
      | inr (x, e) ↦ absurd (ground (arith, passed, n, e))
    ]
  ],
  λ h. elim h [
    | inl admin ↦ ground (arith, admin)
    | inr (b, e, granted) ↦ ground (arith, e, granted)
  ],
)

has_role-Any :
    (name : String) (roles : List String) → (has_role name roles ≡ true) ↔ Any (λ r. r ≡ name) roles
has_role-Any name [] = (λ h. cc, λ h. elim h [ ])
has_role-Any name (r ∷ rest) = ground (arith, has_role-Any name rest, eq_iff r name)

pub holds_any-Any :
    (required roles : List String)
    → (holds_any required roles ≡ true) ↔ Any (λ role. Any (λ r. r ≡ role) roles) required
holds_any-Any [] roles = (λ h. cc, λ h. elim h [ ])
holds_any-Any (role ∷ rest) roles =
    ground (arith, has_role-Any role roles, holds_any-Any rest roles)

-- With a session, a route with required roles is reached exactly by a user who has one of them;
-- without a session it is not reached.
pub require_role_iff :
    (required : List String) (session : Session)
    → ((require_role required (some session) ≡ next (some session))
        ↔ Any (λ role. Any (λ r. r ≡ role) session.roles) required)
      × (require_role required none ≡ abort 403 "access denied")
unfolding require_role
require_role_iff required session = (ground (arith, holds_any-Any required session.roles), refl)
