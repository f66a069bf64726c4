-- ===== src/Handlers/Routes.antt =====
-- internal/handlers/routes.go: the routes, each with the middlewares in front of its handler. The pages of
-- the frontend, the headers, the log and the limit on the size of a body let every request go on, and
-- are left out.
pub mod Gate
pub mod Guarded
pub mod Allowed
pub mod Writers
use gslb.Prelude.{String, Bool, List, [], ◌∷◌, ◌++◌, if◌then◌else◌}

pub data Method : Type 0 where
  get post put delete options : Method

-- The middlewares: `auth.Middleware`, `auth.RequireRole`, `auth.RequireConfigAccess`,
-- `auth.RequireBackendConfigAccess`, `CORS`, and `RateLimit` with one of the two limiters.
pub data Guard : Type 0 where
  session config_access backend_access cors global_limit auth_limit : Guard
  role : List String → Guard

-- The handlers by their names.
pub data Endpoint : Type 0 where
  health ready sso_disabled : Endpoint
  login callback logout get_current_user list_roles : Endpoint
  get_system_status create_config list_configs : Endpoint
  get_config update_config delete_config get_config_status : Endpoint
  get_config_roles update_config_roles : Endpoint
  add_backend list_backends : Endpoint
  configure_health_check get_health_check delete_health_check : Endpoint
  configure_dns_provider get_dns_provider delete_dns_provider : Endpoint
  get_backend update_backend delete_backend get_backend_health get_backend_history : Endpoint
  list_audit_logs get_audit_log_count get_audit_log get_audit_logs_for_entity : Endpoint
  list_users assign_user_role remove_user_role : Endpoint

-- A part of a path: a text, or a parameter such as `:id`.
pub data Piece : Type 0 where
  text param : String → Piece

pub record Route : Type 0 where
  pub method : Method
  pub path : List Piece
  pub guards : List Guard
  pub endpoint : Endpoint

abbrev route : Method → List Piece → List Guard → Endpoint → Route
route method path guards endpoint = record {
  method = method;
  path = path;
  guards = guards;
  endpoint = endpoint;
}

abbrev at : String → List Piece
at path = text path ∷ []

-- The paths below a config and below a backend.
abbrev config_path : String → List Piece
config_path rest = text "/api/v1/configs/" ∷ param "id" ∷ text rest ∷ []

abbrev backend_path : String → List Piece
backend_path rest = text "/api/v1/backends/" ∷ param "id" ∷ text rest ∷ []

-- The middlewares of `router.Use` that may end a request.
abbrev global : List Guard
global = Guard.cors ∷ Guard.global_limit ∷ []

abbrev writers : Guard
writers = Guard.role ("admin" ∷ "operator" ∷ [])

abbrev public : Method → String → Endpoint → Route
public method path endpoint = route method (at path) global endpoint

-- `registerAuthRoutes`
abbrev auth : Method → String → Endpoint → Route
auth method path endpoint = route method (at path) (global ++ (Guard.auth_limit ∷ [])) endpoint

-- A route of the group `api` with OIDC, and one without.
abbrev api : Method → List Piece → List Guard → Endpoint → Route
api method path guards endpoint = route method path (global ++ (Guard.session ∷ guards)) endpoint

abbrev open_api : Method → List Piece → Endpoint → Route
open_api method path endpoint = route method path global endpoint

unfoldable pub public_routes : List Route
public_routes =
    public Method.get "/health" Endpoint.health ∷ public Method.get "/ready" Endpoint.ready ∷ []

unfoldable pub auth_routes : List Route
auth_routes =
    auth Method.get "/api/v1/auth/login" Endpoint.login
    ∷ auth Method.get "/api/v1/auth/callback" Endpoint.callback
    ∷ auth Method.post "/api/v1/auth/logout" Endpoint.logout
    ∷ []

abbrev on_config : Method → String → Endpoint → Route
on_config method rest endpoint = api method (config_path rest) (Guard.config_access ∷ []) endpoint

abbrev writing_config : Method → String → Endpoint → Route
writing_config method rest endpoint =
    api method (config_path rest) (writers ∷ Guard.config_access ∷ []) endpoint

abbrev on_backend : Method → String → Endpoint → Route
on_backend method rest endpoint =
    api method (backend_path rest) (Guard.backend_access ∷ []) endpoint

abbrev admin_only : Method → List Piece → Endpoint → Route
admin_only method path endpoint = api method path (Guard.role ("admin" ∷ []) ∷ []) endpoint

abbrev role_path : List Piece
role_path = text "/api/v1/admin/users/" ∷ param "id" ∷ text "/roles/" ∷ param "role_id" ∷ []

abbrev entity_path : List Piece
entity_path = text "/api/v1/audit-logs/entity/" ∷ param "type" ∷ text "/" ∷ param "id" ∷ []

-- The routes behind `auth.Middleware`, where OIDC is enabled.
unfoldable pub api_routes : List Route
api_routes =
    api Method.get (at "/api/v1/auth/user") [] Endpoint.get_current_user
    ∷ api Method.get (at "/api/v1/roles") [] Endpoint.list_roles
    ∷ api Method.get (at "/api/v1/status") [] Endpoint.get_system_status
    ∷ api Method.post (at "/api/v1/configs") [] Endpoint.create_config
    ∷ api Method.get (at "/api/v1/configs") [] Endpoint.list_configs
    ∷ on_config Method.get "" Endpoint.get_config
    ∷ on_config Method.put "" Endpoint.update_config
    ∷ writing_config Method.delete "" Endpoint.delete_config
    ∷ on_config Method.get "/status" Endpoint.get_config_status
    ∷ on_config Method.get "/roles" Endpoint.get_config_roles
    ∷ writing_config Method.put "/roles" Endpoint.update_config_roles
    ∷ on_config Method.post "/backends" Endpoint.add_backend
    ∷ on_config Method.get "/backends" Endpoint.list_backends
    ∷ on_config Method.post "/health-check" Endpoint.configure_health_check
    ∷ on_config Method.get "/health-check" Endpoint.get_health_check
    ∷ writing_config Method.delete "/health-check" Endpoint.delete_health_check
    ∷ on_config Method.post "/dns-provider" Endpoint.configure_dns_provider
    ∷ on_config Method.get "/dns-provider" Endpoint.get_dns_provider
    ∷ writing_config Method.delete "/dns-provider" Endpoint.delete_dns_provider
    ∷ on_backend Method.get "" Endpoint.get_backend
    ∷ on_backend Method.put "" Endpoint.update_backend
    ∷ api Method.delete (backend_path "") (writers ∷ Guard.backend_access ∷ [])
        Endpoint.delete_backend
    ∷ on_backend Method.get "/health" Endpoint.get_backend_health
    ∷ on_backend Method.get "/history" Endpoint.get_backend_history
    ∷ admin_only Method.get (at "/api/v1/audit-logs") Endpoint.list_audit_logs
    ∷ admin_only Method.get (at "/api/v1/audit-logs/count") Endpoint.get_audit_log_count
    ∷ admin_only Method.get (text "/api/v1/audit-logs/" ∷ param "id" ∷ []) Endpoint.get_audit_log
    ∷ admin_only Method.get entity_path Endpoint.get_audit_logs_for_entity
    ∷ admin_only Method.get (at "/api/v1/admin/users") Endpoint.list_users
    ∷ admin_only Method.post (text "/api/v1/admin/users/" ∷ param "id" ∷ text "/roles" ∷ [])
        Endpoint.assign_user_role
    ∷ admin_only Method.delete role_path Endpoint.remove_user_role
    ∷ []

-- Without OIDC there is no access control.
unfoldable pub open_routes : List Route
open_routes =
    public Method.get "/api/v1/auth/login" Endpoint.sso_disabled
    ∷ public Method.get "/api/v1/auth/callback" Endpoint.sso_disabled
    ∷ public Method.post "/api/v1/auth/logout" Endpoint.sso_disabled
    ∷ open_api Method.get (at "/api/v1/status") Endpoint.get_system_status
    ∷ open_api Method.post (at "/api/v1/configs") Endpoint.create_config
    ∷ open_api Method.get (at "/api/v1/configs") Endpoint.list_configs
    ∷ open_api Method.get (config_path "") Endpoint.get_config
    ∷ open_api Method.put (config_path "") Endpoint.update_config
    ∷ open_api Method.delete (config_path "") Endpoint.delete_config
    ∷ open_api Method.get (config_path "/status") Endpoint.get_config_status
    ∷ open_api Method.post (config_path "/backends") Endpoint.add_backend
    ∷ open_api Method.get (config_path "/backends") Endpoint.list_backends
    ∷ open_api Method.post (config_path "/health-check") Endpoint.configure_health_check
    ∷ open_api Method.get (config_path "/health-check") Endpoint.get_health_check
    ∷ open_api Method.delete (config_path "/health-check") Endpoint.delete_health_check
    ∷ open_api Method.post (config_path "/dns-provider") Endpoint.configure_dns_provider
    ∷ open_api Method.get (config_path "/dns-provider") Endpoint.get_dns_provider
    ∷ open_api Method.delete (config_path "/dns-provider") Endpoint.delete_dns_provider
    ∷ open_api Method.get (backend_path "") Endpoint.get_backend
    ∷ open_api Method.put (backend_path "") Endpoint.update_backend
    ∷ open_api Method.delete (backend_path "") Endpoint.delete_backend
    ∷ open_api Method.get (backend_path "/health") Endpoint.get_backend_health
    ∷ open_api Method.get (backend_path "/history") Endpoint.get_backend_history
    ∷ open_api Method.get (at "/api/v1/audit-logs") Endpoint.list_audit_logs
    ∷ open_api Method.get (at "/api/v1/audit-logs/count") Endpoint.get_audit_log_count
    ∷ open_api Method.get (text "/api/v1/audit-logs/" ∷ param "id" ∷ []) Endpoint.get_audit_log
    ∷ open_api Method.get entity_path Endpoint.get_audit_logs_for_entity
    ∷ []

-- `RegisterRoutes`
unfoldable pub register_routes : Bool → List Route
register_routes oidc_enabled =
    public_routes ++ (if oidc_enabled then auth_routes ++ api_routes else open_routes)
