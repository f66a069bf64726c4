-- ===== src/Settings.antt =====
-- internal/config/config.go: the settings of the process. The environment, the file, YAML and the
-- scanners of numbers and durations are fields of `Platform`. Durations are nanoseconds.
pub mod Overrides
pub mod Valid
use Prim.Native.String.{len}
use gslb.Prelude.{
  ℕ, ℤ, pos, leb_ℤ, ltb_ℤ, String, Bool, true, false, ◌&&◌, ◌||◌, not, Option, none, some, List, [],
  ◌∷◌, ltb, str_eq, if◌then◌else◌,
}
use gslb.Result.{message, wrapped, GoError, Result, ok, err}
use gslb.Store.{Done}
use gslb.Auth.Middleware.{has_suffix}

pub record OidcConfig : Type 0 where
  pub enabled : Bool
  pub issuer : String
  pub client_id : String
  pub client_secret : String
  pub redirect_url : String
  pub scopes : List String
  pub roles_claim : String
  pub default_role : String

pub record JwtConfig : Type 0 where
  pub secret : String
  pub expiry : ℤ
  pub cookie_name : String
  pub cookie_secure : Bool
  pub cookie_http_only : Bool
  pub cookie_same_site : String

-- config.Config
pub record Settings : Type 0 where
  pub database_path : String
  pub listen_addr : String
  pub health_check_workers : ℤ
  pub reconcile_interval : ℤ
  pub audit_log_retention_days : ℤ
  pub encryption_key : String
  pub oidc : OidcConfig
  pub jwt : JwtConfig

-- What `os.ReadFile` gives.
pub data FileRead : Type 0 where
  missing : FileRead
  failed : GoError → FileRead
  contents : String → FileRead

-- `os.Getenv`, `os.ReadFile`, `strings.ToLower`, `yaml.Unmarshal` into a config, `fmt.Sscanf` of "%d"
-- and `time.ParseDuration`.
pub record Platform : Type 0 where
  pub getenv : String → String
  pub read_file : String → FileRead
  pub to_lower : String → String
  pub unmarshal : String → Settings → Result Settings
  pub scan_int : String → Result ℤ
  pub parse_duration : String → Result ℤ

abbrev pub default_config : Settings
default_config = record {
  database_path = "gslb.db";
  listen_addr = ":8090";
  health_check_workers = pos 10;
  reconcile_interval = pos 30000000000;
  audit_log_retention_days = pos 30;
  encryption_key = "";
  oidc = record {
    enabled = false;
    issuer = "";
    client_id = "";
    client_secret = "";
    redirect_url = "";
    scopes = "openid" ∷ "profile" ∷ "email" ∷ [];
    roles_claim = "roles";
    default_role = "viewer";
  };
  jwt = record {
    secret = "";
    expiry = pos 86400000000000;
    cookie_name = "gslb_session";
    cookie_secure = false;
    cookie_http_only = true;
    cookie_same_site = "Lax";
  };
}

-- `if v := os.Getenv(...); v != "" { field = v }`
abbrev pub override : String → String → String
override v old = if str_eq v "" then old else v

-- `v == "true" || v == "1"`
abbrev pub override_flag : String → Bool → Bool
override_flag v old = if str_eq v "" then old else str_eq v "true" || str_eq v "1"

-- A number that parses and is above 0.
abbrev pub accepted : Result ℤ → ℤ → ℤ
accepted (err e) old = old
accepted (ok n) old = if ltb_ℤ (pos 0) n then n else old

abbrev pub override_number : (String → Result ℤ) → String → ℤ → ℤ
override_number parse v old = if str_eq v "" then old else accepted (parse v) old

unfoldable pub apply_env_overrides : Platform → Settings → Settings
apply_env_overrides os cfg = record {
  database_path = override (os.getenv "GSLB_DATABASE_PATH") cfg.database_path;
  listen_addr = override (os.getenv "GSLB_LISTEN_ADDR") cfg.listen_addr;
  health_check_workers =
      override_number os.scan_int (os.getenv "GSLB_HEALTH_CHECK_WORKERS") cfg.health_check_workers;
  reconcile_interval =
      override_number os.parse_duration (os.getenv "GSLB_RECONCILE_INTERVAL")
        cfg.reconcile_interval;
  audit_log_retention_days =
      override_number os.scan_int (os.getenv "GSLB_AUDIT_LOG_RETENTION_DAYS")
        cfg.audit_log_retention_days;
  encryption_key = override (os.getenv "GSLB_ENCRYPTION_KEY") cfg.encryption_key;
  oidc = record cfg.oidc {
    enabled = override_flag (os.getenv "GSLB_OIDC_ENABLED") cfg.oidc.enabled;
    issuer = override (os.getenv "GSLB_OIDC_ISSUER") cfg.oidc.issuer;
    client_id = override (os.getenv "GSLB_OIDC_CLIENT_ID") cfg.oidc.client_id;
    client_secret = override (os.getenv "GSLB_OIDC_CLIENT_SECRET") cfg.oidc.client_secret;
    redirect_url = override (os.getenv "GSLB_OIDC_REDIRECT_URL") cfg.oidc.redirect_url;
    roles_claim = override (os.getenv "GSLB_OIDC_ROLES_CLAIM") cfg.oidc.roles_claim;
    default_role = override (os.getenv "GSLB_OIDC_DEFAULT_ROLE") cfg.oidc.default_role;
  };
  jwt = record cfg.jwt {
    secret = override (os.getenv "GSLB_JWT_SECRET") cfg.jwt.secret;
    expiry = override_number os.parse_duration (os.getenv "GSLB_JWT_EXPIRY") cfg.jwt.expiry;
    cookie_secure = override_flag (os.getenv "GSLB_JWT_COOKIE_SECURE") cfg.jwt.cookie_secure;
    cookie_name = override (os.getenv "GSLB_JWT_COOKIE_NAME") cfg.jwt.cookie_name;
  };
}

abbrev validate_oidc : Settings → Result Done
validate_oidc cfg =
    if ltb (len cfg.jwt.secret) 32
    then err (message "jwt.secret must be at least 32 bytes when OIDC is enabled")
    else if str_eq cfg.oidc.issuer ""
    then err (message "oidc.issuer is required when OIDC is enabled")
    else if str_eq cfg.oidc.client_id ""
    then err (message "oidc.client_id is required when OIDC is enabled")
    else if str_eq cfg.oidc.client_secret ""
    then err (message "oidc.client_secret is required when OIDC is enabled")
    else if str_eq cfg.oidc.redirect_url ""
    then err (message "oidc.redirect_url is required when OIDC is enabled")
    else ok tt

unfoldable pub validate : Settings → Result Done
validate cfg =
    if str_eq cfg.listen_addr ""
    then err (message "listen_addr is required")
    else if leb_ℤ cfg.health_check_workers (pos 0)
    then err (message "health_check_workers must be greater than 0")
    else if leb_ℤ cfg.reconcile_interval (pos 0)
    then err (message "reconcile_interval must be greater than 0")
    else if cfg.oidc.enabled
    then validate_oidc cfg
    else ok tt

abbrev pub parse_context : String → String
parse_context ext =
    if has_suffix ext ".yaml" || has_suffix ext ".yml"
    then "parsing YAML config"
    else if has_suffix ext ".json"
    then "parsing JSON config"
    else "parsing config file"

-- The defaults with what the file says; a file that does not exist says nothing.
unfoldable pub load_file : Platform → String → Result Settings
load_file os path = if str_eq path "" then ok default_config else elim (os.read_file path) [
  | missing ↦ ok default_config
  | failed e ↦ err (wrapped "reading config file" e)
  | contents text ↦ elim (os.unmarshal text default_config) [
    | err e ↦ err (wrapped (parse_context (os.to_lower path)) e)
    | ok cfg ↦ ok cfg
  ]
]

unfoldable pub load : Platform → String → Result Settings
load os path = elim (load_file os path) [
  | err e ↦ err e
  | ok cfg ↦ elim (validate (apply_env_overrides os cfg)) [
    | err e ↦ err e
    | ok valid ↦ ok (apply_env_overrides os cfg)
  ]
]
