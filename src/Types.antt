-- ===== src/Types.antt =====
-- internal/types/types.go and internal/types/auth.go: the data that the parts exchange.
-- Times are numbers of nanoseconds; a `*time.Time` or a `*int` is an `Option`. The JSON tags and
-- the time stamps that no modelled code reads (`created_at`, `updated_at` of a config) are left out.
use gslb.Prelude.{ℕ, ℤ, String, Bool, Option, List}

-- types.HealthStatus
pub data HealthStatus : Type 0 where
  healthy unhealthy unknown : HealthStatus

pub HealthStatus-discrete : Discrete HealthStatus
HealthStatus-discrete = hlevel

-- `s == types.StatusHealthy`
abbrev pub is_healthy : HealthStatus → Bool
is_healthy healthy = Bool.true
is_healthy _ = Bool.false

-- `s == types.StatusUnhealthy`
abbrev pub is_unhealthy : HealthStatus → Bool
is_unhealthy unhealthy = Bool.true
is_unhealthy _ = Bool.false

-- types.LBMethod is a string with two named values; `other_method` is any other string.
pub data LbMethod : Type 0 where
  round_robin weighted : LbMethod
  other_method : String → LbMethod

pub record Config : Type 0 where
  pub id : String
  pub name : String
  pub dns_name : String
  pub dns_ttl : ℤ
  pub lb_method : LbMethod
  pub last_reconcile_error : String

pub record Backend : Type 0 where
  pub id : String
  pub config_id : String
  pub ip : String
  pub port : Option ℤ
  pub weight : ℤ
  pub enabled : Bool

pub record HealthCheck : Type 0 where
  pub id : String
  pub config_id : String
  pub type : String
  pub interval_seconds : ℤ
  pub timeout_seconds : ℤ
  pub threshold_healthy : ℤ
  pub threshold_unhealthy : ℤ

pub record HealthState : Type 0 where
  pub backend_id : String
  pub status : HealthStatus
  pub consecutive_successes : ℤ
  pub consecutive_failures : ℤ
  pub last_check_at : Option ℕ
  pub last_healthy_at : Option ℕ
  pub last_error : String

pub record DnsProviderConfig : Type 0 where
  pub id : String
  pub config_id : String
  pub provider_type : String
  pub config_json : String

pub record HealthHistoryBucket : Type 0 where
  pub backend_id : String
  pub bucket_start : ℕ
  pub success_count : ℤ
  pub failure_count : ℤ
  pub selected : ℤ

pub record Role : Type 0 where
  pub id : String
  pub name : String

pub record User : Type 0 where
  pub id : String
  pub subject : String
  pub email : String
  pub name : String
  pub last_login_at : ℕ
  pub is_active : Bool
  pub roles : List Role

-- The claims of a session JWT.
pub record Session : Type 0 where
  pub jti : String
  pub user_id : String
  pub email : String
  pub roles : List String
  pub expires_at : ℕ

pub record SessionRecord : Type 0 where
  pub jti : String
  pub user_id : String
  pub created_at : ℕ
  pub expires_at : ℕ
  pub revoked_at : Option ℕ

pub record AuditLog : Type 0 where
  pub id : String
  pub action : String
  pub entity_type : String
  pub entity_id : String
  pub entity_name : String
  pub config_id : String
  pub details : String
  pub user_id : String
  pub ip_address : String
  pub user_agent : String
  pub created_at : ℕ
