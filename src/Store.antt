-- ===== src/Store.antt =====
-- internal/store/store.go: the interfaces of the data access layer, over any state `W` that the
-- database and the outside world may have. The handlers, the scheduler and the reconciler take a
-- `Store W`; the modules below this one give the one that the SQL statements define.
-- The context argument, the transactions and the audit log are left out.
pub mod Sql
pub mod Rows
pub mod Tables
pub mod Providers
pub mod Checks
pub mod Backends
pub mod History
pub mod Audit
pub mod Calls
pub mod Configs
pub mod Sessions
pub mod Users
pub mod Access
use gslb.Prelude.{ℕ, String, Bool, List}
use gslb.Prelude.Dict.{Dict}
use gslb.Types.{
  Config, Backend, HealthCheck, HealthState, DnsProviderConfig, HealthHistoryBucket, Role, User,
  SessionRecord,
}
use gslb.Result.{Exec}

abbrev pub Done : Type 0
Done = Unit

pub record ConfigStore (W : Type 0) : Type 0 where
  pub create_config : Config → Exec W Config
  pub get_config : String → Exec W Config
  pub update_config : Config → Exec W Done
  pub delete_config : String → Exec W Done
  pub list_configs : Exec W (List Config)
  pub set_config_reconcile_error : String → String → Exec W Done

pub record BackendStore (W : Type 0) : Type 0 where
  pub create_backend : Backend → Exec W Backend
  pub get_backend : String → Exec W Backend
  pub update_backend : Backend → Exec W Done
  pub delete_backend : String → Exec W Done
  pub list_backends : String → Exec W (List Backend)

pub record HealthStore (W : Type 0) : Type 0 where
  pub create_health_check : HealthCheck → Exec W HealthCheck
  pub get_health_check : String → Exec W HealthCheck
  pub update_health_check : HealthCheck → Exec W Done
  pub delete_health_check : String → Exec W Done
  pub update_health_state : HealthState → Exec W Done
  pub get_health_state : String → Exec W HealthState
  pub get_health_states : String → Exec W (Dict HealthState)

pub record HealthHistoryStore (W : Type 0) : Type 0 where
  pub upsert_health_history_bucket : HealthHistoryBucket → Exec W Done
  pub get_health_history : String → ℕ → Exec W (List HealthHistoryBucket)
  pub delete_old_health_history : ℕ → Exec W ℕ

pub record DnsProviderStore (W : Type 0) : Type 0 where
  pub create_dns_provider : DnsProviderConfig → Exec W DnsProviderConfig
  pub get_dns_provider : String → Exec W DnsProviderConfig
  pub update_dns_provider : DnsProviderConfig → Exec W Done
  pub delete_dns_provider : String → Exec W Done

pub record UserStore (W : Type 0) : Type 0 where
  pub create_user : User → Exec W User
  pub get_user_by_id : String → Exec W User
  pub get_user_by_subject : String → Exec W User
  pub update_user : User → Exec W Done
  pub assign_role : String → String → String → Exec W Done
  pub remove_role : String → String → Exec W Done
  pub get_user_roles : String → Exec W (List Role)
  pub get_role_by_name : String → Exec W Role

pub record ConfigRoleStore (W : Type 0) : Type 0 where
  pub assign_config_role : String → String → Exec W Done
  pub remove_config_role : String → String → Exec W Done
  pub get_config_roles : String → Exec W (List Role)
  pub can_access : String → String → Exec W Bool
  pub list_configs_for_user : String → Exec W (List String)

pub record SessionStore (W : Type 0) : Type 0 where
  pub create_session_record : SessionRecord → Exec W Done
  pub get_session_record : String → Exec W SessionRecord
  pub revoke_session : String → Exec W Done
  pub revoke_user_sessions : String → Exec W Done
  pub cleanup_expired_sessions : Exec W ℕ

pub record Store (W : Type 0) : Type 0 where
  pub configs : ConfigStore W
  pub backends : BackendStore W
  pub health : HealthStore W
  pub history : HealthHistoryStore W
  pub providers : DnsProviderStore W
