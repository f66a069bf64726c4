-- ===== src/Store/Calls.antt =====
-- internal/store/store.go: `New`, the store that the SQL statements make of a database; and the calls
-- of its operations that change the tables, one after the other.
pub mod Sound
pub mod Provider
pub mod Deleted
pub mod Reads
pub mod ConfigMap
pub mod Atomic
use gslb.Prelude.{ℕ, String, Bool, true, ◌≡◌, refl, Option, List, [], ◌∷◌, inl, inr}
use gslb.Types.{Config, Backend, HealthCheck, HealthState, DnsProviderConfig, HealthHistoryBucket}
use gslb.Result.{Result, ok, Result-cases}
use gslb.Crypto.{CryptoLib, Encryptor, encrypt}
use gslb.Store.{Store}
use gslb.Store.Sql.{Database, attempt, attempt_keeps, foreign_key_or, in_context}
use gslb.Store.Tables.{
  Driver, Tables, is_sound, insert_config_row, update_config_row, insert_backend_row,
  update_backend_row, insert_check_row, upsert_state_row, insert_provider_row, set_error_row,
  update_check_row, update_provider_row, delete_check_row, delete_provider_row, delete_backend_row,
  delete_config_row,
}
use gslb.Store.Configs
use gslb.Store.Configs.{config_store, or_new_id}
use gslb.Store.Backends
use gslb.Store.Backends.{backend_store}
use gslb.Store.Checks
use gslb.Store.Checks.{health_store}
use gslb.Store.Providers
use gslb.Store.Providers.{provider_store}
use gslb.Store.History
use gslb.Store.History.{history_store}

-- A call, with the new id or the time that it draws.
pub data Call : Type 0 where
  create_config : String → Config → Call
  update_config : Config → Call
  delete_config : String → Call
  set_config_reconcile_error : String → String → Call
  create_backend : String → Backend → Call
  update_backend : Backend → Call
  delete_backend : String → Call
  create_health_check : String → HealthCheck → Call
  update_health_check : HealthCheck → Call
  delete_health_check : String → Call
  update_health_state : HealthState → Call
  create_dns_provider : String → DnsProviderConfig → Call
  update_dns_provider : DnsProviderConfig → Call
  delete_dns_provider : String → Call
  upsert_health_history_bucket : HealthHistoryBucket → Call
  delete_old_health_history : ℕ → ℕ → Call

module _ (lib : CryptoLib) (enc : Option Encryptor) (random : ℕ → Result (List ℕ))
    (driver : Driver) where
  abbrev pub sql_store : String → ℕ → Store (Database Tables)
  sql_store new_id now = record {
    configs = config_store driver new_id;
    backends = backend_store driver new_id;
    health = health_store driver new_id;
    history = history_store now;
    providers = provider_store lib enc random driver new_id;
  }

  unfoldable pub run_call : Call → Database Tables → Database Tables
  run_call (create_config new_id cfg) db = (Configs.create_config driver new_id cfg db).1
  run_call (update_config cfg) db = (Configs.update_config driver cfg db).1
  run_call (delete_config id) db = (Configs.delete_config id db).1
  run_call (set_config_reconcile_error id text) db =
      (Configs.set_config_reconcile_error id text db).1
  run_call (create_backend new_id b) db = (Backends.create_backend driver new_id b db).1
  run_call (update_backend b) db = (Backends.update_backend driver b db).1
  run_call (delete_backend id) db = (Backends.delete_backend id db).1
  run_call (create_health_check new_id hc) db = (Checks.create_health_check driver new_id hc db).1
  run_call (update_health_check hc) db = (Checks.update_health_check hc db).1
  run_call (delete_health_check id) db = (Checks.delete_health_check id db).1
  run_call (update_health_state st) db = (Checks.update_health_state driver st db).1
  run_call (create_dns_provider new_id p) db =
      (Providers.create_dns_provider lib enc random driver new_id p db).1
  run_call (update_dns_provider p) db = (Providers.update_dns_provider lib enc random p db).1
  run_call (delete_dns_provider id) db = (Providers.delete_dns_provider id db).1
  run_call (upsert_health_history_bucket bucket) db =
      (History.upsert_health_history_bucket bucket db).1
  run_call (delete_old_health_history now age) db = (History.delete_old_health_history now age db).1

  unfoldable pub run_calls : List Call → Database Tables → Database Tables
  run_calls [] db = db
  run_calls (call ∷ rest) db = run_calls rest (run_call call db)
