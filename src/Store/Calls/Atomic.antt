-- ===== src/Store/Calls/Atomic.antt =====
-- internal/store: a statement that returns an error changed nothing, and a query never does.
use gslb.Prelude.{ℕ, String, false, ◌≡◌, Option, none, some, List, inl, inr, arith}
use gslb.Types.{Config, Backend, HealthCheck, DnsProviderConfig}
use gslb.Result.{GoError, not_found, Result, Result-cases, is_ok, ok, err}
use gslb.Crypto.{CryptoLib, Encryptor, encrypt}
use gslb.Store.Sql.{Database, Ran, refused, done, statement, attempt, foreign_key_or, in_context}
use gslb.Store.Rows.{find_by, has_key}
use gslb.Store.Tables.{
  Driver, Tables, insert_config_row, update_config_row, insert_backend_row, update_backend_row,
  insert_check_row, insert_provider_row, update_check_row, update_provider_row, delete_check_row,
  delete_provider_row, delete_backend_row, delete_config_row,
}
use gslb.Store.Configs.{create_config, get_config, update_config, delete_config, or_new_id}
use gslb.Store.Backends.{create_backend, get_backend, update_backend, delete_backend}
use gslb.Store.Checks.{
  create_health_check, get_health_check, update_health_check, delete_health_check,
}
use gslb.Store.Providers.{
  create_dns_provider, get_dns_provider, update_dns_provider, delete_dns_provider,
}

-- What a run that ends in an error leaves of the tables; those of the others do not matter.
abbrev left_on_error : {A : Type 0} → Tables → Ran Tables A → Tables
left_on_error t (refused e) = t
left_on_error t (done (ok a) u) = t
left_on_error t (done (err e) u) = u

attempt-atomic :
    {A : Type 0} (on_error : String → GoError) (run : Tables → Ran Tables A) (db : Database Tables)
    → left_on_error db.rows (run db.rows) ≡ db.rows
    → is_ok (attempt on_error run db).0 ≡ false
    → (attempt on_error run db).1.rows ≡ db.rows
unfolding attempt
attempt-atomic on_error run db keeps h = ground (arith, keeps, h)

pub create_config-atomic :
    (driver : Driver) (new_id : String) (cfg : Config) (db : Database Tables)
    → is_ok (create_config driver new_id cfg db).0 ≡ false
    → (create_config driver new_id cfg db).1.rows ≡ db.rows
unfolding create_config insert_config_row
create_config-atomic driver new_id cfg db h =
    attempt-atomic (foreign_key_or "insert config")
      (insert_config_row driver (record cfg { id = or_new_id cfg.id new_id })) db (ground arith) h

pub update_config-atomic :
    (driver : Driver) (cfg : Config) (db : Database Tables)
    → is_ok (update_config driver cfg db).0 ≡ false
    → (update_config driver cfg db).1.rows ≡ db.rows
unfolding update_config update_config_row
update_config-atomic driver cfg db h =
    attempt-atomic (in_context "update config") (update_config_row driver cfg) db (ground arith) h

pub delete_config-atomic :
    (id : String) (db : Database Tables)
    → is_ok (delete_config id db).0 ≡ false
    → (delete_config id db).1.rows ≡ db.rows
unfolding delete_config delete_config_row
delete_config-atomic id db h =
    attempt-atomic (in_context "delete config") (delete_config_row id) db (ground arith) h

pub create_backend-atomic :
    (driver : Driver) (new_id : String) (b : Backend) (db : Database Tables)
    → is_ok (create_backend driver new_id b db).0 ≡ false
    → (create_backend driver new_id b db).1.rows ≡ db.rows
unfolding create_backend insert_backend_row
create_backend-atomic driver new_id b db h =
    attempt-atomic (foreign_key_or "insert backend")
      (insert_backend_row driver (record b { id = or_new_id b.id new_id })) db (ground arith) h

pub update_backend-atomic :
    (driver : Driver) (b : Backend) (db : Database Tables)
    → is_ok (update_backend driver b db).0 ≡ false
    → (update_backend driver b db).1.rows ≡ db.rows
unfolding update_backend update_backend_row
update_backend-atomic driver b db h =
    attempt-atomic (foreign_key_or "update backend") (update_backend_row driver b) db (ground arith)
      h

pub delete_backend-atomic :
    (id : String) (db : Database Tables)
    → is_ok (delete_backend id db).0 ≡ false
    → (delete_backend id db).1.rows ≡ db.rows
unfolding delete_backend delete_backend_row
delete_backend-atomic id db h =
    attempt-atomic (in_context "delete backend") (delete_backend_row id) db (ground arith) h

pub create_health_check-atomic :
    (driver : Driver) (new_id : String) (hc : HealthCheck) (db : Database Tables)
    → is_ok (create_health_check driver new_id hc db).0 ≡ false
    → (create_health_check driver new_id hc db).1.rows ≡ db.rows
unfolding create_health_check insert_check_row
create_health_check-atomic driver new_id hc db h =
    attempt-atomic (foreign_key_or "insert health check")
      (insert_check_row driver (record hc { id = or_new_id hc.id new_id })) db (ground arith) h

pub update_health_check-atomic :
    (hc : HealthCheck) (db : Database Tables)
    → is_ok (update_health_check hc db).0 ≡ false
    → (update_health_check hc db).1.rows ≡ db.rows
unfolding update_health_check update_check_row
update_health_check-atomic hc db h =
    attempt-atomic (foreign_key_or "update health check") (update_check_row hc) db (ground arith) h

pub delete_health_check-atomic :
    (id : String) (db : Database Tables)
    → is_ok (delete_health_check id db).0 ≡ false
    → (delete_health_check id db).1.rows ≡ db.rows
unfolding delete_health_check delete_check_row
delete_health_check-atomic id db h =
    attempt-atomic (in_context "delete health check") (delete_check_row id) db (ground arith) h

pub delete_dns_provider-atomic :
    (id : String) (db : Database Tables)
    → is_ok (delete_dns_provider id db).0 ≡ false
    → (delete_dns_provider id db).1.rows ≡ db.rows
unfolding delete_dns_provider delete_provider_row
delete_dns_provider-atomic id db h =
    attempt-atomic (in_context "delete dns provider") (delete_provider_row id) db (ground arith) h

pub create_dns_provider-atomic :
    (lib : CryptoLib) (enc : Option Encryptor) (random : ℕ → Result (List ℕ)) (driver : Driver)
    (new_id : String) (p : DnsProviderConfig) (db : Database Tables)
    → is_ok (create_dns_provider lib enc random driver new_id p db).0 ≡ false
    → (create_dns_provider lib enc random driver new_id p db).1.rows ≡ db.rows
unfolding create_dns_provider insert_provider_row
create_dns_provider-atomic lib enc random driver new_id p db h =
    elim (Result-cases (encrypt lib enc random p.config_json)) [
      | inr (e, failed) ↦ ground (arith, failed)
      | inl (enc_json, encrypted) ↦ ground (
        arith,
        h,
        encrypted,
        attempt-atomic (foreign_key_or "insert dns provider")
            (insert_provider_row driver
              (record p { id = or_new_id p.id new_id; config_json = enc_json }))
            db (ground arith),
      )
    ]

pub update_dns_provider-atomic :
    (lib : CryptoLib) (enc : Option Encryptor) (random : ℕ → Result (List ℕ))
    (p : DnsProviderConfig) (db : Database Tables)
    → is_ok (update_dns_provider lib enc random p db).0 ≡ false
    → (update_dns_provider lib enc random p db).1.rows ≡ db.rows
unfolding update_dns_provider update_provider_row
update_dns_provider-atomic lib enc random p db h =
    elim (Result-cases (encrypt lib enc random p.config_json)) [
      | inr (e, failed) ↦ ground (arith, failed)
      | inl (enc_json, encrypted) ↦ ground (
        arith,
        h,
        encrypted,
        attempt-atomic (foreign_key_or "update dns provider")
            (update_provider_row (record p { config_json = enc_json })) db (ground arith),
      )
    ]

-- The queries, whatever they return.
statement-reads :
    {A : Type 0} (text : String) (run : Tables → Result A) (db : Database Tables)
    → (statement text (λ t. (run t, t)) db).1.rows ≡ db.rows
unfolding statement
statement-reads text run db = ground arith

pub get_config-reads : (id : String) (db : Database Tables) → (get_config id db).1.rows ≡ db.rows
unfolding get_config
get_config-reads id db =
    statement-reads "query config"
      (λ t. elim (find_by (has_key Config.id id) t.configs) [
        | none ↦ err not_found
        | some r ↦ ok r
      ])
      db

pub get_backend-reads : (id : String) (db : Database Tables) → (get_backend id db).1.rows ≡ db.rows
unfolding get_backend
get_backend-reads id db =
    statement-reads "query backend"
      (λ t. elim (find_by (has_key Backend.id id) t.backends) [
        | none ↦ err not_found
        | some r ↦ ok r
      ])
      db

pub get_health_check-reads :
    (id : String) (db : Database Tables) → (get_health_check id db).1.rows ≡ db.rows
unfolding get_health_check
get_health_check-reads id db =
    statement-reads "query health check"
      (λ t. elim (find_by (has_key HealthCheck.config_id id) t.checks) [
        | none ↦ err not_found
        | some r ↦ ok r
      ])
      db

pub get_dns_provider-reads :
    (lib : CryptoLib) (enc : Option Encryptor) (id : String) (db : Database Tables)
    → (get_dns_provider lib enc id db).1.rows ≡ db.rows
unfolding get_dns_provider
get_dns_provider-reads lib enc id db = ground (
  arith,
  statement-reads "query dns provider"
      (λ t. elim (find_by (has_key DnsProviderConfig.config_id id) t.providers) [
        | none ↦ err not_found
        | some r ↦ ok r
      ])
      db,
)
