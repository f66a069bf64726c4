-- ===== src/Store/Calls/Deleted.antt =====
-- internal/store/config.go, DeleteConfig: what is left of a config, and of the others.
use gslb.Prelude.{String, true, false, ◌≡◌, refl, Option, List, [], ◌∷◌, str_eq, eq_iff, arith}
use gslb.Types.{Config, Backend, HealthCheck, HealthState, DnsProviderConfig}
use gslb.Result.{ok, err, not_found}
use gslb.Crypto.{CryptoLib, Encryptor}
use gslb.Store.Sql.{Database, statement, attempt_ran, in_context, calm}
use gslb.Store.Rows.{exists_by, delete_by, has_key}
use gslb.Store.Rows.Reads.{
  find_by-delete_by_self, find_by-delete_by_other, filter_by-delete_by_self,
  filter_by-delete_by_other,
}
use gslb.Store.Tables.{Tables, delete_config_row, drop_config, drop_backends}
use gslb.Store.Configs.{delete_config, get_config}
use gslb.Store.Backends.{list_backends}
use gslb.Store.Checks.{get_health_check, get_health_states, joined_states, is_backend_of}
use gslb.Store.Calls.Provider.{get_dns_provider-calm}
use gslb.Store.Providers.{get_dns_provider}

-- A deletion that ends without an error dropped the config's rows.
pub delete_config-rows :
    (id : String) (db : Database Tables)
    → (delete_config id db).0 ≡ ok tt
    → (delete_config id db).1.rows ≡ drop_config id db.rows
unfolding delete_config delete_config_row
delete_config-rows id db h =
    ground (arith, h, attempt_ran (in_context "delete config") (delete_config_row id) db tt h)

no_backend_of :
    (id : String) (st : HealthState) (backends : List Backend)
    → exists_by (is_backend_of id st) (delete_by (has_key Backend.config_id id) backends) ≡ false
unfolding exists_by delete_by
no_backend_of id st [] = refl
no_backend_of id st (b ∷ rest) = ground (arith, no_backend_of id st rest)

joined_states-deleted :
    (id : String) (backends : List Backend) (states : List HealthState)
    → joined_states id (delete_by (has_key Backend.config_id id) backends) states ≡ []
unfolding joined_states
joined_states-deleted id backends [] = refl
joined_states-deleted id backends (st ∷ rest) =
    ground (arith, no_backend_of id st backends, joined_states-deleted id backends rest)

-- After DeleteConfig has returned without an error, and as long as the database refuses no query, the
-- config is not found, it has no backends, no health check, no provider and no health states.
pub delete_config-clean :
    (lib : CryptoLib) (enc : Option Encryptor) (id : String) (db : Database Tables)
    → (delete_config id db).0 ≡ ok tt
    → ((get_config id (calm (delete_config id db).1)).0 ≡ err not_found)
      × ((list_backends id (calm (delete_config id db).1)).0 ≡ ok [])
      × ((get_health_check id (calm (delete_config id db).1)).0 ≡ err not_found)
      × ((get_dns_provider lib enc id (calm (delete_config id db).1)).0 ≡ err not_found)
      × ((get_health_states id (calm (delete_config id db).1)).0 ≡ ok [])
unfolding statement drop_config drop_backends get_config list_backends get_health_check
    get_dns_provider get_health_states
delete_config-clean lib enc id db h = rw (delete_config-rows id db h) (
  rw (statement, find_by-delete_by_self (has_key Config.id id) db.rows.configs) refl,
  rw (filter_by-delete_by_self (has_key Backend.config_id id) db.rows.backends) refl,
  rw (statement, find_by-delete_by_self (has_key HealthCheck.config_id id) db.rows.checks) refl,
  rw (statement, find_by-delete_by_self (has_key DnsProviderConfig.config_id id) db.rows.providers)
      refl,
  rw (joined_states-deleted id db.rows.backends) refl,
)

different : (a k id : String) → str_eq k id ≡ false → str_eq a k ≡ true → str_eq a id ≡ false
different a k id n e = ground (arith, n, e, eq_iff a k, eq_iff a id, eq_iff k id)

-- And every other config reads as before, with its backends, its health check and its provider.
delete_config-frame :
    (lib : CryptoLib) (enc : Option Encryptor) (id other : String) (db : Database Tables)
    → (delete_config id db).0 ≡ ok tt
    → str_eq other id ≡ false
    → ((get_config other (calm (delete_config id db).1)).0 ≡ (get_config other (calm db)).0)
      × ((list_backends other (calm (delete_config id db).1)).0 ≡ (list_backends other (calm db)).0)
      × ((get_health_check other (calm (delete_config id db).1)).0
          ≡ (get_health_check other (calm db)).0)
      × ((get_dns_provider lib enc other (calm (delete_config id db).1)).0
          ≡ (get_dns_provider lib enc other (calm db)).0)
unfolding statement drop_config drop_backends get_config list_backends get_health_check
    get_dns_provider
delete_config-frame lib enc id other db h n = rw (delete_config-rows id db h) (
  rw
      (
        statement,
        find_by-delete_by_other (has_key Config.id other) (has_key Config.id id) db.rows.configs
            (λ r. different r.id other id n),
      )
      refl,
  rw
      (filter_by-delete_by_other (has_key Backend.config_id other) (has_key Backend.config_id id)
        db.rows.backends (λ r. different r.config_id other id n))
      refl,
  rw
      (
        statement,
        find_by-delete_by_other (has_key HealthCheck.config_id other)
            (has_key HealthCheck.config_id id) db.rows.checks
            (λ r. different r.config_id other id n),
      )
      refl,
  rw
      (
        get_dns_provider-calm lib enc other db,
        get_dns_provider-calm lib enc other (record db { rows = drop_config id db.rows }),
        find_by-delete_by_other (has_key DnsProviderConfig.config_id other)
            (has_key DnsProviderConfig.config_id id) db.rows.providers
            (λ r. different r.config_id other id n),
      )
      refl,
)
