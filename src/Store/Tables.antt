-- ===== src/Store/Tables.antt =====
-- The tables of internal/db/migrations.go that the configs own, and what SQLite does with a statement
-- on them: the constraints UNIQUE and FOREIGN KEY, and ON DELETE CASCADE. Rows are kept newest first,
-- which is `ORDER BY created_at DESC`. What the driver says of a refusal is a parameter.
pub mod Sound
pub mod Cascade
use gslb.Prelude.{
  ℕ, ℤ, String, Bool, true, false, ◌&&◌, not, List, [], ◌∷◌, filter_by, str_eq, ◌==◌, if◌then◌else◌,
}
use gslb.Types.{Config, Backend, HealthCheck, HealthState, DnsProviderConfig, HealthHistoryBucket}
use gslb.Result.{not_found, ok, err}
use gslb.Store.{Done}
use gslb.Store.Sql.{Ran, refused, done}
use gslb.Store.Rows.{exists_by, update_by, delete_by, has_key, is_distinct, refers}

pub record Driver : Type 0 where
  pub foreign_key_failed : String
  pub unique_failed : String → String

pub record Tables : Type 0 where
  pub configs : List Config
  pub backends : List Backend
  pub checks : List HealthCheck
  pub states : List HealthState
  pub providers : List DnsProviderConfig
  pub history : List HealthHistoryBucket

abbrev pub set_config : Config → Config → Config
set_config c old = record old {
  name = c.name;
  dns_name = c.dns_name;
  dns_ttl = c.dns_ttl;
  lb_method = c.lb_method;
}

-- Another config has the name.
abbrev pub is_name_taken : Config → Config → Bool
is_name_taken c other = str_eq other.dns_name c.dns_name && not (str_eq other.id c.id)

abbrev pub set_backend : Backend → Backend → Backend
set_backend b old = record b { id = old.id }

abbrev pub set_state : HealthState → HealthState → HealthState
set_state st old = record st { backend_id = old.backend_id }

module _ (driver : Driver) where
  -- configs: id PRIMARY KEY, dns_name UNIQUE. `last_reconcile_error` is NULL at first.
  unfoldable pub insert_config_row : Config → Tables → Ran Tables Config
  insert_config_row c t =
      if exists_by (has_key Config.id c.id) t.configs
      then refused (driver.unique_failed "configs.id")
      else if exists_by (has_key Config.dns_name c.dns_name) t.configs
      then refused (driver.unique_failed "configs.dns_name")
      else done (ok c) (record t { configs = record c { last_reconcile_error = "" } ∷ t.configs })

  unfoldable pub update_config_row : Config → Tables → Ran Tables Done
  update_config_row c t =
      if not (exists_by (has_key Config.id c.id) t.configs)
      then done (err not_found) t
      else if exists_by (is_name_taken c) t.configs
      then refused (driver.unique_failed "configs.dns_name")
      else done (ok tt)
          (record t { configs = update_by (has_key Config.id c.id) (set_config c) t.configs })

  -- backends: id PRIMARY KEY, config_id REFERENCES configs.
  unfoldable pub insert_backend_row : Backend → Tables → Ran Tables Backend
  insert_backend_row b t =
      if exists_by (has_key Backend.id b.id) t.backends
      then refused (driver.unique_failed "backends.id")
      else if exists_by (has_key Config.id b.config_id) t.configs
      then done (ok b) (record t { backends = b ∷ t.backends })
      else refused driver.foreign_key_failed

  unfoldable pub update_backend_row : Backend → Tables → Ran Tables Done
  update_backend_row b t =
      if not (exists_by (has_key Backend.id b.id) t.backends)
      then done (err not_found) t
      else if exists_by (has_key Config.id b.config_id) t.configs
      then done (ok tt)
          (record t { backends = update_by (has_key Backend.id b.id) (set_backend b) t.backends })
      else refused driver.foreign_key_failed

  -- health_checks: id PRIMARY KEY, config_id UNIQUE and REFERENCES configs.
  unfoldable pub insert_check_row : HealthCheck → Tables → Ran Tables HealthCheck
  insert_check_row hc t =
      if exists_by (has_key HealthCheck.id hc.id) t.checks
      then refused (driver.unique_failed "health_checks.id")
      else if exists_by (has_key HealthCheck.config_id hc.config_id) t.checks
      then refused (driver.unique_failed "health_checks.config_id")
      else if exists_by (has_key Config.id hc.config_id) t.configs
      then done (ok hc) (record t { checks = hc ∷ t.checks })
      else refused driver.foreign_key_failed

  -- health_states: backend_id PRIMARY KEY and REFERENCES backends.
  unfoldable pub upsert_state_row : HealthState → Tables → Ran Tables Done
  upsert_state_row st t =
      if exists_by (has_key HealthState.backend_id st.backend_id) t.states
      then done (ok tt) (record t {
        states = update_by (has_key HealthState.backend_id st.backend_id) (set_state st) t.states;
      })
      else if exists_by (has_key Backend.id st.backend_id) t.backends
      then done (ok tt) (record t { states = st ∷ t.states })
      else refused driver.foreign_key_failed

  -- dns_providers: id PRIMARY KEY, config_id UNIQUE and REFERENCES configs.
  unfoldable pub insert_provider_row : DnsProviderConfig → Tables → Ran Tables DnsProviderConfig
  insert_provider_row p t =
      if exists_by (has_key DnsProviderConfig.id p.id) t.providers
      then refused (driver.unique_failed "dns_providers.id")
      else if exists_by (has_key DnsProviderConfig.config_id p.config_id) t.providers
      then refused (driver.unique_failed "dns_providers.config_id")
      else if exists_by (has_key Config.id p.config_id) t.configs
      then done (ok p) (record t { providers = p ∷ t.providers })
      else refused driver.foreign_key_failed

-- `UPDATE configs SET last_reconcile_error`, where NULL reads as the empty text.
unfoldable pub set_error_row : String → String → Tables → Ran Tables Done
set_error_row id text t = done (ok tt) (record t {
  configs =
      update_by (has_key Config.id id) (λ c. record c { last_reconcile_error = text }) t.configs;
})

abbrev pub set_check : HealthCheck → HealthCheck → HealthCheck
set_check hc old = record hc { id = old.id; config_id = old.config_id }

unfoldable pub update_check_row : HealthCheck → Tables → Ran Tables Done
update_check_row hc t =
    if exists_by (has_key HealthCheck.config_id hc.config_id) t.checks
    then done (ok tt) (record t {
      checks = update_by (has_key HealthCheck.config_id hc.config_id) (set_check hc) t.checks;
    })
    else done (err not_found) t

abbrev pub set_provider : DnsProviderConfig → DnsProviderConfig → DnsProviderConfig
set_provider p old = record p { id = old.id; config_id = old.config_id }

unfoldable pub update_provider_row : DnsProviderConfig → Tables → Ran Tables Done
update_provider_row p t =
    if exists_by (has_key DnsProviderConfig.config_id p.config_id) t.providers
    then done (ok tt) (record t {
      providers =
          update_by (has_key DnsProviderConfig.config_id p.config_id) (set_provider p) t.providers;
    })
    else done (err not_found) t

unfoldable pub delete_check_row : String → Tables → Ran Tables Done
delete_check_row config_id t =
    if exists_by (has_key HealthCheck.config_id config_id) t.checks
    then done (ok tt)
        (record t { checks = delete_by (has_key HealthCheck.config_id config_id) t.checks })
    else done (err not_found) t

unfoldable pub delete_provider_row : String → Tables → Ran Tables Done
delete_provider_row config_id t =
    if exists_by (has_key DnsProviderConfig.config_id config_id) t.providers
    then done (ok tt) (record t {
      providers = delete_by (has_key DnsProviderConfig.config_id config_id) t.providers;
    })
    else done (err not_found) t

-- The states of the backends that a test selects.
abbrev pub is_state_of : (Backend → Bool) → List Backend → HealthState → Bool
is_state_of p backends st = exists_by (λ b. p b && str_eq b.id st.backend_id) backends

-- The rows that a test on the backends selects go, and their states with them.
unfoldable pub drop_backends : (Backend → Bool) → Tables → Tables
drop_backends p t = record t {
  backends = delete_by p t.backends;
  states = delete_by (is_state_of p t.backends) t.states;
}

unfoldable pub delete_backend_row : String → Tables → Ran Tables Done
delete_backend_row id t =
    if exists_by (has_key Backend.id id) t.backends
    then done (ok tt) (drop_backends (has_key Backend.id id) t)
    else done (err not_found) t

-- A config goes with its backends, their states, its health check and its provider.
unfoldable pub drop_config : String → Tables → Tables
drop_config id t =
    let rest = drop_backends (has_key Backend.config_id id) t in
    record rest {
      configs = delete_by (has_key Config.id id) t.configs;
      checks = delete_by (has_key HealthCheck.config_id id) t.checks;
      providers = delete_by (has_key DnsProviderConfig.config_id id) t.providers;
    }

unfoldable pub delete_config_row : String → Tables → Ran Tables Done
delete_config_row id t =
    if exists_by (has_key Config.id id) t.configs
    then done (ok tt) (drop_config id t)
    else done (err not_found) t

-- health_history: UNIQUE(backend_id, bucket_start).
abbrev pub same_bucket : HealthHistoryBucket → HealthHistoryBucket → Bool
same_bucket b row = str_eq row.backend_id b.backend_id && row.bucket_start == b.bucket_start

unfoldable pub distinct_buckets : List HealthHistoryBucket → Bool
distinct_buckets [] = true
distinct_buckets (b ∷ rest) = not (exists_by (same_bucket b) rest) && distinct_buckets rest

-- The constraints PRIMARY KEY, UNIQUE and FOREIGN KEY of these tables.
unfoldable pub is_sound : Tables → Bool
is_sound t =
    is_distinct Config.id t.configs
    && is_distinct Config.dns_name t.configs
    && is_distinct Backend.id t.backends
    && refers Backend.config_id Config.id t.configs t.backends
    && is_distinct HealthCheck.id t.checks
    && is_distinct HealthCheck.config_id t.checks
    && refers HealthCheck.config_id Config.id t.configs t.checks
    && is_distinct HealthState.backend_id t.states
    && refers HealthState.backend_id Backend.id t.backends t.states
    && is_distinct DnsProviderConfig.id t.providers
    && is_distinct DnsProviderConfig.config_id t.providers
    && refers DnsProviderConfig.config_id Config.id t.configs t.providers
    && distinct_buckets t.history
