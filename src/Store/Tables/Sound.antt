-- ===== src/Store/Tables/Sound.antt =====
-- The constraints of internal/db/migrations.go hold of the tables after every statement of
-- internal/store that they hold of before.
use gslb.Prelude.{String, Bool, true, ◌≡◌, refl, Bool-cases, inl, inr, arith}
use gslb.Types.{Config, Backend, HealthCheck, HealthState, DnsProviderConfig}
use gslb.Store.Sql.{tables_after}
use gslb.Store.Rows.{exists_by, has_key, is_distinct, refers}
use gslb.Store.Rows.Keys.{
  refers-parent, refers-parents_updated, refers-update_by, refers-delete_by, is_distinct-update_by,
  is_distinct-update_by_id, is_distinct-delete_by,
}
use gslb.Store.Tables.{
  Driver, Tables, is_sound, insert_config_row, update_config_row, set_config, insert_backend_row,
  update_backend_row, insert_check_row, upsert_state_row, insert_provider_row, set_error_row,
  update_check_row, update_provider_row, delete_check_row, delete_provider_row, set_backend,
  set_check, set_provider, set_state,
}

module _ (driver : Driver) (t : Tables) where
  pub insert_config_row-is_sound :
      (c : Config)
      → is_sound t ≡ true
      → is_sound (tables_after t (insert_config_row driver c t)) ≡ true
  unfolding insert_config_row is_sound is_distinct
  insert_config_row-is_sound c h =
      let row : Config = record c { last_reconcile_error = "" } in
      ground (
        arith,
        h,
        refers-parent Backend.config_id Config.id row t.configs t.backends,
        refers-parent HealthCheck.config_id Config.id row t.configs t.checks,
        refers-parent DnsProviderConfig.config_id Config.id row t.configs t.providers,
      )

  pub update_config_row-is_sound :
      (c : Config)
      → is_sound t ≡ true
      → is_sound (tables_after t (update_config_row driver c t)) ≡ true
  unfolding update_config_row is_sound
  update_config_row-is_sound c h =
      let p : Config → Bool = has_key Config.id c.id in
      ground (
        arith,
        h,
        is_distinct-update_by Config.id p (set_config c) t.configs (λ r. refl),
        is_distinct-update_by_id Config.id Config.dns_name c.id c.dns_name (set_config c) t.configs
            (λ r. refl),
        refers-parents_updated Backend.config_id Config.id p (set_config c) t.configs t.backends
            (λ r. refl),
        refers-parents_updated HealthCheck.config_id Config.id p (set_config c) t.configs t.checks
            (λ r. refl),
        refers-parents_updated DnsProviderConfig.config_id Config.id p (set_config c) t.configs
            t.providers (λ r. refl),
      )

  pub insert_backend_row-is_sound :
      (b : Backend)
      → is_sound t ≡ true
      → is_sound (tables_after t (insert_backend_row driver b t)) ≡ true
  unfolding insert_backend_row is_sound is_distinct refers
  insert_backend_row-is_sound b h =
      ground (arith, h, refers-parent HealthState.backend_id Backend.id b t.backends t.states)

  pub update_backend_row-is_sound :
      (b : Backend)
      → is_sound t ≡ true
      → is_sound (tables_after t (update_backend_row driver b t)) ≡ true
  unfolding update_backend_row is_sound
  update_backend_row-is_sound b h =
      elim (Bool-cases (exists_by (has_key Config.id b.config_id) t.configs)) [
        | inr absent ↦ ground (arith, h, absent)
        | inl present ↦
            let p : Backend → Bool = has_key Backend.id b.id in
            ground (
              arith,
              h,
              is_distinct-update_by Backend.id p (set_backend b) t.backends (λ r. refl),
              refers-update_by Backend.config_id Config.id p (set_backend b) t.configs t.backends
                  (λ r e. present),
              refers-parents_updated HealthState.backend_id Backend.id p (set_backend b) t.backends
                  t.states (λ r. refl),
            )
      ]

  pub insert_check_row-is_sound :
      (hc : HealthCheck)
      → is_sound t ≡ true
      → is_sound (tables_after t (insert_check_row driver hc t)) ≡ true
  unfolding insert_check_row is_sound is_distinct refers
  insert_check_row-is_sound hc h = ground (arith, h)

  pub insert_provider_row-is_sound :
      (p : DnsProviderConfig)
      → is_sound t ≡ true
      → is_sound (tables_after t (insert_provider_row driver p t)) ≡ true
  unfolding insert_provider_row is_sound is_distinct refers
  insert_provider_row-is_sound p h = ground (arith, h)

  pub upsert_state_row-is_sound :
      (st : HealthState)
      → is_sound t ≡ true
      → is_sound (tables_after t (upsert_state_row driver st t)) ≡ true
  unfolding upsert_state_row is_sound is_distinct refers
  upsert_state_row-is_sound st h =
      let p : HealthState → Bool = has_key HealthState.backend_id st.backend_id in
      ground (
        arith,
        h,
        is_distinct-update_by HealthState.backend_id p (set_state st) t.states (λ r. refl),
        refers-update_by HealthState.backend_id Backend.id p (set_state st) t.backends t.states
            (λ r e. e),
      )

  pub set_error_row-is_sound :
      (id text : String)
      → is_sound t ≡ true
      → is_sound (tables_after t (set_error_row id text t)) ≡ true
  unfolding set_error_row is_sound
  set_error_row-is_sound id text h =
      let p : Config → Bool = has_key Config.id id in
      let f : Config → Config = λ c. record c { last_reconcile_error = text } in
      ground (
        arith,
        h,
        is_distinct-update_by Config.id p f t.configs (λ r. refl),
        is_distinct-update_by Config.dns_name p f t.configs (λ r. refl),
        refers-parents_updated Backend.config_id Config.id p f t.configs t.backends (λ r. refl),
        refers-parents_updated HealthCheck.config_id Config.id p f t.configs t.checks (λ r. refl),
        refers-parents_updated DnsProviderConfig.config_id Config.id p f t.configs t.providers
            (λ r. refl),
      )

  pub update_check_row-is_sound :
      (hc : HealthCheck)
      → is_sound t ≡ true
      → is_sound (tables_after t (update_check_row hc t)) ≡ true
  unfolding update_check_row is_sound
  update_check_row-is_sound hc h =
      let p : HealthCheck → Bool = has_key HealthCheck.config_id hc.config_id in
      ground (
        arith,
        h,
        is_distinct-update_by HealthCheck.id p (set_check hc) t.checks (λ r. refl),
        is_distinct-update_by HealthCheck.config_id p (set_check hc) t.checks (λ r. refl),
        refers-update_by HealthCheck.config_id Config.id p (set_check hc) t.configs t.checks
            (λ r e. e),
      )

  pub update_provider_row-is_sound :
      (q : DnsProviderConfig)
      → is_sound t ≡ true
      → is_sound (tables_after t (update_provider_row q t)) ≡ true
  unfolding update_provider_row is_sound
  update_provider_row-is_sound q h =
      let p : DnsProviderConfig → Bool = has_key DnsProviderConfig.config_id q.config_id in
      ground (
        arith,
        h,
        is_distinct-update_by DnsProviderConfig.id p (set_provider q) t.providers (λ r. refl),
        is_distinct-update_by DnsProviderConfig.config_id p (set_provider q) t.providers
            (λ r. refl),
        refers-update_by DnsProviderConfig.config_id Config.id p (set_provider q) t.configs
            t.providers (λ r e. e),
      )

  pub delete_check_row-is_sound :
      (id : String) → is_sound t ≡ true → is_sound (tables_after t (delete_check_row id t)) ≡ true
  unfolding delete_check_row is_sound
  delete_check_row-is_sound id h =
      let p : HealthCheck → Bool = has_key HealthCheck.config_id id in
      ground (
        arith,
        h,
        is_distinct-delete_by HealthCheck.id p t.checks,
        is_distinct-delete_by HealthCheck.config_id p t.checks,
        refers-delete_by HealthCheck.config_id Config.id p t.configs t.checks,
      )

  pub delete_provider_row-is_sound :
      (id : String)
      → is_sound t ≡ true
      → is_sound (tables_after t (delete_provider_row id t)) ≡ true
  unfolding delete_provider_row is_sound
  delete_provider_row-is_sound id h =
      let p : DnsProviderConfig → Bool = has_key DnsProviderConfig.config_id id in
      ground (
        arith,
        h,
        is_distinct-delete_by DnsProviderConfig.id p t.providers,
        is_distinct-delete_by DnsProviderConfig.config_id p t.providers,
        refers-delete_by DnsProviderConfig.config_id Config.id p t.configs t.providers,
      )
