-- ===== src/Store/Tables/Cascade.antt =====
-- The constraints of internal/db/migrations.go hold of the tables after the deletion of a backend
-- and of a config, whose ON DELETE CASCADE takes the rows that refer to it.
use gslb.Prelude.{String, List, ◌∷◌, Bool, true, false, ◌≡◌, ◌∙◌, [], str_eq, eq_iff, arith}
use gslb.Types.{Config, Backend, HealthCheck, HealthState, DnsProviderConfig}
use gslb.Store.Sql.{tables_after}
use gslb.Store.Rows.{exists_by, delete_by, has_key}
use gslb.Store.Rows.Keys.{
  refers_cascade, refers-delete_by, is_distinct-delete_by, exists_by-delete_by_other,
}
use gslb.Store.Tables.{
  Tables, is_sound, delete_backend_row, delete_config_row, drop_config, drop_backends, is_state_of,
}

-- A parent that a deletion takes away is one of those that it selects.
kept_unless_selected :
    (p : Backend → Bool) (backends : List Backend) (st : HealthState)
    → exists_by (has_key Backend.id st.backend_id) backends ≡ true
    → is_state_of p backends st ≡ false
    → exists_by (has_key Backend.id st.backend_id) (delete_by p backends) ≡ true
unfolding exists_by delete_by
kept_unless_selected p [] st e h = e
kept_unless_selected p (b ∷ rest) st e h = ground (arith, e, h, kept_unless_selected p rest st)

different :
    (c : Config) (k id : String)
    → str_eq k id ≡ false
    → str_eq c.id k ≡ true
    → str_eq c.id id ≡ false
different c k id n e = ground (arith, n, e, eq_iff c.id k, eq_iff c.id id, eq_iff k id)

module _ (t : Tables) where
  pub delete_backend_row-is_sound :
      (id : String) → is_sound t ≡ true → is_sound (tables_after t (delete_backend_row id t)) ≡ true
  unfolding delete_backend_row is_sound drop_backends
  delete_backend_row-is_sound id h =
      let p : Backend → Bool = has_key Backend.id id in
      let lost : HealthState → Bool = is_state_of p t.backends in
      ground (
        arith,
        h,
        is_distinct-delete_by Backend.id p t.backends,
        refers-delete_by Backend.config_id Config.id p t.configs t.backends,
        is_distinct-delete_by HealthState.backend_id lost t.states,
        refers_cascade HealthState.backend_id Backend.id p lost t.backends t.states
            (kept_unless_selected p t.backends),
      )

  pub delete_config_row-is_sound :
      (id : String) → is_sound t ≡ true → is_sound (tables_after t (delete_config_row id t)) ≡ true
  unfolding delete_config_row is_sound drop_config drop_backends
  delete_config_row-is_sound id h =
      let gone : Config → Bool = has_key Config.id id in
      let p : Backend → Bool = has_key Backend.config_id id in
      let lost : HealthState → Bool = is_state_of p t.backends in
      let checks : HealthCheck → Bool = has_key HealthCheck.config_id id in
      let providers : DnsProviderConfig → Bool = has_key DnsProviderConfig.config_id id in
      ground (
        arith,
        h,
        is_distinct-delete_by Config.id gone t.configs,
        is_distinct-delete_by Config.dns_name gone t.configs,
        is_distinct-delete_by Backend.id p t.backends,
        refers_cascade Backend.config_id Config.id gone p t.configs t.backends
            (λ b. other_config t.configs b.config_id id),
        is_distinct-delete_by HealthCheck.id checks t.checks,
        is_distinct-delete_by HealthCheck.config_id checks t.checks,
        refers_cascade HealthCheck.config_id Config.id gone checks t.configs t.checks
            (λ hc. other_config t.configs hc.config_id id),
        is_distinct-delete_by HealthState.backend_id lost t.states,
        refers_cascade HealthState.backend_id Backend.id p lost t.backends t.states
            (kept_unless_selected p t.backends),
        is_distinct-delete_by DnsProviderConfig.id providers t.providers,
        is_distinct-delete_by DnsProviderConfig.config_id providers t.providers,
        refers_cascade DnsProviderConfig.config_id Config.id gone providers t.configs t.providers
            (λ q. other_config t.configs q.config_id id),
      )
    where
      other_config :
          (configs : List Config) (k id : String)
          → exists_by (has_key Config.id k) configs ≡ true
          → str_eq k id ≡ false
          → exists_by (has_key Config.id k) (delete_by (has_key Config.id id) configs) ≡ true
      other_config configs k id e n =
          exists_by-delete_by_other (has_key Config.id k) (has_key Config.id id) configs
            (λ c. different c k id n)
          ∙ e
