-- ===== src/Dns/Reconciler/Failures.antt =====
-- internal/dns/reconciler.go: deletions that fail, the error that is stored for a config, and the
-- loop over the configs.
use text.Mathlib.TextLemmas.{append-eq-nil_iff}
use gslb.Prelude.{
  String, false, ◌≡◌, ◌≢◌, refl, ◌↔◌, inl, inr, ◌⊎◌, Bool-cases, ◌∙◌, List, [], ◌∷◌, some, All,
  str_eq, eq_iff, arith,
}
use gslb.Prelude.Dict.{Dict, lookup}
use gslb.Types.{Config, Backend}
use gslb.Result.{GoError, error_text, wrapped, Result, ok, err, Result-cases}
use gslb.Store.{Store, Done}
use gslb.Dns.Provider.{DnsProvider, ProviderFactory}
use gslb.Dns.Ips.{extract_ips}
use gslb.Dns.Reconciler.{
  Reconciler, choose, notify, resolve_provider, push_records, update_dns, get_healthy_backends,
  needs_update, publish, reconcile, outcome_text, reconcile_and_store, reconcile_all,
  reconcile_once,
}
use gslb.Dns.Reconciler.Publish.{update_not_published, publish-frame}

wrapped_text : (text : String) (e : GoError) → text ≢ "" → error_text (wrapped text e) ≢ ""
unfolding error_text
wrapped_text text e n h = n (append-eq-nil_iff.0 h).0

-- Success, or an error in a context whose text is not empty.
abbrev IsReported : Result Done → Type 0
IsReported result =
    (result ≡ ok tt)
    ⊎ ((text : String) × (e : GoError) × (result ≡ err (wrapped text e)) × (text ≢ ""))

outcome_text-IsReported :
    (result : Result Done) → IsReported result → (outcome_text result ≡ "") ↔ (result ≡ ok tt)
outcome_text-IsReported result (inl q) = (λ h. q, λ h. ground (arith, q))
outcome_text-IsReported result (inr (text, e, q, n)) =
    (λ h. absurd (wrapped_text text e n (ground (arith, q, h))), λ h. absurd (ground (arith, q, h)))

module _ {W : Type 0} (s : Store W) (registry : Dict (ProviderFactory W)) where
  -- The result of a deletion does not count.
  update_dns-delete :
      (cfg : Config) (backends : List Backend) (r : Reconciler W) (w : W) (p : DnsProvider W)
      → (resolve_provider s registry r.provider cfg.id w).0 ≡ some p
      → extract_ips backends ≡ []
      → (update_dns s registry cfg backends (r, w)).0 ≡ ok tt
  unfolding update_dns push_records
  update_dns-delete cfg backends r w p resolved none_left = ground (arith, resolved, none_left)

  publish-delete :
      (cfg : Config) (healthy : List Backend) (r : Reconciler W) (w : W) (p : DnsProvider W)
      → extract_ips (choose cfg.lb_method healthy) ≡ []
      → (resolve_provider s registry r.provider cfg.id
          (notify r.on_backend_selected (choose cfg.lb_method healthy) w)).0
        ≡ some p
      → (publish s registry cfg healthy (r, w)).0 ≡ ok tt
  unfolding publish
  publish-delete cfg healthy r w p none_left resolved =
      let selected = choose cfg.lb_method healthy in
      let w' = notify r.on_backend_selected selected w in
      ground (arith, update_dns-delete cfg selected r w' p resolved none_left)

  -- A deletion that fails is not tried again: where no address is left, a pass with a provider
  -- succeeds whatever its DeleteRecord returns, and every later pass with the same backends calls
  -- no provider and only notifies.
  pub failed_delete_forgotten :
      (cfg : Config) (healthy : List Backend) (r : Reconciler W) (w : W) (p : DnsProvider W)
      → extract_ips (choose cfg.lb_method healthy) ≡ []
      → (resolve_provider s registry r.provider cfg.id
          (notify r.on_backend_selected (choose cfg.lb_method healthy) w)).0
        ≡ some p
      → let r' = (publish s registry cfg healthy (r, w)).1.0 in
        ((publish s registry cfg healthy (r, w)).0 ≡ ok tt)
        × ((w' : W)
            → publish s registry cfg healthy (r', w')
              ≡ (ok tt, (r', notify r.on_backend_selected (choose cfg.lb_method healthy) w')))
  failed_delete_forgotten cfg healthy r w p none_left resolved =
      let done = publish-delete cfg healthy r w p none_left resolved in
      (done, λ w'. update_not_published s registry cfg cfg healthy r w w' p resolved done refl refl)

  publish-IsReported :
      (cfg : Config) (healthy : List Backend) (r : Reconciler W) (w : W)
      → IsReported (publish s registry cfg healthy (r, w)).0
  unfolding publish
  publish-IsReported cfg healthy r w =
      let selected = choose cfg.lb_method healthy in
      let w' = notify r.on_backend_selected selected w in
      elim (Bool-cases (needs_update r.last_records cfg.id (extract_ips selected))) [
        | inr no_need ↦ inl (ground (arith, no_need))
        | inl needed ↦ elim (Result-cases (update_dns s registry cfg selected (r, w')).0) [
          | inl (a, q) ↦ inl (ground (arith, needed, q))
          | inr (e, q) ↦ inr ("failed to update DNS", e, ground (arith, needed, q), no_text)
        ]
      ]
    where
      no_text : ◌≢◌ {A = String} "failed to update DNS" ""
      no_text = ground (arith, eq_iff "failed to update DNS" "")

  reconcile-IsReported :
      (cfg : Config) (r : Reconciler W) (w : W) → IsReported (reconcile s registry cfg (r, w)).0
  unfolding reconcile
  reconcile-IsReported cfg r w = elim (Result-cases (get_healthy_backends s registry cfg.id w).0) [
    | inl (healthy, q) ↦
        let w' = (get_healthy_backends s registry cfg.id w).1 in
        ground (arith, q, publish-IsReported cfg healthy r w')
    | inr (e, q) ↦ inr ("failed to get healthy backends", e, ground (arith, q), no_text)
  ]
    where
      no_text : ◌≢◌ {A = String} "failed to get healthy backends" ""
      no_text = ground (arith, eq_iff "failed to get healthy backends" "")

  -- The text stored for a config after a pass is empty, which clears an error, exactly when the
  -- pass succeeded.
  pub outcome_text-reconcile :
      (cfg : Config) (r : Reconciler W) (w : W)
      → (outcome_text (reconcile s registry cfg (r, w)).0 ≡ "")
        ↔ ((reconcile s registry cfg (r, w)).0 ≡ ok tt)
  outcome_text-reconcile cfg r w =
      outcome_text-IsReported (reconcile s registry cfg (r, w)).0 (reconcile-IsReported cfg r w)

  reconcile-lookup_ne :
      (cfg : Config) (rw₀ : Reconciler W × W) (id : String)
      → str_eq cfg.id id ≡ false
      → lookup id (reconcile_and_store s registry cfg rw₀).1.0.last_records
        ≡ lookup id rw₀.0.last_records
  unfolding reconcile_and_store reconcile
  reconcile-lookup_ne cfg (r, w) id n =
      elim (Result-cases (get_healthy_backends s registry cfg.id w).0) [
        | inl (healthy, q) ↦
            let w' = (get_healthy_backends s registry cfg.id w).1 in
            ground (arith, q, (publish-frame s registry cfg healthy r w' id).2 n)
        | inr (e, q) ↦ ground (arith, q)
      ]

  reconcile_all-lookup_ne :
      (configs : List Config) (rw₀ : Reconciler W × W) (id : String)
      → All (λ c. str_eq c.id id ≡ false) configs
      → lookup id (reconcile_all s registry configs rw₀).0.last_records
        ≡ lookup id rw₀.0.last_records
  unfolding reconcile_all
  reconcile_all-lookup_ne [] rw₀ id h = refl
  reconcile_all-lookup_ne (cfg ∷ rest) rw₀ id h =
      reconcile_all-lookup_ne rest (reconcile_and_store s registry cfg rw₀).1 id h.1
      ∙ reconcile-lookup_ne cfg rw₀ id h.0

  -- A full pass changes what is remembered for the configs that the store lists, and for no other.
  -- It returns an error exactly when the configs cannot be listed; the errors of the single
  -- configs do not end it.
  pub reconcile_once-frame :
      (r : Reconciler W) (w : W) (id : String)
      → ((configs : List Config)
          → (s.configs.list_configs w).0 ≡ ok configs
          → ((reconcile_once s registry (r, w)).0 ≡ ok tt)
            × (All (λ c. str_eq c.id id ≡ false) configs
                → lookup id (reconcile_once s registry (r, w)).1.0.last_records
                  ≡ lookup id r.last_records))
        × ((e : GoError)
            → (s.configs.list_configs w).0 ≡ err e
            → ((reconcile_once s registry (r, w)).0 ≡ err (wrapped "failed to list configs" e))
              × ((reconcile_once s registry (r, w)).1.0 ≡ r))
  unfolding reconcile_once
  reconcile_once-frame r w id = (
    λ configs q. (
      ground (arith, q),
      λ h.
          ground (arith, q, reconcile_all-lookup_ne configs (r, (s.configs.list_configs w).1) id h),
    ),
    λ e q. (ground (arith, q), ground (arith, q)),
  )
