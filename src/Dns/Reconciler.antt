-- ===== src/Dns/Reconciler.antt =====
-- internal/dns/reconciler.go. The record holds what the reconciler keeps; an operation runs over
-- it and the world `W` (the database behind the store, the providers, the selection callback).
-- The lock makes the accesses to `last_records` atomic; a pass is modelled as running alone.
pub mod Selection
pub mod Contents
pub mod Publish
pub mod Failures
use gslb.Prelude.{
  ℤ, pos, String, Bool, true, false, ◌&&◌, not, Option, none, some, List, [], ◌∷◌, str_eq, leb_ℤ,
  ltb_ℤ, if◌then◌else◌,
}
use gslb.Prelude.Dict.{Dict, lookup, insert}
use gslb.Types.{Config, Backend, HealthState, LbMethod, is_healthy, weighted}
use gslb.Result.{GoError, message, error_text, Result, ok, err, Exec, context, pure, fail, ◌>>=◌}
use gslb.Store.{Store, Done}
use gslb.Dns.Provider.{DnsProvider, ProviderFactory, create_provider, UpsertRequest, DeleteRequest}
use gslb.Dns.Ips.{extract_ips}

pub record Reconciler (W : Type 0) : Type 0 where
  pub provider : Option (DnsProvider W)
  pub interval_seconds : ℤ
  pub last_records : Dict (List String)
  pub running : Bool
  pub on_backend_selected : Option (String → W → W)

-- `NewReconciler`; `OnBackendSelected` is set later.
unfoldable pub new_reconciler : {W : Type 0} → Option (DnsProvider W) → ℤ → Reconciler W
new_reconciler provider interval = record {
  provider = provider;
  interval_seconds = if leb_ℤ interval (pos 0) then pos 30 else interval;
  last_records = [];
  running = false;
  on_backend_selected = none;
}

-- A weight that is not positive counts as 1.
abbrev pub effective_weight : Backend → ℤ
effective_weight b = if leb_ℤ b.weight (pos 0) then pos 1 else b.weight

-- The loop of `selectWeighted`.
unfoldable pub select_from : Backend → List Backend → Backend
select_from best [] = best
select_from best (b ∷ rest) =
    select_from (if ltb_ℤ (effective_weight b) (effective_weight best) then b else best) rest

unfoldable pub select_weighted : List Backend → Option Backend
unfolding select_from
select_weighted [] = none
select_weighted (b ∷ rest) = some (select_from b rest)

abbrev pub state_healthy : Option HealthState → Bool
state_healthy none = false
state_healthy (some state) = is_healthy state.status

-- Enabled, with a stored state that is healthy.
abbrev pub is_publishable : Dict HealthState → Backend → Bool
is_publishable states b = b.enabled && state_healthy (lookup b.id states)

-- The loop of `getHealthyBackends`.
unfoldable pub filter_healthy : Dict HealthState → List Backend → List Backend
filter_healthy states [] = []
filter_healthy states (b ∷ rest) =
    let others = filter_healthy states rest in
    if is_publishable states b then b ∷ others else others

-- The backends to publish, by the method of the config.
unfoldable pub choose : LbMethod → List Backend → List Backend
choose weighted healthy = elim (select_weighted healthy) [ some b ↦ b ∷ [] | none ↦ [] ]
choose _ healthy = healthy

abbrev pub same_texts : List String → List String → Bool
same_texts [] [] = true
same_texts [] (b ∷ ys) = false
same_texts (a ∷ xs) [] = false
same_texts (a ∷ xs) (b ∷ ys) = str_eq a b && same_texts xs ys

-- `needsUpdate`; the lengths and the elements are compared at once.
unfoldable pub needs_update : Dict (List String) → String → List String → Bool
needs_update last_records config_id ips = elim (lookup config_id last_records) [
  | none ↦ true
  | some last ↦ not (same_texts last ips)
]

-- The calls of `OnBackendSelected`.
unfoldable pub notify : {W : Type 0} → Option (String → W → W) → List Backend → W → W
notify none backends w = w
notify (some f) [] w = w
notify (some f) (b ∷ rest) w = notify (some f) rest (f b.id w)

-- The text that `SetConfigReconcileError` is given after a reconciliation.
abbrev pub outcome_text : Result Done → String
outcome_text (ok _) = ""
outcome_text (err e) = error_text e

-- The call to the provider. With no address the record is deleted, and an error of that is
-- only logged.
unfoldable pub push_records : {W : Type 0} → DnsProvider W → Config → List String → Exec W Done
push_records p cfg [] w =
    (ok tt, (p.delete_record (record { zone_id = ""; name = cfg.dns_name }) w).1)
push_records p cfg (ip ∷ ips) w =
    context "failed to upsert DNS record"
      (p.upsert_record
        (record { zone_id = ""; name = cfg.dns_name; ttl = cfg.dns_ttl; records = ip ∷ ips }))
      w

-- What the loop of `run` receives.
pub data Event : Type 0 where
  tick context_done stop_signal : Event

module _ {W : Type 0} (s : Store W) (registry : Dict (ProviderFactory W)) where
  unfoldable pub get_healthy_backends : String → Exec W (List Backend)
  get_healthy_backends config_id =
      context "failed to list backends" (s.backends.list_backends config_id) >>= λ backends.
      context "failed to get health states" (s.health.get_health_states config_id) >>= λ states.
      pure (filter_healthy states backends)

  -- `resolveProvider`: the config's own provider, and the default one if there is none or it
  -- cannot be made. `none` is the nil provider.
  unfoldable pub resolve_provider : Option (DnsProvider W) → String → W → Option (DnsProvider W) × W
  resolve_provider default config_id w =
      let stored = s.providers.get_dns_provider config_id w in
      elim stored.0 [
        | err e ↦ (default, stored.1)
        | ok cfg ↦
            let made = create_provider registry cfg.provider_type cfg.config_json stored.1 in
            elim made.0 [ ok p ↦ (some p, made.1) | err e ↦ (default, made.1) ]
      ]

  -- `updateDNS`. Without a provider nothing happens, and nothing is remembered.
  unfoldable pub update_dns : Config → List Backend → Exec (Reconciler W × W) Done
  update_dns cfg backends (r, w) =
      let resolved = resolve_provider r.provider cfg.id w in
      elim resolved.0 [
        | none ↦ (ok tt, (r, resolved.1))
        | some p ↦
            let pushed = push_records p cfg (extract_ips backends) resolved.1 in
            elim pushed.0 [
              | err e ↦ (err e, (r, pushed.1))
              | ok _ ↦ (
                ok tt,
                (
                  record r { last_records = insert cfg.id (extract_ips backends) r.last_records },
                  pushed.1,
                ),
              )
            ]
      ]

  -- `reconcileConfig` from the healthy backends on.
  unfoldable pub publish : Config → List Backend → Exec (Reconciler W × W) Done
  publish cfg healthy (r, w) =
      let selected = choose cfg.lb_method healthy in
      let w' = notify r.on_backend_selected selected w in
      if needs_update r.last_records cfg.id (extract_ips selected)
      then context "failed to update DNS" (update_dns cfg selected) (r, w')
      else (ok tt, (r, w'))

  unfoldable pub reconcile : Config → Exec (Reconciler W × W) Done
  reconcile cfg (r, w) =
      let found = context "failed to get healthy backends" (get_healthy_backends cfg.id) w in
      elim found.0 [ ok healthy ↦ publish cfg healthy (r, found.1) | err e ↦ (err e, (r, found.1)) ]

  -- `SetConfigReconcileError` after a reconciliation; an error of it is only logged.
  store_outcome : String → Result Done × (Reconciler W × W) → Result Done × (Reconciler W × W)
  store_outcome config_id (result, (r, w)) =
      (result, (r, (s.configs.set_config_reconcile_error config_id (outcome_text result) w).1))

  -- One config of the loop of `ReconcileOnce`.
  unfoldable pub reconcile_and_store : Config → Exec (Reconciler W × W) Done
  unfolding store_outcome
  reconcile_and_store cfg rw = store_outcome cfg.id (reconcile cfg rw)

  unfoldable pub reconcile_all : List Config → Reconciler W × W → Reconciler W × W
  reconcile_all [] rw = rw
  reconcile_all (cfg ∷ rest) rw = reconcile_all rest (reconcile_and_store cfg rw).1

  unfoldable pub reconcile_once : Exec (Reconciler W × W) Done
  reconcile_once (r, w) =
      let listed = context "failed to list configs" s.configs.list_configs w in
      elim listed.0 [
        | ok configs ↦ (ok tt, reconcile_all configs (r, listed.1))
        | err e ↦ (err e, (r, listed.1))
      ]

  -- `ReconcileConfig`, on demand.
  unfoldable pub reconcile_config : String → Exec (Reconciler W × W) Done
  unfolding store_outcome
  reconcile_config config_id (r, w) =
      let found = context "get config" (s.configs.get_config config_id) w in
      elim found.0 [
        | ok cfg ↦ store_outcome config_id (reconcile cfg (r, found.1))
        | err e ↦ (err e, (r, found.1))
      ]

  -- `Start`: the initial pass runs at once, and its error is only logged; then the loop starts.
  unfoldable pub start : Exec (Reconciler W × W) Done
  start (r, w) =
      if r.running
      then (err (message "reconciler already running"), (r, w))
      else (ok tt, (reconcile_once (record r { running = true }, w)).1)

  -- `run` over the events in their order: a tick is a pass, the others end the loop.
  unfoldable pub run : List Event → Reconciler W × W → Reconciler W × W
  run [] rw = rw
  run (tick ∷ rest) rw = run rest (reconcile_once rw).1
  run (context_done ∷ rest) rw = rw
  run (stop_signal ∷ rest) rw = rw

-- `Stop`: closing the channel is the `stop_signal` of the loop.
unfoldable pub stop : {W : Type 0} → Reconciler W → Reconciler W
stop r = if r.running then record r { running = false } else r

unfoldable pub get_last_records : {W : Type 0} → String → Reconciler W → Option (List String)
get_last_records config_id r = lookup config_id r.last_records
