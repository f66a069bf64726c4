-- ===== src/Handlers/Status/Totals.antt =====
-- internal/handlers/status.go, GetConfigStatus, beside getHealthyBackends of internal/dns/reconciler.go.
use gslb.Prelude.{ℕ, suc, ◌+◌, ◌≤◌, ◌≡◌, some, List, [], ◌∷◌, length, Option-cases, inl, inr, arith}
use gslb.Prelude.Dict.{Dict, lookup}
use gslb.Types.{Backend, HealthState, HealthStatus}
use gslb.Result.{Result-cases}
use gslb.Handlers.Api.{Handlers, Caller, handle_store_error}
use gslb.Handlers.Status.{
  ConfigStatus, get_config_status, Counts, count_status, count_statuses, no_counts,
}
use gslb.Dns.Reconciler.{filter_healthy}

abbrev total : Counts → ℕ
total n = n.healthy_count + n.unhealthy_count + n.unknown_count

count_status-total : (s : HealthStatus) (n : Counts) → total (count_status s n) ≡ suc (total n)
unfolding count_status
count_status-total s n = ground arith

-- Every backend of the config is counted once, and the healthy ones are at least as many as the backends
-- that the reconciler publishes by the same states.
count_statuses-total :
    (states : Dict HealthState) (backends : List Backend) (n : Counts)
    → (total (count_statuses states backends n) ≡ total n + length backends)
      × (n.healthy_count + length (filter_healthy states backends)
          ≤ (count_statuses states backends n).healthy_count)
unfolding count_statuses count_status filter_healthy
count_statuses-total states [] n = ground arith
count_statuses-total states (b ∷ rest) n = elim (Option-cases (lookup b.id states)) [
  | inl absent ↦ ground (
    arith,
    absent,
    count_statuses-total states rest (record n { unknown_count = suc n.unknown_count }),
  )
  | inr (state, found) ↦
      ground (arith, found, count_statuses-total states rest (count_status state.status n))
]

-- A status that GetConfigStatus sends counts every backend of the config once.
get_config_status-total :
    {W : Type 0} (h : Handlers W) (caller : Caller) (w : W) (status : ConfigStatus)
    → (get_config_status h caller w).0.body ≡ some status
    → status.healthy_count + status.unhealthy_count + status.unknown_count ≡ status.backend_count
unfolding get_config_status handle_store_error
get_config_status-total h caller w status sent =
    let configs = h.store.configs.get_config caller.id w in
    let backends = h.store.backends.list_backends caller.id configs.1 in
    let states = h.store.health.get_health_states caller.id backends.1 in
    elim (Result-cases configs.0) [
      | inr (e, failed) ↦ ground (arith, sent, failed)
      | inl (cfg, found) ↦ elim (Result-cases backends.0) [
        | inr (e, failed) ↦ ground (arith, sent, found, failed)
        | inl (bs, listed) ↦ elim (Result-cases states.0) [
          | inr (e, failed) ↦ ground (arith, sent, found, listed, failed)
          | inl (sts, read) ↦
              ground (arith, sent, found, listed, read, count_statuses-total sts bs no_counts)
        ]
      ]
    ]
