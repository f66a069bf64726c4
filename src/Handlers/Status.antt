-- ===== src/Handlers/Status.antt =====
-- internal/handlers/status.go: the status of a config, and of the server. `time.Now` is an argument. The
-- counters count the elements of a slice, so that they stay below 2^63.
pub mod Totals
use gslb.Prelude.{ℕ, suc, String, Bool, none, some, List, [], ◌∷◌, length, str_eq, if◌then◌else◌}
use gslb.Prelude.Dict.{Dict, lookup}
use gslb.Types.{Backend, HealthState, HealthStatus, healthy, unhealthy}
use gslb.Health.Engine.{EngineStats}
use gslb.Handlers.Api.{
  Handlers, Caller, Response, Serve, send_success, send_validation_error, or_store_error,
}

pub record SystemStatus : Type 0 where
  pub status : String
  pub version : String
  pub timestamp : ℕ
  pub health_stats : EngineStats

pub record ConfigStatus : Type 0 where
  pub config_id : String
  pub name : String
  pub backend_count : ℕ
  pub healthy_count : ℕ
  pub unhealthy_count : ℕ
  pub unknown_count : ℕ
  pub health_states : Dict HealthState

unfoldable pub get_system_status : EngineStats → ℕ → Response SystemStatus
get_system_status stats now =
    send_success
      (record { status = "healthy"; version = "1.0.0"; timestamp = now; health_stats = stats })

-- The three counters of the loop.
pub record Counts : Type 0 where
  pub healthy_count : ℕ
  pub unhealthy_count : ℕ
  pub unknown_count : ℕ

unfoldable pub count_status : HealthStatus → Counts → Counts
count_status healthy n = record n { healthy_count = suc n.healthy_count }
count_status unhealthy n = record n { unhealthy_count = suc n.unhealthy_count }
count_status _ n = record n { unknown_count = suc n.unknown_count }

unfoldable pub count_statuses : Dict HealthState → List Backend → Counts → Counts
count_statuses health_states [] n = n
count_statuses health_states (backend ∷ rest) n =
    count_statuses health_states rest (elim (lookup backend.id health_states) [
      | none ↦ record n { unknown_count = suc n.unknown_count }
      | some state ↦ count_status state.status n
    ])

abbrev pub no_counts : Counts
no_counts = record { healthy_count = 0; unhealthy_count = 0; unknown_count = 0 }

module _ {W : Type 0} (h : Handlers W) where
  unfoldable pub get_config_status : Caller → Serve W ConfigStatus
  get_config_status caller w =
      if str_eq caller.id ""
      then (send_validation_error "config id is required", w)
      else or_store_error (h.store.configs.get_config caller.id)
          (λ cfg. or_store_error (h.store.backends.list_backends caller.id) (λ backends.
            or_store_error (h.store.health.get_health_states caller.id) (λ health_states w.
              let n = count_statuses health_states backends no_counts in
              (
                send_success (record {
                  config_id = cfg.id;
                  name = cfg.name;
                  backend_count = length backends;
                  healthy_count = n.healthy_count;
                  unhealthy_count = n.unhealthy_count;
                  unknown_count = n.unknown_count;
                  health_states = health_states;
                }),
                w,
              ))))
          w

-- The status alone: the body is a text for the monitor.
unfoldable pub ready_handler : Bool → ℕ
ready_handler is_running = if is_running then 200 else 503
