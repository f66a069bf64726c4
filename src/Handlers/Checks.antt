-- ===== src/Handlers/Checks.antt =====
-- internal/handlers/health.go: the health check of a config, and the health of a backend.
use gslb.Prelude.{String, none, List, [], ◌∷◌, ◌++◌, ℤ, pos, eqb_ℤ, str_eq, if◌then◌else◌}
use gslb.Types.{HealthCheck, HealthState, unknown}
use gslb.Result.{is_not_found, Result, ok, err}
use gslb.Store.{Done}
use gslb.Handlers.Api.{
  Handlers, Caller, Serve, ChangeEntry, entry, changed, build_details, itoa, send_success,
  send_no_content, send_validation_error, handle_store_error, or_store_error, bind_json, log_audit,
}

pub record ConfigureHealthCheckRequest : Type 0 where
  pub type : String
  pub interval_seconds : ℤ
  pub timeout_seconds : ℤ
  pub threshold_healthy : ℤ
  pub threshold_unhealthy : ℤ

abbrev created_changes : HealthCheck → List ChangeEntry
created_changes hc =
    entry "type" "" hc.type
    ∷ entry "interval_seconds" "" (itoa hc.interval_seconds)
    ∷ entry "timeout_seconds" "" (itoa hc.timeout_seconds)
    ∷ entry "threshold_healthy" "" (itoa hc.threshold_healthy)
    ∷ entry "threshold_unhealthy" "" (itoa hc.threshold_unhealthy)
    ∷ []

abbrev deleted_changes : HealthCheck → List ChangeEntry
deleted_changes hc =
    entry "type" hc.type ""
    ∷ entry "interval_seconds" (itoa hc.interval_seconds) ""
    ∷ entry "timeout_seconds" (itoa hc.timeout_seconds) ""
    ∷ entry "threshold_healthy" (itoa hc.threshold_healthy) ""
    ∷ entry "threshold_unhealthy" (itoa hc.threshold_unhealthy) ""
    ∷ []

abbrev changed_number : String → ℤ → ℤ → List ChangeEntry
changed_number field old new = changed (eqb_ℤ old new) field (itoa old) (itoa new)

abbrev check_changes : HealthCheck → HealthCheck → List ChangeEntry
check_changes old hc =
    changed (str_eq old.type hc.type) "type" old.type hc.type
    ++ changed_number "interval_seconds" old.interval_seconds hc.interval_seconds
    ++ changed_number "timeout_seconds" old.timeout_seconds hc.timeout_seconds
    ++ changed_number "threshold_healthy" old.threshold_healthy hc.threshold_healthy
    ++ changed_number "threshold_unhealthy" old.threshold_unhealthy hc.threshold_unhealthy

abbrev pub check_of : String → String → ConfigureHealthCheckRequest → HealthCheck
check_of id config_id req = record {
  id = id;
  config_id = config_id;
  type = req.type;
  interval_seconds = req.interval_seconds;
  timeout_seconds = req.timeout_seconds;
  threshold_healthy = req.threshold_healthy;
  threshold_unhealthy = req.threshold_unhealthy;
}

-- The backend has no stored state.
abbrev unknown_state : String → HealthState
unknown_state id = record {
  backend_id = id;
  status = unknown;
  consecutive_successes = pos 0;
  consecutive_failures = pos 0;
  last_check_at = none;
  last_healthy_at = none;
  last_error = "";
}

module _ {W : Type 0} (h : Handlers W) where
  -- Whether there is a health check decides between an update and an insertion; every error of the
  -- query counts as none.
  unfoldable pub save_check :
      Caller → ConfigureHealthCheckRequest → Result HealthCheck → Serve W HealthCheck
  save_check caller req (ok existing) w =
      let hc = check_of existing.id caller.id req in
      or_store_error (h.store.health.update_health_check hc)
        (λ done w. (
          send_success hc,
          log_audit h "health_check:update" "health_check" hc.id hc.type caller.id
              (build_details h.marshal (check_changes existing hc)) caller w,
        ))
        w
  save_check caller req (err e) w =
      or_store_error (h.store.health.create_health_check (check_of "" caller.id req))
        (λ hc w. (
          send_success hc,
          log_audit h "health_check:create" "health_check" hc.id hc.type caller.id
              (build_details h.marshal (created_changes hc)) caller w,
        ))
        w

  unfoldable pub configure_health_check :
      Caller → Result ConfigureHealthCheckRequest → Serve W HealthCheck
  configure_health_check caller body w =
      if str_eq caller.id ""
      then (send_validation_error "config id is required", w)
      else or_store_error (h.store.configs.get_config caller.id)
          (λ cfg. bind_json body (λ req w.
            let existing = h.store.health.get_health_check caller.id w in
            save_check caller req existing.0 existing.1))
          w

  unfoldable pub get_health_check : Caller → Serve W HealthCheck
  get_health_check caller w =
      if str_eq caller.id ""
      then (send_validation_error "config id is required", w)
      else or_store_error (h.store.configs.get_config caller.id)
          (λ cfg.
            or_store_error (h.store.health.get_health_check caller.id)
              (λ hc w. (send_success hc, w)))
          w

  unfoldable pub get_backend_health : Caller → Serve W HealthState
  get_backend_health caller w =
      if str_eq caller.id ""
      then (send_validation_error "backend id is required", w)
      else or_store_error (h.store.backends.get_backend caller.id)
          (λ b w.
            let state = h.store.health.get_health_state caller.id w in
            elim state.0 [
              | ok st ↦ (send_success st, state.1)
              | err e ↦ (
                if is_not_found e
                    then send_success (unknown_state caller.id)
                    else handle_store_error e,
                state.1,
              )
            ])
          w

  unfoldable pub delete_health_check : Caller → Serve W Done
  delete_health_check caller w =
      if str_eq caller.id ""
      then (send_validation_error "config id is required", w)
      else or_store_error (h.store.configs.get_config caller.id)
          (λ cfg. or_store_error (h.store.health.get_health_check caller.id) (λ hc.
            or_store_error (h.store.health.delete_health_check caller.id) (λ done w. (
              send_no_content,
              log_audit h "health_check:delete" "health_check" hc.id hc.type caller.id
                  (build_details h.marshal (deleted_changes hc)) caller w,
            ))))
          w
