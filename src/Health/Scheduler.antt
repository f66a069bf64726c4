-- ===== src/Health/Scheduler.antt =====
-- internal/health/scheduler.go: the probes that a tick submits, and what a result does to the
-- stored health of a backend. (internal/health/checker.go has the requests and results.)
pub mod Status
pub mod Life
use Prim.Native.String.{◌++◌ as append}
use gslb.Prelude.{
  ℕ, ℤ, pos, String, Bool, true, false, Option, none, some, List, [], ◌∷◌, inc_int, leb_ℤ, ltb_ℤ,
  to_ℕ, decimal, if◌then◌else◌,
}
use gslb.Types.{
  Config, Backend, HealthCheck, HealthState, HealthStatus, healthy, unhealthy, unknown,
}
use gslb.Result.{GoError, error_text, Result, ok, err, Exec}
use gslb.Store.{Store}
use gslb.Health.Aggregator.{Buckets, record_probe}

pub record CheckRequest : Type 0 where
  pub backend_id : String
  pub type : String
  pub target : String
  pub timeout_seconds : ℤ  -- the duration is this many seconds

pub record CheckResult : Type 0 where
  pub backend_id : String
  pub healthy : Bool
  pub error : Option GoError

-- `determineHealthStatus`
unfoldable pub determine_health_status : HealthState → ℤ → ℤ → HealthStatus
determine_health_status state threshold_healthy threshold_unhealthy =
    if leb_ℤ threshold_healthy state.consecutive_successes
    then healthy
    else if leb_ℤ threshold_unhealthy state.consecutive_failures
    then unhealthy
    else unknown

-- The state that `handleResult` starts from: the stored one, and a new one on any error.
abbrev pub or_new_state : String → Result HealthState → HealthState
or_new_state id (ok state) = state
or_new_state id (err e) = record {
  backend_id = id;
  status = unknown;
  consecutive_successes = pos 0;
  consecutive_failures = pos 0;
  last_check_at = none;
  last_healthy_at = none;
  last_error = "";
}

failed_check : HealthState → HealthState
failed_check state = record state {
  consecutive_failures = inc_int state.consecutive_failures;
  consecutive_successes = pos 0;
}

passed_check : ℕ → HealthState → HealthState
passed_check now state = record state {
  consecutive_successes = inc_int state.consecutive_successes;
  consecutive_failures = pos 0;
  last_error = "";
  last_healthy_at = some now;
}

-- The counters and times after a result; the status is set later.
unfoldable pub count_result : ℕ → Option GoError → Bool → HealthState → HealthState
unfolding failed_check passed_check
count_result now (some e) result state =
    record (failed_check (record state { last_check_at = some now })) { last_error = error_text e }
count_result now none true state = passed_check now (record state { last_check_at = some now })
count_result now none false state = failed_check (record state { last_check_at = some now })

-- A configured threshold replaces the default if it is positive.
abbrev pub positive_or : ℤ → ℤ → ℤ
positive_or t default = if ltb_ℤ (pos 0) t then t else default

abbrev pub thresholds_of : Result HealthCheck → ℤ × ℤ
thresholds_of (ok hc) =
    (positive_or hc.threshold_healthy (pos 2), positive_or hc.threshold_unhealthy (pos 2))
thresholds_of (err e) = (pos 2, pos 2)

-- The state that `handleResult` stores, from the one it loaded and the thresholds.
unfoldable pub next_state : ℕ → CheckResult → ℤ × ℤ → HealthState → HealthState
unfolding determine_health_status count_result
next_state now result limits state =
    let counted = count_result now result.error result.healthy state in
    record counted { status = determine_health_status counted limits.0 limits.1 }

-- `result.Healthy && result.Error == nil`
abbrev pub probe_passed : CheckResult → Bool
probe_passed result = elim result.error [ none ↦ result.healthy | some e ↦ false ]

-- The first lines of `handleResult`: the probe goes to the aggregator, where one is attached.
unfoldable pub record_result : ℕ → CheckResult → Option Buckets → Option Buckets
record_result now result none = none
record_result now result (some buckets) =
    some (record_probe now result.backend_id (probe_passed result) buckets)

module _ {W : Type 0} (s : Store W) where
  -- The thresholds of the backend's config, and 2 where a lookup fails.
  thresholds_from : Result Backend → W → (ℤ × ℤ) × W
  thresholds_from (ok backend) w =
      let found = s.health.get_health_check backend.config_id w in (thresholds_of found.0, found.1)
  thresholds_from (err e) w = ((pos 2, pos 2), w)

  unfoldable pub thresholds : String → W → (ℤ × ℤ) × W
  unfolding thresholds_from
  thresholds backend_id w =
      let found = s.backends.get_backend backend_id w in thresholds_from found.0 found.1

  -- `handleResult` after the aggregator: load, count, set the status, store. The error of the
  -- last write is logged, and nothing else happens.
  store_result : ℕ → CheckResult → W → W
  unfolding thresholds
  store_result now result w =
      let loaded = s.health.get_health_state result.backend_id w in
      let limits = thresholds result.backend_id loaded.1 in
      let state = next_state now result limits.0 (or_new_state result.backend_id loaded.0) in
      (s.health.update_health_state state limits.1).1

  -- `handleResult`: the aggregator, then the stored state.
  unfoldable pub handle_result : ℕ → CheckResult → Option Buckets × W → Option Buckets × W
  unfolding record_result store_result
  handle_result now result (buckets, w) =
      (record_result now result buckets, store_result now result w)

-- `formatTarget`
unfoldable pub format_target : String → Option ℤ → String
unfolding decimal
format_target ip none = ip
format_target ip (some port) =
    if ltb_ℤ (pos 0) port then append ip (append ":" (decimal (to_ℕ port))) else ip

abbrev pub request_for : HealthCheck → Backend → CheckRequest
request_for hc backend = record {
  backend_id = backend.id;
  type = hc.type;
  target = format_target backend.ip backend.port;
  timeout_seconds = hc.timeout_seconds;
}

-- `submit` is `engine.Submit` with its error logged.
module _ {W : Type 0} (s : Store W) (submit : CheckRequest → W → W) where
  -- The loop of `scheduleChecks` over the backends of one config.
  unfoldable pub submit_backends : HealthCheck → List Backend → W → W
  submit_backends hc [] w = w
  submit_backends hc (b ∷ rest) w =
      submit_backends hc rest (if b.enabled then submit (request_for hc b) w else w)

  submit_listed : HealthCheck → Result (List Backend) → W → W
  submit_listed hc (ok backends) w = submit_backends hc backends w
  submit_listed hc (err e) w = w

  submit_checked : String → Result HealthCheck → W → W
  unfolding submit_listed
  submit_checked id (ok hc) w =
      let listed = s.backends.list_backends id w in submit_listed hc listed.0 listed.1
  submit_checked id (err e) w = w

  -- The loop over the configs: one without a health check, or whose backends cannot be listed, is
  -- passed over.
  unfoldable pub submit_configs : List Config → W → W
  unfolding submit_checked
  submit_configs [] w = w
  submit_configs (c ∷ rest) w =
      let found = s.health.get_health_check c.id w in
      submit_configs rest (submit_checked c.id found.0 found.1)

  unfoldable pub schedule_checks : W → W
  schedule_checks w =
      let listed = s.configs.list_configs w in
      elim listed.0 [ ok configs ↦ submit_configs configs listed.1 | err e ↦ listed.1 ]
