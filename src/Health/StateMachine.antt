-- ===== src/Health/StateMachine.antt =====
-- internal/health/state.go: the thresholds with hysteresis.
-- A method that writes through `*StateMachine` returns the new record; the mutex makes each one
-- atomic. `now` is what `time.Now` returns; the zero time is `none`.
pub mod Runs
pub mod Hysteresis
use gslb.Prelude.{
  ℕ, ℤ, pos, Bool, true, false, Option, none, some, List, [], ◌∷◌, inc_int, leb_ℤ, if◌then◌else◌,
}
use gslb.Types.{HealthStatus, HealthCheck, healthy, unhealthy, unknown}

pub record StateMachine : Type 0 where
  pub config : HealthCheck
  pub current_status : HealthStatus
  pub consecutive_successes : ℤ
  pub consecutive_failures : ℤ
  pub last_check : Option ℕ

unfoldable pub new_state_machine : HealthCheck → StateMachine
new_state_machine config = record {
  config = config;
  current_status = unknown;
  consecutive_successes = pos 0;
  consecutive_failures = pos 0;
  last_check = none;
}

-- `if threshold <= 0 { threshold = 1 }`
abbrev pub at_least_one : ℤ → ℤ
at_least_one t = if leb_ℤ t (pos 0) then pos 1 else t

-- The branch of `ProcessResult` for a result that is healthy.
process_success : StateMachine → StateMachine
process_success sm =
    let successes = inc_int sm.consecutive_successes in
    record sm {
      consecutive_successes = successes;
      consecutive_failures = pos 0;
      current_status =
          if leb_ℤ (at_least_one sm.config.threshold_healthy) successes
          then healthy
          else sm.current_status;
    }

-- The branch for a result that is not.
process_failure : StateMachine → StateMachine
process_failure sm =
    let failures = inc_int sm.consecutive_failures in
    record sm {
      consecutive_failures = failures;
      consecutive_successes = pos 0;
      current_status =
          if leb_ℤ (at_least_one sm.config.threshold_unhealthy) failures
          then unhealthy
          else sm.current_status;
    }

-- `ProcessResult`: the new machine; the status returned is its `current_status`.
unfoldable pub process_result : ℕ → Bool → StateMachine → StateMachine
unfolding process_success process_failure
process_result now true sm = process_success (record sm { last_check = some now })
process_result now false sm = process_failure (record sm { last_check = some now })

unfoldable pub reset : StateMachine → StateMachine
reset sm = record sm {
  current_status = unknown;
  consecutive_successes = pos 0;
  consecutive_failures = pos 0;
  last_check = none;
}

pub record StateSnapshot : Type 0 where
  pub status : HealthStatus
  pub consecutive_successes : ℤ
  pub consecutive_failures : ℤ
  pub last_check : Option ℕ

unfoldable pub state_snapshot : StateMachine → StateSnapshot
state_snapshot sm = record {
  status = sm.current_status;
  consecutive_successes = sm.consecutive_successes;
  consecutive_failures = sm.consecutive_failures;
  last_check = sm.last_check;
}

-- A sequence of results, the oldest first, each at its time.
unfoldable pub process_all : StateMachine → List (ℕ × Bool) → StateMachine
process_all sm [] = sm
process_all sm ((now, result) ∷ rest) = process_all (process_result now result sm) rest
