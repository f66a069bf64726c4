-- ===== src/Health/Scheduler/Status.antt =====
-- internal/health/scheduler.go: the status that the scheduler stores, from the history of a
-- backend's results.
use gslb.Prelude.{
  ℕ, ℤ, pos, ◌≤◌, ◌<◌, ◌≡◌, Bool, true, false, String, some, List, [], ◌∷◌, leb, ltb_ℤ, max_int,
  to_ℕ, length, if◌then◌else◌, arith,
}
use gslb.Prelude.Dict.{Dict, lookup}
use gslb.Types.{Backend, HealthState, HealthStatus, healthy, unhealthy, unknown}
use gslb.Result.{err, not_found}
use gslb.Health.StateMachine.Runs.{run, run-le-length}
use gslb.Health.Scheduler.{CheckResult, next_state, or_new_state, probe_passed}
use gslb.Dns.Reconciler.{is_publishable}

-- The state stored after a history of results, the newest first, with fixed thresholds.
abbrev pub state_after : String → ℤ × ℤ → List (ℕ × CheckResult) → HealthState
state_after id limits [] = or_new_state id (err not_found)
state_after id limits ((now, result) ∷ rest) =
    next_state now result limits (state_after id limits rest)

-- The history as times and whether the probe passed.
abbrev pub passes : List (ℕ × CheckResult) → List (ℕ × Bool)
passes [] = []
passes ((now, result) ∷ rest) = (now, probe_passed result) ∷ passes rest

-- The status by the run at the end of the history alone, whatever came before it.
abbrev pub run_status : ℤ × ℤ → List (ℕ × Bool) → HealthStatus
run_status (th, tu) hist =
    if leb (to_ℕ th) (run true hist)
    then healthy
    else if leb (to_ℕ tu) (run false hist)
    then unhealthy
    else unknown

pub record Agrees (limits : ℤ × ℤ) (hist : List (ℕ × Bool)) (state : HealthState) : Type 0 where
  pub successes : state.consecutive_successes ≡ pos (run true hist)
  pub failures : state.consecutive_failures ≡ pos (run false hist)
  pub status : state.status ≡ run_status limits hist

next_state-Agrees :
    (now : ℕ) (result : CheckResult) (th tu : ℤ) (hist : List (ℕ × Bool)) (state : HealthState)
    → length hist < max_int
    → ltb_ℤ (pos 0) th ≡ true
    → ltb_ℤ (pos 0) tu ≡ true
    → state.consecutive_successes ≡ pos (run true hist)
    → state.consecutive_failures ≡ pos (run false hist)
    → Agrees (th, tu) ((now, probe_passed result) ∷ hist) (next_state now result (th, tu) state)
unfolding next_state
next_state-Agrees now result th tu hist state h p q s f =
    ground (arith, run-le-length true hist, run-le-length false hist)

-- After a history of at most 2^63 - 1 results of a backend that had no stored state, the newest
-- first, with positive thresholds that stay the same, the stored counters are the lengths of the
-- runs of equal results at its end, and the stored status depends on these runs alone: healthy
-- where the last successes reach their threshold, unhealthy where the last failures reach theirs,
-- and else unknown.
pub state_after-Agrees :
    (id : String) (th tu : ℤ) (hist : List (ℕ × CheckResult))
    → length (passes hist) ≤ max_int
    → ltb_ℤ (pos 0) th ≡ true
    → ltb_ℤ (pos 0) tu ≡ true
    → Agrees (th, tu) (passes hist) (state_after id (th, tu) hist)
state_after-Agrees id th tu [] h p q = ground (arith, p, q)
state_after-Agrees id th tu ((now, result) ∷ rest) h p q =
    let before = state_after-Agrees id th tu rest (omega arith) p q in
    next_state-Agrees now result th tu (passes rest) (state_after id (th, tu) rest) (omega arith) p
      q before.successes before.failures

-- One failed result takes a backend out of DNS, however many failures its threshold asks for: with
-- a positive threshold for successes, the state stored after a failed result of a backend is not
-- healthy, whatever the state before, and the reconciler does not publish the backend.
pub failed_result_unpublishes :
    (now : ℕ) (result : CheckResult) (limits : ℤ × ℤ) (state : HealthState)
    (states : Dict HealthState) (b : Backend)
    → probe_passed result ≡ false
    → ltb_ℤ (pos 0) limits.0 ≡ true
    → lookup b.id states ≡ some (next_state now result limits state)
    → is_publishable states b ≡ false
unfolding next_state
failed_result_unpublishes now result limits state states b failed positive stored =
    ground (arith, failed, positive, stored)
