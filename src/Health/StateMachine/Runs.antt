-- ===== src/Health/StateMachine/Runs.antt =====
-- internal/health/state.go: the state machine after a whole history of results, against a
-- description that reads the history from its newest result backwards.
use mathlib.Core.List.{reverse, reverse_aux}
use gslb.Prelude.{
  ℕ, ℤ, pos, suc, ◌+◌, ◌≤◌, ◌<◌, ◌≡◌, refl, Bool, true, false, List, [], ◌∷◌, leb, max_int, to_ℕ,
  length, if◌then◌else◌, arith,
}
use gslb.Types.{HealthStatus, HealthCheck, healthy, unhealthy, unknown}
use gslb.Health.StateMachine.{
  StateMachine, new_state_machine, at_least_one, process_result, process_all,
}

-- How many results at the head of a list, the newest first, are equal to `b`.
abbrev pub run : Bool → List (ℕ × Bool) → ℕ
run b [] = 0
run true ((_, true) ∷ rest) = suc (run true rest)
run true ((_, false) ∷ rest) = 0
run false ((_, true) ∷ rest) = 0
run false ((_, false) ∷ rest) = suc (run false rest)

-- The verdict of a history, the newest result first: that of the newest run which is as long as
-- its threshold, and unknown where there was none.
abbrev pub verdict : ℤ → ℤ → List (ℕ × Bool) → HealthStatus
verdict th tu [] = unknown
verdict th tu (r ∷ rest) =
    if leb (to_ℕ (at_least_one th)) (run true (r ∷ rest))
    then healthy
    else if leb (to_ℕ (at_least_one tu)) (run false (r ∷ rest))
    then unhealthy
    else verdict th tu rest

-- The machine after a history, the newest result first.
replay : StateMachine → List (ℕ × Bool) → StateMachine
replay sm [] = sm
replay sm ((now, r) ∷ rest) = process_result now r (replay sm rest)

replay-reverse_aux :
    (sm : StateMachine) (xs acc : List (ℕ × Bool))
    → process_all (replay sm acc) xs ≡ replay sm (reverse_aux xs acc)
unfolding replay process_all
replay-reverse_aux sm [] acc = refl
replay-reverse_aux sm ((now, r) ∷ xs) acc = replay-reverse_aux sm xs ((now, r) ∷ acc)

pub record Agrees (config : HealthCheck) (hist : List (ℕ × Bool)) (sm : StateMachine) : Type 0 where
  pub config_kept : sm.config ≡ config
  pub successes : sm.consecutive_successes ≡ pos (run true hist)
  pub failures : sm.consecutive_failures ≡ pos (run false hist)
  pub status : sm.current_status ≡ verdict config.threshold_healthy config.threshold_unhealthy hist

pub run-le-length : (b : Bool) (hist : List (ℕ × Bool)) → run b hist ≤ length hist
run-le-length b [] = omega arith
run-le-length true ((_, true) ∷ rest) = omega (arith, run-le-length true rest)
run-le-length true ((_, false) ∷ rest) = omega arith
run-le-length false ((_, true) ∷ rest) = omega arith
run-le-length false ((_, false) ∷ rest) = omega (arith, run-le-length false rest)

process_result-Agrees :
    (config : HealthCheck) (now : ℕ) (r : Bool) (hist : List (ℕ × Bool)) (sm : StateMachine)
    → length hist < max_int
    → Agrees config hist sm
    → Agrees config ((now, r) ∷ hist) (process_result now r sm)
unfolding process_result
process_result-Agrees config now true hist sm h a = ground (arith, run-le-length true hist)
process_result-Agrees config now false hist sm h a = ground (arith, run-le-length false hist)

replay-Agrees :
    (config : HealthCheck) (hist : List (ℕ × Bool))
    → length hist ≤ max_int
    → Agrees config hist (replay (new_state_machine config) hist)
unfolding replay new_state_machine
replay-Agrees config [] h = ground arith
replay-Agrees config ((now, r) ∷ hist) h =
    process_result-Agrees config now r hist (replay (new_state_machine config) hist) (omega arith)
      (replay-Agrees config hist (omega arith))

length-reverse_aux :
    (xs acc : List (ℕ × Bool)) → length (reverse_aux xs acc) ≡ length xs + length acc
length-reverse_aux [] acc = omega arith
length-reverse_aux (x ∷ xs) acc = omega (arith, length-reverse_aux xs (x ∷ acc))

-- After any history of at most 2^63 - 1 results, the two counters of a machine that started new
-- are the lengths of the runs of equal results at the end of the history, and its status is the
-- verdict of the history: that of the newest run which is as long as its threshold (a threshold
-- that is not positive counts as 1), and unknown where there was none.
pub process_all-Agrees :
    (config : HealthCheck) (hist : List (ℕ × Bool))
    → length hist ≤ max_int
    → Agrees config (reverse hist) (process_all (new_state_machine config) hist)
unfolding replay
process_all-Agrees config hist h =
    rw (replay-reverse_aux (new_state_machine config) hist [])
      (replay-Agrees config (reverse_aux hist []) (omega (arith, length-reverse_aux hist [])))
