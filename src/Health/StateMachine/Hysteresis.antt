-- ===== src/Health/StateMachine/Hysteresis.antt =====
-- internal/health/state.go: when the status of a machine changes, and when it does not.
use gslb.Prelude.{
  ℕ, suc, ℤ, pos, ◌+◌, ◌≤◌, ◌<◌, ◌≡◌, refl, Bool, true, false, not, List, [], ◌∷◌, max_int, to_ℕ,
  length, map, arith,
}
use gslb.Types.{HealthStatus, HealthCheck, healthy, unhealthy}
use gslb.Health.StateMachine.{StateMachine, at_least_one, process_result, process_all}

-- Every run of `b` in a history, the oldest result first, is shorter than `bound`, when the last
-- `k` results before it were `b`.
abbrev pub RunsBelow : Bool → ℕ → ℕ → List (ℕ × Bool) → Type 0
RunsBelow b bound k [] = k < bound
RunsBelow true bound k ((_, true) ∷ rest) = (k < bound) × RunsBelow true bound (suc k) rest
RunsBelow true bound k ((_, false) ∷ rest) = (k < bound) × RunsBelow true bound 0 rest
RunsBelow false bound k ((_, true) ∷ rest) = (k < bound) × RunsBelow false bound 0 rest
RunsBelow false bound k ((_, false) ∷ rest) = (k < bound) × RunsBelow false bound (suc k) rest

head_below :
    (b : Bool) (bound k : ℕ) (hist : List (ℕ × Bool)) → RunsBelow b bound k hist → k < bound
head_below b bound k [] h = h
head_below true bound k ((_, true) ∷ rest) h = h.0
head_below true bound k ((_, false) ∷ rest) h = h.0
head_below false bound k ((_, true) ∷ rest) h = h.0
head_below false bound k ((_, false) ∷ rest) h = h.0

-- A healthy machine at the end of `k` failures, with the threshold `bound` for failures.
record Up (bound k : ℕ) (sm : StateMachine) : Type 0 where
  pub status : sm.current_status ≡ healthy
  pub counted : sm.consecutive_failures ≡ pos k
  pub threshold : at_least_one sm.config.threshold_unhealthy ≡ pos bound

Up-failure :
    (bound k now : ℕ) (sm : StateMachine)
    → suc k < bound
    → bound ≤ max_int
    → Up bound k sm
    → Up bound (suc k) (process_result now false sm)
unfolding process_result
Up-failure bound k now sm h b u = ground (arith, u.status, u.counted, u.threshold)

Up-success :
    (bound k now : ℕ) (sm : StateMachine) → Up bound k sm → Up bound 0 (process_result now true sm)
unfolding process_result
Up-success bound k now sm u = ground (arith, u.status, u.counted, u.threshold)

process_all-Up :
    (bound k : ℕ) (hist : List (ℕ × Bool)) (sm : StateMachine)
    → bound ≤ max_int
    → Up bound k sm
    → RunsBelow false bound k hist
    → (process_all sm hist).current_status ≡ healthy
unfolding process_all
process_all-Up bound k [] sm b u h = u.status
process_all-Up bound k ((now, true) ∷ rest) sm b u h =
    process_all-Up bound 0 rest (process_result now true sm) b (Up-success bound k now sm u) h.1
process_all-Up bound k ((now, false) ∷ rest) sm b u h =
    process_all-Up bound (suc k) rest (process_result now false sm) b
      (Up-failure bound k now sm (head_below false bound (suc k) rest h.1) b u) h.1

-- An unhealthy machine at the end of `k` successes, with the threshold `bound` for successes.
record Down (bound k : ℕ) (sm : StateMachine) : Type 0 where
  pub status : sm.current_status ≡ unhealthy
  pub counted : sm.consecutive_successes ≡ pos k
  pub threshold : at_least_one sm.config.threshold_healthy ≡ pos bound

Down-success :
    (bound k now : ℕ) (sm : StateMachine)
    → suc k < bound
    → bound ≤ max_int
    → Down bound k sm
    → Down bound (suc k) (process_result now true sm)
unfolding process_result
Down-success bound k now sm h b u = ground (arith, u.status, u.counted, u.threshold)

Down-failure :
    (bound k now : ℕ) (sm : StateMachine)
    → Down bound k sm
    → Down bound 0 (process_result now false sm)
unfolding process_result
Down-failure bound k now sm u = ground (arith, u.status, u.counted, u.threshold)

process_all-Down :
    (bound k : ℕ) (hist : List (ℕ × Bool)) (sm : StateMachine)
    → bound ≤ max_int
    → Down bound k sm
    → RunsBelow true bound k hist
    → (process_all sm hist).current_status ≡ unhealthy
unfolding process_all
process_all-Down bound k [] sm b u h = u.status
process_all-Down bound k ((now, false) ∷ rest) sm b u h =
    process_all-Down bound 0 rest (process_result now false sm) b (Down-failure bound k now sm u)
      h.1
process_all-Down bound k ((now, true) ∷ rest) sm b u h =
    process_all-Down bound (suc k) rest (process_result now true sm) b
      (Down-success bound k now sm (head_below true bound (suc k) rest h.1) b u) h.1

-- The status in which a run of `b` ends, and the threshold that such a run has to reach.
abbrev pub outcome : Bool → HealthStatus
outcome true = healthy
outcome false = unhealthy

abbrev pub threshold_for : Bool → HealthCheck → ℕ
threshold_for true hc = to_ℕ (at_least_one hc.threshold_healthy)
threshold_for false hc = to_ℕ (at_least_one hc.threshold_unhealthy)

-- The number of results `b` at the end of which the machine stands.
abbrev pub counter : Bool → StateMachine → ℤ
counter true sm = sm.consecutive_successes
counter false sm = sm.consecutive_failures

config-process_result :
    (now : ℕ) (r : Bool) (sm : StateMachine) → (process_result now r sm).config ≡ sm.config
unfolding process_result
config-process_result now true sm = refl
config-process_result now false sm = refl

-- One more result `b` counts, and settles the status once the threshold is reached.
settle_step :
    (b : Bool) (now k : ℕ) (sm : StateMachine)
    → k < max_int
    → counter b sm ≡ pos k
    → (counter b (process_result now b sm) ≡ pos (suc k))
      × (threshold_for b sm.config ≤ suc k → (process_result now b sm).current_status ≡ outcome b)
unfolding process_result
settle_step true now k sm h c = ground arith
settle_step false now k sm h c = ground arith

settles_from :
    (b : Bool) (k : ℕ) (times : List ℕ) (sm : StateMachine)
    → k + length times ≤ max_int
    → counter b sm ≡ pos k
    → (threshold_for b sm.config ≤ k → sm.current_status ≡ outcome b)
    → threshold_for b sm.config ≤ k + length times
    → (process_all sm (map (λ t. (t, b)) times)).current_status ≡ outcome b
unfolding process_all
settles_from b k [] sm h c s t = s (omega arith)
settles_from b k (now ∷ times) sm h c s t =
    let step = settle_step b now k sm (omega arith) c in
    settles_from b (suc k) times (process_result now b sm) (omega arith) step.0
      (rw (config-process_result now b sm) step.1)
      (rw (config-process_result now b sm) (omega arith))

-- A machine in the status that runs of `b` end in (healthy for successes, unhealthy for failures)
-- keeps it through every history in which no run of the opposite result reaches its threshold,
-- the `k` such results that it already counts included. A threshold that is not positive counts
-- as 1; the threshold is at most 2^63 - 1, as every `int` is.
pub no_flapping :
    (b : Bool) (k : ℕ) (hist : List (ℕ × Bool)) (sm : StateMachine)
    → threshold_for (not b) sm.config ≤ max_int
    → sm.current_status ≡ outcome b
    → counter (not b) sm ≡ pos k
    → RunsBelow (not b) (threshold_for (not b) sm.config) k hist
    → (process_all sm hist).current_status ≡ outcome b
no_flapping true k hist sm bounded status counted below =
    process_all-Up (threshold_for false sm.config) k hist sm bounded
      (record { status = status; counted = counted; threshold = ground arith }) below
no_flapping false k hist sm bounded status counted below =
    process_all-Down (threshold_for true sm.config) k hist sm bounded
      (record { status = status; counted = counted; threshold = ground arith }) below

-- As many equal results in a row as their threshold (at least one) bring any machine to the status
-- that they stand for, whatever its status was: healthy for successes, unhealthy for failures. The
-- `k` such results that it already counts and the new ones are at most 2^63 - 1.
pub settles :
    (b : Bool) (k : ℕ) (times : List ℕ) (sm : StateMachine)
    → k + length times ≤ max_int
    → counter b sm ≡ pos k
    → threshold_for b sm.config ≤ length times
    → (process_all sm (map (λ t. (t, b)) times)).current_status ≡ outcome b
unfolding process_all
settles true k [] sm h c t = absurd (ground arith)
settles false k [] sm h c t = absurd (ground arith)
settles b k (now ∷ times) sm h c t =
    let step = settle_step b now k sm (omega arith) c in
    settles_from b (suc k) times (process_result now b sm) (omega arith) step.0
      (rw (config-process_result now b sm) step.1)
      (rw (config-process_result now b sm) (omega arith))
