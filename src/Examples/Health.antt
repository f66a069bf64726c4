-- ===== src/Examples/Health.antt =====
-- internal/health: runs of the state machine, the scheduler and the aggregator.
use mathlib.Core.List.{reverse}
use gslb.Prelude.{
  ℕ, ◌+◌, ◌≤◌, ◌⊎◌, length, pos, ◌≡◌, refl, Bool, true, false, none, some, List, [], ◌∷◌, map,
  arith, to_ℕ, filter_by, if◌then◌else◌,
}
use gslb.Prelude.Dict.{lookup}
use gslb.Types.{HealthCheck, HealthState, HealthHistoryBucket, Backend, healthy, unhealthy, unknown}
use gslb.Result.{ok, err, message, not_found}
use gslb.Store.{HealthHistoryStore}
use gslb.Health.StateMachine.{StateMachine, new_state_machine, process_result, process_all}
use gslb.Health.StateMachine.Runs.{Agrees, process_all-Agrees}
use gslb.Health.StateMachine.Hysteresis.{no_flapping, settles}
use gslb.Health.Engine.{Engine, Event, new_engine, step, run, remove_at}
use gslb.Health.Engine.Bounds.{is_within, run-is_within}
use gslb.Health.Engine.Shutdown.{work, next_event, is_possible, stop_returns}
use gslb.Health.Scheduler.{CheckRequest, CheckResult, next_state, or_new_state, format_target}
use gslb.Health.Scheduler.Status as Status
use gslb.Health.Scheduler.Status.{
  state_after, passes, state_after-Agrees, failed_result_unpublishes,
}
use gslb.Dns.Reconciler.{is_publishable}
use gslb.Health.Aggregator.{
  BucketKey, Buckets, same_key, bucket_floor, record_probe, flush, write_buckets, at_bucket,
}
use gslb.Health.Aggregator.Buckets.{key_at}
use gslb.Health.Aggregator.Flush.{history_key, in_memory}
use gslb.Health.Aggregator.Recorded.{probes_of, run-recorded}
use gslb.Health.Aggregator.Counts.{count_of, in_table, all_counted}
use gslb.Health.Aggregator as Aggregator
use gslb.Store.Sql.{calm}
use gslb.Store.History.{history_store}
use gslb.Health.Scheduler.Life.{new_scheduler}
use gslb.Health.Scheduler.Life.Restart.{
  Call, start_call, stop_call, calls, shutdowns, panicked, calls-panicked,
}
use gslb.Examples.Server.{db}

abbrev three_two : HealthCheck
three_two = record {
  id = "hc";
  config_id = "c";
  type = "tcp";
  interval_seconds = pos 10;
  timeout_seconds = pos 5;
  threshold_healthy = pos 2;
  threshold_unhealthy = pos 3;
}

abbrev history : List (ℕ × Bool)
history = (1, true) ∷ (2, true) ∷ (3, false) ∷ (4, false) ∷ []

-- Two failures of three leave the machine healthy.
history_healthy : (process_all (new_state_machine three_two) history).current_status ≡ healthy
unfolding process_all process_result new_state_machine
history_healthy = refl

process_all-Agrees_example :
    Agrees three_two (reverse history) (process_all (new_state_machine three_two) history)
process_all-Agrees_example = process_all-Agrees three_two history (omega arith)

abbrev up : StateMachine
up = record {
  config = three_two;
  current_status = healthy;
  consecutive_successes = pos 4;
  consecutive_failures = pos 0;
  last_check = none;
}

no_flapping_example :
    (process_all up ((1, false) ∷ (2, false) ∷ (3, true) ∷ (4, false) ∷ [])).current_status
    ≡ healthy
no_flapping_example =
    no_flapping true 0 ((1, false) ∷ (2, false) ∷ (3, true) ∷ (4, false) ∷ []) up (omega arith) refl
      refl (omega arith)

settles_example :
    (process_all up (map (λ t. (t, false)) (1 ∷ 2 ∷ 3 ∷ []))).current_status ≡ unhealthy
settles_example = settles false 0 (1 ∷ 2 ∷ 3 ∷ []) up (omega arith) refl (omega arith)

abbrev passed : CheckResult
passed = record { backend_id = "b"; healthy = true; error = none }

abbrev refused : CheckResult
refused = record { backend_id = "b"; healthy = false; error = some (message "refused") }

abbrev results : List (ℕ × CheckResult)
results = (3, refused) ∷ (2, passed) ∷ (1, passed) ∷ []

-- The same thresholds and results as above: the scheduler's status falls to unknown at once.
results_unknown : (state_after "b" (pos 2, pos 3) results).status ≡ unknown
unfolding next_state
results_unknown = refl

state_after-Agrees_example :
    Status.Agrees (pos 2, pos 3) (passes results) (state_after "b" (pos 2, pos 3) results)
state_after-Agrees_example = state_after-Agrees "b" (pos 2) (pos 3) results (omega arith) refl refl

abbrev backend : Backend
backend = record {
  id = "b";
  config_id = "c";
  ip = "10.0.0.1";
  port = none;
  weight = pos 1;
  enabled = true;
}

abbrev new_state : HealthState
new_state = or_new_state "b" (err not_found)

failed_result_unpublishes_example :
    is_publishable (("b", next_state 3 refused (pos 2, pos 10) new_state) ∷ []) backend ≡ false
unfolding lookup
failed_result_unpublishes_example =
    failed_result_unpublishes 3 refused (pos 2, pos 10) new_state
      (("b", next_state 3 refused (pos 2, pos 10) new_state) ∷ []) backend refl refl refl

target_port : format_target "10.0.0.1" (some (pos 8443)) ≡ "10.0.0.1:8443"
unfolding format_target
target_port = refl

-- A store of the history that holds the sums of successes as a list of what it was given.
abbrev ledger : HealthHistoryStore (List HealthHistoryBucket)
ledger = record {
  upsert_health_history_bucket = λ b w. (ok tt, b ∷ w);
  get_health_history = λ id since w. (ok w, w);
  delete_old_health_history = λ age w. (ok 0, w);
}

abbrev ledger_sum : List HealthHistoryBucket → BucketKey → ℕ
ledger_sum [] key = 0
ledger_sum (b ∷ rest) key =
    ledger_sum rest key + (if same_key (history_key b) key then to_ℕ b.success_count else 0)

-- Two probes in one bucket, one in a later bucket.
abbrev counted : Buckets
counted = record_probe 300000000001 "b" true (record_probe 2 "b" true (record_probe 1 "b" false []))

flush_writes : ledger_sum (flush ledger 300000000002 counted []).1 (key_at 2 "b") ≡ 1
unfolding flush record_probe bucket_floor write_buckets at_bucket filter_by
flush_writes = refl

abbrev request : CheckRequest
request = record { backend_id = "b"; type = "tcp"; target = "10.0.0.1:80"; timeout_seconds = pos 5 }

-- One probe is delivered while another is under way.
abbrev one_delivered : List Event
one_delivered =
    Event.start
    ∷ Event.submit request
    ∷ Event.hand_over 0
    ∷ Event.submit request
    ∷ Event.hand_over 0
    ∷ Event.deliver 0 true none
    ∷ []

abbrev after_one : Engine
after_one = record {
  worker_count = 2;
  running = true;
  cancelled = false;
  idle = 1;
  busy = request ∷ [];
  waiting = [];
  results = passed ∷ [];
}

run-is_within_example :
    (is_within after_one ≡ true)
    × (after_one.worker_count ≡ (new_engine (pos 2)).worker_count)
    × (1 ≤ after_one.worker_count)
unfolding run step remove_at new_engine
run-is_within_example = run-is_within (pos 2) one_delivered after_one refl

-- Stop found one worker at a probe, one ready, and a call of Submit that waits.
abbrev stopping : Engine
stopping = record after_one { running = false; cancelled = true; waiting = request ∷ [] }

abbrev one_given_up : Engine
one_given_up = record after_one { running = false; cancelled = true; idle = 2; busy = [] }

stop_returns_example :
    (length (Event.give_up 0 ∷ Event.discard 0 ∷ []) + work one_given_up ≤ work stopping)
    × (((one_given_up.waiting ≡ []) × (one_given_up.busy ≡ []) × (one_given_up.idle ≡ 0))
        ⊎ (is_possible (next_event one_given_up) one_given_up ≡ true))
unfolding run step remove_at
stop_returns_example =
    stop_returns (Event.give_up 0 ∷ Event.discard 0 ∷ []) stopping one_given_up refl refl refl

-- The probes of the first five minutes are flushed by the tick, the later one stays.
abbrev recorded : List Aggregator.Event
recorded =
    Aggregator.probe 1 "b" false
    ∷ Aggregator.probe 2 "b" true
    ∷ Aggregator.selection 3 "b"
    ∷ Aggregator.tick 300000000000
    ∷ Aggregator.probe 300000000001 "b" true
    ∷ []

run-recorded_example :
    in_memory
        (count_of true)
        (key_at 2 "b")
        (Aggregator.run (history_store 0) recorded (Aggregator.new_aggregator, calm db)).0
      + in_table true
          (key_at 2 "b")
          (Aggregator.run
            (history_store 0)
            recorded
            (Aggregator.new_aggregator, calm db)).1.rows.history
    ≡ in_table true (key_at 2 "b") db.rows.history + probes_of true (key_at 2 "b") recorded
unfolding all_counted
run-recorded_example = run-recorded true (key_at 2 "b") 0 recorded db refl (omega arith)

one_probe : probes_of true (key_at 2 "b") recorded ≡ 1
unfolding probes_of bucket_floor
one_probe = refl

abbrev restarted : List Call
restarted = start_call ∷ stop_call ∷ start_call ∷ stop_call ∷ []

calls-panicked_example : panicked (calls restarted (new_scheduler (pos 0))) ≡ true
unfolding shutdowns
calls-panicked_example = calls-panicked (pos 0) restarted
