-- ===== src/Health/Scheduler/Life.antt =====
-- internal/health/scheduler.go: NewScheduler, Start and Stop, the loop of the ticks and that of the results.
-- `closed` says whether `stopCh` is closed, for which the goroutines wait; the counter of the goroutines and
-- the mutex are left out, as each call holds the mutex.
pub mod Restart
use gslb.Prelude.{
  ℕ, ℤ, pos, leb_ℤ, Bool, true, false, Option, none, some, List, [], ◌∷◌, if◌then◌else◌,
}
use gslb.Result.{message, Result, ok, err}
use gslb.Store.{Store, Done}
use gslb.Health.Aggregator.{Buckets}
use gslb.Health.Scheduler.{CheckRequest, CheckResult, handle_result, schedule_checks}

pub record Scheduler : Type 0 where
  pub interval : ℤ
  pub running : Bool
  pub closed : Bool

unfoldable pub new_scheduler : ℤ → Scheduler
new_scheduler interval = record {
  interval = if leb_ℤ interval (pos 0) then pos 10000000000 else interval;
  running = false;
  closed = false;
}

-- A call returns, or it panics: to close a channel that is closed is a panic.
pub data Called : Type 0 where
  returned : Result Done → Scheduler → Called
  panic : Called

unfoldable pub start : Scheduler → Called
start s =
    if s.running
    then returned (err (message "scheduler already running")) s
    else returned (ok tt) (record s { running = true })

unfoldable pub stop : Scheduler → Called
stop s =
    if s.running
    then if s.closed then panic else returned (ok tt) (record s { running = false; closed = true })
    else returned (ok tt) s

-- What the two goroutines receive, in the order in which they handle it.
pub data Event : Type 0 where
  tick : Event
  result : ℕ → CheckResult → Event
  context_done stop_signal : Event

module _ {W : Type 0} (store : Store W) (submit : CheckRequest → W → W) where
  loop : List Event → W → W
  loop [] w = w
  loop (tick ∷ rest) w = loop rest (schedule_checks store submit w)
  loop (result now r ∷ rest) w = loop rest w
  loop (context_done ∷ rest) w = w
  loop (stop_signal ∷ rest) w = w

  -- `run`: a first round, and one for each tick until the end.
  unfoldable pub run : List Event → W → W
  unfolding loop
  run events w = loop events (schedule_checks store submit w)

  -- `processResults`
  unfoldable pub process_results : List Event → Option Buckets × W → Option Buckets × W
  process_results [] bw = bw
  process_results (result now r ∷ rest) bw = process_results rest (handle_result store now r bw)
  process_results (tick ∷ rest) bw = process_results rest bw
  process_results (context_done ∷ rest) bw = bw
  process_results (stop_signal ∷ rest) bw = bw
