-- ===== src/Health/Scheduler/Life/Restart.antt =====
-- internal/health/scheduler.go: a Scheduler that is started again.
use gslb.Prelude.{
  ℕ, ℤ, suc, Bool, true, false, ltb, ◌≡◌, Option, none, some, List, [], ◌∷◌, if◌then◌else◌, arith,
}
use gslb.Health.Scheduler.Life.{Scheduler, Called, returned, panic, new_scheduler, start, stop}

pub data Call : Type 0 where
  start_call stop_call : Call

abbrev call : Call → Scheduler → Called
call start_call s = start s
call stop_call s = stop s

-- The scheduler after the calls, whatever each one returns, and `none` after a panic.
unfoldable pub calls : List Call → Scheduler → Option Scheduler
calls [] s = some s
calls (c ∷ rest) s = elim (call c s) [ panic ↦ none | returned r t ↦ calls rest t ]

-- How often the calls end a scheduler that runs.
unfoldable pub shutdowns : Bool → List Call → ℕ
shutdowns running [] = 0
shutdowns running (start_call ∷ rest) = shutdowns true rest
shutdowns true (stop_call ∷ rest) = suc (shutdowns false rest)
shutdowns false (stop_call ∷ rest) = shutdowns false rest

abbrev pub panicked : Option Scheduler → Bool
panicked none = true
panicked (some s) = false

calls-shutdowns :
    (l : List Call) (s : Scheduler)
    → panicked (calls l s) ≡ ltb (if s.closed then 0 else 1) (shutdowns s.running l)
unfolding calls shutdowns start stop
calls-shutdowns [] s = ground arith
calls-shutdowns (start_call ∷ rest) s =
    ground (arith, calls-shutdowns rest (record s { running = true }), calls-shutdowns rest s)
calls-shutdowns (stop_call ∷ rest) s = ground (
  arith,
  calls-shutdowns rest s,
  calls-shutdowns rest (record s { running = false; closed = true }),
)

-- Of any sequence of calls of Start and Stop on a new Scheduler one panics exactly when two of the calls of
-- Stop find it running: Start opens no new channel after Stop has closed the first.
pub calls-panicked :
    (interval : ℤ) (l : List Call)
    → panicked (calls l (new_scheduler interval)) ≡ ltb 1 (shutdowns false l)
unfolding new_scheduler
calls-panicked interval l = calls-shutdowns l (new_scheduler interval)
