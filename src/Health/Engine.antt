-- ===== src/Health/Engine.antt =====
-- internal/health/engine.go: the pool of workers and its channels, by what each goroutine may do next;
-- and the CheckScheduler over several pools. A worker is ready for a request or busy with one. The
-- channel of the requests has no buffer: a Submit waits until a ready worker takes its request. The
-- outcome of a probe is chosen by the event that ends it.
pub mod Bounds
pub mod Shutdown
use gslb.Prelude.{
  ℕ, zero, suc, ◌+◌, ◌*◌, ◌%◌, ℤ, pos, leb_ℤ, to_ℕ, String, Bool, true, false, ◌||◌, Option, none,
  some, List, [], ◌∷◌, ◌++◌, map, length, replicate, get_elem?, ltb, leb, ◌==◌, if◌then◌else◌,
}
use gslb.Prelude.Dict.{Dict, insert, delete}
use gslb.Result.{GoError, message, Result, ok, err}
use gslb.Store.{Done}
use gslb.Health.Scheduler.{CheckRequest, CheckResult}

-- `idle` are the workers that wait for a request, `busy` the requests of the others; `waiting` are the
-- requests of the calls of Submit that have not returned. `cancelled` is that `ctx` is done.
pub record Engine : Type 0 where
  pub worker_count : ℕ
  pub running : Bool
  pub cancelled : Bool
  pub idle : ℕ
  pub busy : List CheckRequest
  pub waiting : List CheckRequest
  pub results : List CheckResult

unfoldable pub new_engine : ℤ → Engine
new_engine worker_count = record {
  worker_count = if leb_ℤ worker_count (pos 0) then 4 else to_ℕ worker_count;
  running = false;
  cancelled = false;
  idle = 0;
  busy = [];
  waiting = [];
  results = [];
}

-- The buffer of `resultChan`.
abbrev pub capacity : Engine → ℕ
capacity e = e.worker_count * 10

pub data Event : Type 0 where
  start stop : Event
  submit : CheckRequest → Event
  -- A ready worker takes the request of a call of Submit; a call sees that the engine shuts down.
  hand_over give_up : ℕ → Event
  -- A ready worker sees that the engine shuts down.
  exit : Event
  -- A probe ends, and its result is sent; or the result is discarded.
  deliver : ℕ → Bool → Option GoError → Event
  discard : ℕ → Event
  -- The reader of Results takes one.
  take_result : Event

-- The element at a place, and the others.
unfoldable pub remove_at {ℓ} : {A : Type ℓ} → ℕ → List A → Option (A × List A)
remove_at i [] = none
remove_at zero (a ∷ rest) = some (a, rest)
remove_at (suc i) (a ∷ rest) = elim (remove_at i rest) [
  | none ↦ none
  | some (b, others) ↦ some (b, a ∷ others)
]

-- A worker is ready again.
abbrev free_worker : List CheckRequest → List CheckResult → Engine → Engine
free_worker busy results e = record e { busy = busy; results = results; idle = suc e.idle }

-- What the event makes of the engine, where it can happen.
unfoldable pub step : Event → Engine → Option Engine
step start e =
    some (if e.running then e else record e { running = true; idle = e.idle + e.worker_count })
step stop e = some (if e.running then record e { running = false; cancelled = true } else e)
step (submit req) e = some (if e.running then record e { waiting = req ∷ e.waiting } else e)
step (hand_over i) e = elim e.idle [
  | zero ↦ none
  | suc ready ↦ elim (remove_at i e.waiting) [
    | none ↦ none
    | some (req, others) ↦ some (record e { idle = ready; waiting = others; busy = req ∷ e.busy })
  ]
]
step (give_up i) e =
    if e.cancelled
    then elim (remove_at i e.waiting) [
      | none ↦ none
      | some (req, others) ↦ some (record e { waiting = others })
    ]
    else none
step exit e =
    if e.cancelled
    then elim e.idle [ zero ↦ none | suc ready ↦ some (record e { idle = ready }) ]
    else none
step (deliver i healthy error) e = elim (remove_at i e.busy) [
  | none ↦ none
  | some (req, others) ↦
      if ltb (length e.results) (capacity e)
      then some (
          free_worker others
            (e.results
              ++ (record { backend_id = req.backend_id; healthy = healthy; error = error } ∷ []))
            e)
      else none
]
step (discard i) e = elim (remove_at i e.busy) [
  | none ↦ none
  | some (req, others) ↦
      if e.cancelled || leb (capacity e) (length e.results)
      then some (free_worker others e.results e)
      else none
]
step take_result e = elim e.results [ [] ↦ none | r ∷ rest ↦ some (record e { results = rest }) ]

unfoldable pub run : List Event → Engine → Option Engine
run [] e = some e
run (event ∷ rest) e = elim (step event e) [ none ↦ none | some next ↦ run rest next ]

-- `Submit` answers with an error at once when the engine is not running.
unfoldable pub submit_error : Engine → Option GoError
submit_error e = if e.running then none else some (message "engine is not running")

abbrev pub is_running : Engine → Bool
is_running e = e.running

pub record EngineStats : Type 0 where
  pub worker_count : ℕ
  pub running : Bool

abbrev pub stats : Engine → EngineStats
stats e = record { worker_count = e.worker_count; running = e.running }

-- The scheduler of engine.go.
pub record CheckScheduler : Type 0 where
  pub engines : List Engine
  pub requests : Dict CheckRequest

unfoldable pub new_check_scheduler : ℤ → ℤ → CheckScheduler
new_check_scheduler num_engines workers_per_engine = record {
  engines =
      replicate (if leb_ℤ num_engines (pos 0) then 1 else to_ℕ num_engines)
        (new_engine (if leb_ℤ workers_per_engine (pos 0) then pos 4 else workers_per_engine));
  requests = [];
}

unfoldable pub register : String → CheckRequest → CheckScheduler → CheckScheduler
register backend_id req s = record s {
  requests = insert backend_id (record req { backend_id = backend_id }) s.requests;
}

unfoldable pub unregister : String → CheckScheduler → CheckScheduler
unregister backend_id s = record s { requests = delete backend_id s.requests }

-- The calls of Submit that a tick makes: the index of the engine, and the request.
unfoldable pub spread : ℕ → ℕ → Dict CheckRequest → List (ℕ × CheckRequest)
spread engines i [] = []
spread engines i ((id, req) ∷ rest) = (i % engines, req) ∷ spread engines (suc i) rest

unfoldable pub submit_scheduled_checks : CheckScheduler → List (ℕ × CheckRequest)
submit_scheduled_checks s = spread (length s.engines) 0 s.requests

unfoldable pub get_engine : ℤ → CheckScheduler → Option Engine
get_engine (pos i) s = get_elem? s.engines i
get_engine _ s = none

abbrev pub engine_count : CheckScheduler → ℕ
engine_count s = length s.engines
