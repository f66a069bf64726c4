-- ===== src/Health/Engine/Bounds.antt =====
-- internal/health/engine.go: the workers and the results of a pool, through any events.
use gslb.Prelude.{
  ℕ, zero, suc, ◌+◌, ◌≤◌, ℤ, Bool, true, ◌&&◌, ◌||◌, ◌≡◌, ◌∙◌, some, List, [], ◌∷◌, length,
  length-append, leb, ◌==◌, if◌then◌else◌, Option-cases, inl, inr, arith,
}
use gslb.Health.Engine.{Engine, Event, new_engine, capacity, remove_at, step, run}

pub remove_at-length {ℓ} :
    {A : Type ℓ} (i : ℕ) (l : List A) (a : A) (others : List A)
    → remove_at i l ≡ some (a, others)
    → length l ≡ suc (length others)
unfolding remove_at
remove_at-length i [] a others h = ground (arith, h)
remove_at-length zero (x ∷ rest) a others h = ground (arith, h)
remove_at-length (suc i) (x ∷ rest) a others h = elim (Option-cases (remove_at i rest)) [
  | inl e ↦ ground (arith, e, h)
  | inr ((b, more), e) ↦ ground (arith, e, h, remove_at-length i rest b more e)
]

-- The buffer holds its results, and until the engine is cancelled its workers are all there while it runs,
-- and none before.
abbrev pub is_within : Engine → Bool
is_within e =
    leb (length e.results) (capacity e)
    && (e.cancelled || e.idle + length e.busy == (if e.running then e.worker_count else 0))

step-is_within :
    (event : Event) (e next : Engine)
    → step event e ≡ some next
    → is_within e ≡ true
    → is_within next ≡ true
unfolding step
step-is_within Event.start e next h w = ground (arith, h, w)
step-is_within Event.stop e next h w = ground (arith, h, w)
step-is_within (Event.submit req) e next h w = ground (arith, h, w)
step-is_within (Event.hand_over i) e next h w = elim (Option-cases (remove_at i e.waiting)) [
  | inl none_there ↦ ground (arith, h, w, none_there)
  | inr ((req, others), found) ↦
      ground (arith, h, w, found, remove_at-length i e.waiting req others found)
]
step-is_within (Event.give_up i) e next h w = ground (arith, h, w)
step-is_within Event.exit e next h w = ground (arith, h, w)
step-is_within (Event.deliver i healthy error) e next h w =
    elim (Option-cases (remove_at i e.busy)) [
      | inl none_there ↦ ground (arith, h, w, none_there)
      | inr ((req, others), found) ↦ ground (
        arith,
        h,
        w,
        found,
        remove_at-length i e.busy req others found,
        length-append e.results
            (record { backend_id = req.backend_id; healthy = healthy; error = error } ∷ []),
      )
    ]
step-is_within (Event.discard i) e next h w = elim (Option-cases (remove_at i e.busy)) [
  | inl none_there ↦ ground (arith, h, w, none_there)
  | inr ((req, others), found) ↦
      ground (arith, h, w, found, remove_at-length i e.busy req others found)
]
step-is_within Event.take_result e next h w = ground (arith, h, w)

step-worker_count :
    (event : Event) (e next : Engine)
    → step event e ≡ some next
    → next.worker_count ≡ e.worker_count
unfolding step
step-worker_count Event.start e next h = ground (arith, h)
step-worker_count Event.stop e next h = ground (arith, h)
step-worker_count (Event.submit req) e next h = ground (arith, h)
step-worker_count (Event.hand_over i) e next h = ground (arith, h)
step-worker_count (Event.give_up i) e next h = ground (arith, h)
step-worker_count Event.exit e next h = ground (arith, h)
step-worker_count (Event.deliver i healthy error) e next h = ground (arith, h)
step-worker_count (Event.discard i) e next h = ground (arith, h)
step-worker_count Event.take_result e next h = ground (arith, h)

run-keeps :
    (events : List Event) (e last : Engine)
    → run events e ≡ some last
    → is_within e ≡ true
    → (is_within last ≡ true) × (last.worker_count ≡ e.worker_count)
unfolding run
run-keeps [] e last h w = ground (arith, h, w)
run-keeps (event ∷ rest) e last h w = elim (Option-cases (step event e)) [
  | inl stuck ↦ ground (arith, h, stuck)
  | inr (next, moved) ↦
      let ran : run rest next ≡ some last = ground (arith, h, moved) in
      let (within, same) = run-keeps rest next last ran (step-is_within event e next moved w) in
      (within, same ∙ step-worker_count event e next moved)
]

-- Whatever happens to a new engine: the buffer of the results holds at most ten for each worker, and until
-- Stop has been called there are exactly as many workers as the engine was made with while it runs, and
-- none before, ready or busy. An engine has at least one worker.
pub run-is_within :
    (worker_count : ℤ) (events : List Event) (e : Engine)
    → run events (new_engine worker_count) ≡ some e
    → (is_within e ≡ true)
      × (e.worker_count ≡ (new_engine worker_count).worker_count)
      × (1 ≤ e.worker_count)
unfolding new_engine
run-is_within worker_count events e h =
    let (within, same) = run-keeps events (new_engine worker_count) e h (ground arith) in
    (within, same, rw same (ground arith))
