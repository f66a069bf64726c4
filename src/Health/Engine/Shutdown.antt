-- ===== src/Health/Engine/Shutdown.antt =====
-- internal/health/engine.go, Stop: it waits for the workers, and they end.
use gslb.Prelude.{
  ℕ, suc, ◌+◌, ◌*◌, ◌≤◌, Bool, true, false, ◌&&◌, ◌≡◌, sym, ◌∙◌, ◌⊎◌, inl, inr, none, some, List,
  [], ◌∷◌, length, length-append, Option-cases, arith,
}
use gslb.Health.Engine.{Engine, Event, remove_at, step, run}
use gslb.Health.Engine.Bounds.{remove_at-length}

-- What a worker, a waiting Submit or the reader of the results does.
abbrev pub is_winding_down : Event → Bool
is_winding_down Event.start = false
is_winding_down Event.stop = false
is_winding_down (Event.submit req) = false
is_winding_down _ = true

abbrev pub all_winding_down : List Event → Bool
all_winding_down [] = true
all_winding_down (event ∷ rest) = is_winding_down event && all_winding_down rest

-- The work that is left: a waiting request may still be taken and probed, and its result read.
abbrev pub work : Engine → ℕ
work e = 4 * length e.waiting + 3 * length e.busy + e.idle + length e.results

step-work :
    (event : Event) (e next : Engine)
    → step event e ≡ some next
    → is_winding_down event ≡ true
    → (suc (work next) ≤ work e) × (next.cancelled ≡ e.cancelled)
unfolding step
step-work Event.start e next h w = ground (arith, w)
step-work Event.stop e next h w = ground (arith, w)
step-work (Event.submit req) e next h w = ground (arith, w)
step-work (Event.hand_over i) e next h w = elim (Option-cases (remove_at i e.waiting)) [
  | inl absent ↦ ground (arith, h, absent)
  | inr ((req, others), found) ↦
      ground (arith, h, found, remove_at-length i e.waiting req others found)
]
step-work (Event.give_up i) e next h w = elim (Option-cases (remove_at i e.waiting)) [
  | inl absent ↦ ground (arith, h, absent)
  | inr ((req, others), found) ↦
      ground (arith, h, found, remove_at-length i e.waiting req others found)
]
step-work Event.exit e next h w = ground (arith, h)
step-work (Event.deliver i healthy error) e next h w = elim (Option-cases (remove_at i e.busy)) [
  | inl absent ↦ ground (arith, h, absent)
  | inr ((req, others), found) ↦ ground (
    arith,
    h,
    found,
    remove_at-length i e.busy req others found,
    length-append e.results
        (record { backend_id = req.backend_id; healthy = healthy; error = error } ∷ []),
  )
]
step-work (Event.discard i) e next h w = elim (Option-cases (remove_at i e.busy)) [
  | inl absent ↦ ground (arith, h, absent)
  | inr ((req, others), found) ↦
      ground (arith, h, found, remove_at-length i e.busy req others found)
]
step-work Event.take_result e next h w = ground (arith, h)

-- The next thing that is sure to be possible while something is left.
abbrev pub next_event : Engine → Event
next_event e = elim e.waiting [
  | req ∷ rest ↦ Event.give_up 0
  | [] ↦ elim e.busy [ req ∷ rest ↦ Event.discard 0 | [] ↦ Event.exit ]
]

abbrev pub is_possible : Event → Engine → Bool
is_possible event e = elim (step event e) [ none ↦ false | some next ↦ true ]

ended_or_possible :
    (e : Engine)
    → e.cancelled ≡ true
    → ((e.waiting ≡ []) × (e.busy ≡ []) × (e.idle ≡ 0)) ⊎ (is_possible (next_event e) e ≡ true)
unfolding step remove_at
ended_or_possible e h = ground (arith, h)

ended_when_none :
    (e last : Engine)
    → e.cancelled ≡ true
    → e ≡ last
    → (length {A = Event} [] + work last ≤ work e)
      × (((last.waiting ≡ []) × (last.busy ≡ []) × (last.idle ≡ 0))
          ⊎ (is_possible (next_event last) last ≡ true))
ended_when_none e last h same = rw (sym same) (omega arith, ended_or_possible e h)

-- Once Stop has cancelled the engine, and as long as it is not started again and no new call of Submit
-- begins: what the workers, the waiting calls and the reader of the results do, in whatever order, is at
-- most `work` events long; and at every point either every worker has ended and every call of Submit
-- has returned, so that Stop returns, or one of them can go on without anything being read from the
-- results. That a probe whose context is cancelled ends is part of the step `discard`.
pub stop_returns :
    (events : List Event) (e last : Engine)
    → e.cancelled ≡ true
    → all_winding_down events ≡ true
    → run events e ≡ some last
    → (length events + work last ≤ work e)
      × (((last.waiting ≡ []) × (last.busy ≡ []) × (last.idle ≡ 0))
          ⊎ (is_possible (next_event last) last ≡ true))
unfolding run
stop_returns [] e last h w r = ended_when_none e last h (ground (arith, r))
stop_returns (event ∷ rest) e last h w r = elim (Option-cases (step event e)) [
  | inl stuck ↦ ground (arith, r, stuck)
  | inr (next, moved) ↦
      let (less, same) = step-work event e next moved (ground (arith, w)) in
      let (few, ended) =
        stop_returns rest next last (same ∙ h) (ground (arith, w)) (ground (arith, r, moved)) in
      (omega (arith, less, few), ended)
]
