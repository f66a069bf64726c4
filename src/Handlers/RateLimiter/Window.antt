-- ===== src/Handlers/RateLimiter/Window.antt =====
-- internal/handlers/routes.go: the rate limiter against a description that looks at the whole
-- history of the requests it allowed.
use gslb.Prelude.{ℕ, ◌≤◌, String, ◌≡◌, refl, List, [], ◌∷◌, ◌++◌, length, ltb, arith}
use gslb.Prelude.Dict.{lookup}
use gslb.Handlers.RateLimiter.{
  RateLimiter, new_rate_limiter, times_of, allow, cleanup, Event, request, clean_up, step,
}
use gslb.Handlers.RateLimiter.Tracking.{
  recent, time_of, InOrder, after, granted, grants, recent-append, recent_none, length-filter_by,
  Tracks, step-Tracks,
}

InOrder-le : (from until : ℕ) (events : List Event) → InOrder from events until → from ≤ until
InOrder-le from until [] h = h
InOrder-le from until (e ∷ rest) h = omega (arith, h.0, InOrder-le (time_of e) until rest h.1)

limits_kept :
    (e : Event) (rl : RateLimiter)
    → ((step e rl).limit ≡ rl.limit) × ((step e rl).window ≡ rl.window)
unfolding step allow cleanup
limits_kept (clean_up now) rl = (refl, refl)
limits_kept (request now ip) rl = ground arith

after_limits :
    (events : List Event) (rl : RateLimiter)
    → ((after events rl).limit ≡ rl.limit) × ((after events rl).window ≡ rl.window)
unfolding after
after_limits [] rl = (refl, refl)
after_limits (e ∷ rest) rl = ground (arith, after_limits rest (step e rl), limits_kept e rl)

after-Tracks :
    (ip : String) (events : List Event) (rl : RateLimiter) (from until : ℕ) (times : List ℕ)
    → Tracks ip rl from times
    → InOrder from events until
    → (later : ℕ) → until ≤ later
    → (recent rl.window later (times ++ grants ip events rl)
        ≡ recent rl.window later (times_of ip (after events rl).requests))
      × (length (times_of ip (after events rl).requests) ≤ rl.limit)
unfolding after grants
after-Tracks ip [] rl from until times h o later q = (
  ground (
    arith,
    recent-append rl.window later times [],
    recent_none rl.window later,
    h.same later (omega arith),
  ),
  h.short,
)
after-Tracks ip (e ∷ rest) rl from until times h o later q = ground (
  arith,
  limits_kept e rl,
  recent-append rl.window later (times ++ granted ip e rl) (grants ip rest (step e rl)),
  recent-append rl.window later times (granted ip e rl),
  recent-append rl.window later times (granted ip e rl ++ grants ip rest (step e rl)),
  recent-append rl.window later (granted ip e rl) (grants ip rest (step e rl)),
  after-Tracks ip rest (step e rl) (time_of e) until (times ++ granted ip e rl)
      (step-Tracks ip rl from times e h o.0) o.1 later q,
)

new-Tracks : (ip : String) (limit window : ℕ) → Tracks ip (new_rate_limiter limit window) 0 []
unfolding new_rate_limiter times_of lookup recent
new-Tracks ip limit window = record { same = λ later q. refl; short = omega arith }

-- After any history of requests and cleanups in the order of their times, a request is allowed
-- exactly when fewer than `limit` allowed requests of its address lie in the window that ends now.
pub allow-eq-recent :
    (limit window : ℕ) (events : List Event) (ip : String) (now : ℕ)
    → InOrder 0 events now
    → (allow now ip (after events (new_rate_limiter limit window))).0
      ≡ ltb (recent window now (grants ip events (new_rate_limiter limit window))) limit
unfolding allow new_rate_limiter recent
allow-eq-recent limit window events ip now o =
    let rl = new_rate_limiter limit window in
    ground (
      arith,
      after_limits events rl,
      (after-Tracks ip events rl 0 now [] (new-Tracks ip limit window) o now (omega arith)).0,
    )

-- In a history in the order of its times, no address ever has more than `limit` allowed requests in
-- a window, wherever after the history the window ends.
pub recent-grants :
    (limit window : ℕ) (events : List Event) (ip : String) (until later : ℕ)
    → InOrder 0 events until
    → until ≤ later
    → recent window later (grants ip events (new_rate_limiter limit window)) ≤ limit
unfolding new_rate_limiter recent
recent-grants limit window events ip until later o q =
    let rl = new_rate_limiter limit window in
    let tracked = after-Tracks ip events rl 0 until [] (new-Tracks ip limit window) o later q in
    ground (
      arith,
      tracked.0,
      tracked.1,
      length-filter_by window later (times_of ip (after events rl).requests),
    )
