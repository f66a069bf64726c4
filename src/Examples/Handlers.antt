-- ===== src/Examples/Handlers.antt =====
-- internal/handlers: the rate limiter with two requests in ten nanoseconds.
use gslb.Prelude.{◌≤◌, List, [], ◌∷◌, ◌≡◌, refl, ltb, filter_by, arith}
use gslb.Prelude.Dict.{lookup, insert}
use gslb.Handlers.RateLimiter.{
  new_rate_limiter, allow, times_of, step, cleanup, clean_entries, Event, request, clean_up,
}
use gslb.Handlers.RateLimiter.Tracking.{recent, after, grants}
use gslb.Handlers.RateLimiter.Window.{allow-eq-recent, recent-grants}

abbrev history : List Event
history = request 1 "a" ∷ request 2 "b" ∷ request 3 "a" ∷ clean_up 4 ∷ request 5 "a" ∷ []

grants_example : grants "a" history (new_rate_limiter 2 10) ≡ 1 ∷ 3 ∷ []
unfolding grants new_rate_limiter allow times_of lookup insert filter_by step cleanup clean_entries
grants_example = refl

allow-eq-recent_example :
    (allow 12 "a" (after history (new_rate_limiter 2 10))).0
    ≡ ltb (recent 10 12 (grants "a" history (new_rate_limiter 2 10))) 2
allow-eq-recent_example = allow-eq-recent 2 10 history "a" 12 (omega arith)

recent-grants_example : recent 10 12 (grants "a" history (new_rate_limiter 2 10)) ≤ 2
recent-grants_example = recent-grants 2 10 history "a" 5 12 (omega arith) (omega arith)
