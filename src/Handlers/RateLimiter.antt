-- ===== src/Handlers/RateLimiter.antt =====
-- internal/handlers/routes.go: the limit on the requests of each address in a sliding window.
-- Times are nanoseconds; `t.After(now.Add(-window))` is `now < t + window`. The mutex makes `Allow`
-- and each round of `cleanup` atomic.
pub mod Tracking
pub mod Window
use gslb.Prelude.{
  ℕ, ◌+◌, String, Bool, true, false, Option, none, some, List, [], ◌∷◌, ◌++◌, length, filter_by,
  ltb, leb, if◌then◌else◌,
}
use gslb.Prelude.Dict.{Dict, lookup, insert, delete}

pub record RateLimiter : Type 0 where
  pub requests : Dict (List ℕ)
  pub limit : ℕ
  pub window : ℕ

unfoldable pub new_rate_limiter : ℕ → ℕ → RateLimiter
new_rate_limiter limit window = record { requests = []; limit = limit; window = window }

-- The times of a map entry; a missing key reads as nil.
unfoldable pub times_of : String → Dict (List ℕ) → List ℕ
times_of ip requests = elim (lookup ip requests) [ none ↦ [] | some times ↦ times ]

-- `t.After(cutoff)`
abbrev pub is_recent : ℕ → ℕ → ℕ → Bool
is_recent window now t = ltb now (t + window)

unfoldable pub allow : ℕ → String → RateLimiter → Bool × RateLimiter
allow now ip rl =
    let valid = filter_by (is_recent rl.window now) (times_of ip rl.requests) in
    if leb rl.limit (length valid)
    then (false, record rl { requests = insert ip valid rl.requests })
    else (true, record rl { requests = insert ip (valid ++ (now ∷ [])) rl.requests })

-- The loop of `cleanup` over the map: an entry with no recent time is deleted.
unfoldable pub clean_entries : ℕ → ℕ → Dict (List ℕ) → Dict (List ℕ)
clean_entries window now [] = []
clean_entries window now ((ip, times) ∷ rest) =
    let others = clean_entries window now rest in
    elim (filter_by (is_recent window now) times) [
      | [] ↦ delete ip others
      | t ∷ valid ↦ (ip, t ∷ valid) ∷ others
    ]

-- One round of `cleanup`.
unfoldable pub cleanup : ℕ → RateLimiter → RateLimiter
cleanup now rl = record rl { requests = clean_entries rl.window now rl.requests }

-- What happens to a limiter: a request of an address, or a round of the cleanup, at a time.
pub data Event : Type 0 where
  request : ℕ → String → Event
  clean_up : ℕ → Event

unfoldable pub step : Event → RateLimiter → RateLimiter
step (request now ip) rl = (allow now ip rl).1
step (clean_up now) rl = cleanup now rl
