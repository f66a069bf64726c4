-- ===== src/Handlers/RateLimiter/Tracking.antt =====
-- internal/handlers/routes.go: the requests that a rate limiter allowed in a history, and how the
-- times that it stores count them.
use gslb.Prelude.{
  ℕ, ◌+◌, ◌≤◌, String, false, Bool-cases, ◌≡◌, refl, inl, inr, List, [], ◌∷◌, ◌++◌, length,
  length-append, filter_by, leb, str_eq, eq_iff, eq_refl, arith, if◌then◌else◌,
}
use gslb.Prelude.Dict.{Dict, lookup, insert, lookup-insert, lookup-delete}
use gslb.Handlers.RateLimiter.{
  RateLimiter, times_of, is_recent, allow, clean_entries, cleanup, Event, request, clean_up, step,
}

-- How many of the times are in the window that ends at `now`.
unfoldable pub recent : ℕ → ℕ → List ℕ → ℕ
unfolding filter_by
recent window now times = length (filter_by (is_recent window now) times)

abbrev pub time_of : Event → ℕ
time_of (request now ip) = now
time_of (clean_up now) = now

-- The events come in the order of their times, from one time to another.
abbrev pub InOrder : ℕ → List Event → ℕ → Type 0
InOrder from [] until = from ≤ until
InOrder from (e ∷ rest) until = (from ≤ time_of e) × InOrder (time_of e) rest until

unfoldable pub after : List Event → RateLimiter → RateLimiter
after [] rl = rl
after (e ∷ rest) rl = after rest (step e rl)

-- The time of an event that is an allowed request of the address.
abbrev pub granted : String → Event → RateLimiter → List ℕ
granted ip (clean_up now) rl = []
granted ip (request now other) rl =
    if str_eq other ip then (if (allow now other rl).0 then now ∷ [] else []) else []

-- The times of the allowed requests of the address.
unfoldable pub grants : String → List Event → RateLimiter → List ℕ
grants ip [] rl = []
grants ip (e ∷ rest) rl = granted ip e rl ++ grants ip rest (step e rl)

pub recent-append :
    (window now : ℕ) (xs ys : List ℕ)
    → recent window now (xs ++ ys) ≡ recent window now xs + recent window now ys
unfolding recent filter_by
recent-append window now [] ys = omega arith
recent-append window now (x ∷ xs) ys = ground (arith, recent-append window now xs ys)

pub recent_none : (window now : ℕ) → recent window now [] ≡ 0
unfolding recent filter_by
recent_none window now = refl

pub length-filter_by :
    (window now : ℕ) (xs : List ℕ) → length (filter_by (is_recent window now) xs) ≤ length xs
unfolding filter_by
length-filter_by window now [] = omega arith
length-filter_by window now (x ∷ xs) = ground (arith, length-filter_by window now xs)

-- What was dropped earlier is not in a later window.
recent-filter_by :
    (window now later : ℕ) (xs : List ℕ)
    → now ≤ later
    → recent window later (filter_by (is_recent window now) xs) ≡ recent window later xs
unfolding recent filter_by
recent-filter_by window now later [] h = refl
recent-filter_by window now later (x ∷ xs) h =
    ground (arith, h, recent-filter_by window now later xs h)

times-insert :
    (k ip : String) (times : List ℕ) (m : Dict (List ℕ))
    → times_of ip (insert k times m) ≡ (if str_eq k ip then times else times_of ip m)
unfolding times_of
times-insert k ip times m = ground (arith, lookup-insert k ip times m)

times-clean_entries :
    (window now : ℕ) (ip : String) (m : Dict (List ℕ))
    → times_of ip (clean_entries window now m) ≡ filter_by (is_recent window now) (times_of ip m)
unfolding times_of clean_entries lookup filter_by
times-clean_entries window now ip [] = refl
times-clean_entries window now ip ((j, times) ∷ rest) = ground (
  arith,
  times-clean_entries window now ip rest,
  lookup-delete j ip (clean_entries window now rest),
  eq_iff j ip,
)

-- From the time `from` on, the stored times of the address count like its allowed requests.
pub record Tracks (ip : String) (rl : RateLimiter) (from : ℕ) (times : List ℕ) : Type 0 where
  pub same :
      (later : ℕ)
      → from ≤ later
      → recent rl.window later times ≡ recent rl.window later (times_of ip rl.requests)
  pub short : length (times_of ip rl.requests) ≤ rl.limit

allow-Tracks :
    (ip : String) (rl : RateLimiter) (from : ℕ) (times : List ℕ) (now : ℕ)
    → Tracks ip rl from times
    → from ≤ now
    → Tracks ip (allow now ip rl).1 now (times ++ granted ip (request now ip) rl)
unfolding allow
allow-Tracks ip rl from times now h le =
    let valid = filter_by (is_recent rl.window now) (times_of ip rl.requests) in
    elim (Bool-cases (leb rl.limit (length valid))) [
      | inl full ↦
          rw (full, eq_refl ip)
            record {
              same = λ later q. ground (
                arith,
                h.same later (omega arith),
                recent_none rl.window later,
                recent-append rl.window later times [],
                times-insert ip ip valid rl.requests,
                eq_refl ip,
                recent-filter_by rl.window now later (times_of ip rl.requests) q,
              );
              short = ground (
                arith,
                h.short,
                eq_refl ip,
                times-insert ip ip valid rl.requests,
                length-filter_by rl.window now (times_of ip rl.requests),
              );
            }
      | inr open_ ↦
          rw (open_, eq_refl ip)
            record {
              same = λ later q. ground (
                arith,
                h.same later (omega arith),
                recent_none rl.window later,
                recent-append rl.window later times (now ∷ []),
                recent-append rl.window later valid (now ∷ []),
                times-insert ip ip (valid ++ (now ∷ [])) rl.requests,
                eq_refl ip,
                recent-filter_by rl.window now later (times_of ip rl.requests) q,
              );
              short = ground (
                arith,
                open_,
                eq_refl ip,
                times-insert ip ip (valid ++ (now ∷ [])) rl.requests,
                length-append valid (now ∷ []),
              );
            }
    ]

other-Tracks :
    (ip other : String) (rl : RateLimiter) (from : ℕ) (times : List ℕ) (now : ℕ)
    → Tracks ip rl from times
    → from ≤ now
    → str_eq other ip ≡ false
    → Tracks ip (allow now other rl).1 now (times ++ granted ip (request now other) rl)
unfolding allow
other-Tracks ip other rl from times now h le n =
    let valid = filter_by (is_recent rl.window now) (times_of other rl.requests) in
    elim (Bool-cases (leb rl.limit (length valid))) [
      | inl full ↦
          rw (full, n)
            record {
              same = λ later q. ground (
                arith,
                h.same later (omega arith),
                recent_none rl.window later,
                recent-append rl.window later times [],
                times-insert other ip valid rl.requests,
                n,
              );
              short = ground (arith, h.short, n, times-insert other ip valid rl.requests);
            }
      | inr open_ ↦
          rw (open_, n)
            record {
              same = λ later q. ground (
                arith,
                h.same later (omega arith),
                recent_none rl.window later,
                recent-append rl.window later times [],
                times-insert other ip (valid ++ (now ∷ [])) rl.requests,
                n,
              );
              short =
                  ground
                    (arith, h.short, n, times-insert other ip (valid ++ (now ∷ [])) rl.requests);
            }
    ]

pub step-Tracks :
    (ip : String) (rl : RateLimiter) (from : ℕ) (times : List ℕ) (e : Event)
    → Tracks ip rl from times
    → from ≤ time_of e
    → Tracks ip (step e rl) (time_of e) (times ++ granted ip e rl)
unfolding step cleanup allow
step-Tracks ip rl from times (clean_up now) h le =
    let kept = times-clean_entries rl.window now ip rl.requests in
    record {
      same = λ later q. ground (
        arith,
        recent-append rl.window later times [],
        recent_none rl.window later,
        h.same later (omega arith),
        kept,
        recent-filter_by rl.window now later (times_of ip rl.requests) q,
      );
      short =
          ground (arith, h.short, kept, length-filter_by rl.window now (times_of ip rl.requests));
    }
step-Tracks ip rl from times (request now other) h le = elim (Bool-cases (str_eq other ip)) [
  | inl e ↦ rw ((eq_iff other ip).0 e) (allow-Tracks ip rl from times now h le)
  | inr n ↦ other-Tracks ip other rl from times now h le n
]
