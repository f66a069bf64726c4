-- ===== src/Lb.antt =====
-- internal/lb/selector.go: the selectors, each with a `uint64` counter, and the filter of healthy
-- backends. A selector returns the backend that it points to, and its new counter.
pub mod RoundRobin
pub mod Weighted
pub mod Healthy
use gslb.Prelude.{
  ℕ, suc, ◌+◌, ◌%◌, ℤ, pos, String, Bool, true, false, ◌&&◌, not, Option, none, some, List, [], ◌∷◌,
  length, get_elem?, leb_ℤ, ltb_ℤ, ltb, ◌==◌, to_ℕ, if◌then◌else◌,
}
use gslb.Prelude.Dict.{Dict, lookup}
use gslb.Types.{Backend, HealthStatus, is_healthy}

-- 2 ^ 64
abbrev pub word : ℕ
word = 18446744073709551616

-- `atomic.AddUint64(&s.counter, 1)`
abbrev pub next_count : ℕ → ℕ
next_count counter = (counter + 1) % word

unfoldable pub round_robin_select : ℕ → List Backend → Option Backend × ℕ
round_robin_select counter [] = (none, counter)
round_robin_select counter (b ∷ rest) =
    let count = next_count counter in (get_elem? (b ∷ rest) (count % length (b ∷ rest)), count)

-- The weight that counts: 0 for one that is not positive.
abbrev pub share : Backend → ℕ
share b = if ltb_ℤ (pos 0) b.weight then to_ℕ b.weight else 0

-- `totalWeight`, as a `uint64`: the sum of an `int` wraps at the same modulus.
unfoldable pub total_weight : List Backend → ℕ
total_weight [] = 0
total_weight (b ∷ rest) = (share b + total_weight rest) % word

-- The loop of `Select` over the backends, from `current`; `none` where it ends.
unfoldable pub find_offset : ℕ → ℕ → List Backend → Option Backend
find_offset offset current [] = none
find_offset offset current (b ∷ rest) =
    let later = find_offset offset ((current + share b) % word) rest in
    if leb_ℤ b.weight (pos 0)
    then find_offset offset current rest
    else if ltb offset ((current + share b) % word)
    then some b
    else later

unfoldable pub weighted_select : ℕ → List Backend → Option Backend × ℕ
weighted_select counter [] = (none, counter)
weighted_select counter (b ∷ rest) =
    let count = next_count counter in
    let total = total_weight (b ∷ rest) in
    if total == 0 then (get_elem? (b ∷ rest) (count % length (b ∷ rest)), count) else (
      elim (find_offset (count % total) 0 (b ∷ rest)) [ some c ↦ some c | none ↦ some b ],
      count,
    )

-- A status that is missing counts as healthy.
abbrev pub status_allows : Option HealthStatus → Bool
status_allows none = true
status_allows (some status) = is_healthy status

unfoldable pub get_healthy_backends : Dict HealthStatus → List Backend → List Backend
get_healthy_backends states [] = []
get_healthy_backends states (b ∷ rest) =
    let others = get_healthy_backends states rest in
    if b.enabled && status_allows (lookup b.id states) then b ∷ others else others
