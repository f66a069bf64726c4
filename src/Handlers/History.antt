-- ===== src/Handlers/History.antt =====
-- internal/handlers/history.go: the history of a backend. Times are nanoseconds; the range is the query, with
-- "24h" where it is missing. The arithmetic of float64 is the parameter `FloatLib`.
pub mod Ranges
use gslb.Prelude.{
  ℕ, zero, suc, ◌+◌, ◌-◌, ◌*◌, ◌%◌, ℤ, pos, negsuc, max_int, ◌+ℤ◌, String, Bool, List, [], ◌∷◌,
  filter_by, leb, str_eq, eqb_ℤ, if◌then◌else◌,
}
use gslb.Types.{HealthHistoryBucket}
use gslb.Handlers.Api.{
  Handlers, Caller, Serve, send_success, send_validation_error, send_internal_error, or_reply,
  or_store_error,
}

pub record FloatLib : Type 1 where
  pub Float : Type 0
  pub from_int : ℤ → Float
  pub quotient : Float → Float → Float
  pub product : Float → Float → Float

-- A sum of two `int`s: 18446744073709551616 is 2^64.
abbrev wrap_int : ℤ → ℤ
wrap_int (pos n) =
    let m = n % 18446744073709551616 in
    if leb m max_int then pos m else negsuc (18446744073709551615 - m)
wrap_int (negsuc n) =
    let m = n % 18446744073709551616 in
    if leb m max_int then negsuc m else pos (18446744073709551615 - m)

abbrev add_int : ℤ → ℤ → ℤ
add_int a b = wrap_int (a +ℤ b)

-- The loop of `calculateUptime`: the two counters after the buckets.
unfoldable pub add_counts : List HealthHistoryBucket → ℤ → ℤ → ℤ × ℤ
add_counts [] success total = (success, total)
add_counts (b ∷ rest) success total =
    add_counts rest (add_int success b.success_count)
      (add_int total (add_int b.success_count b.failure_count))

unfoldable pub calculate_uptime : (lib : FloatLib) → List HealthHistoryBucket → FloatLib.Float lib
calculate_uptime lib buckets =
    let counts = add_counts buckets (pos 0) (pos 0) in
    if eqb_ℤ counts.1 (pos 0)
    then lib.from_int (pos 0)
    else lib.product (lib.quotient (lib.from_int counts.0) (lib.from_int counts.1))
        (lib.from_int (pos 100))

abbrev pub hours : ℕ → ℕ
hours n = n * 3600000000000

-- `sinceRequested`
abbrev pub since_requested : String → ℕ → ℕ
since_requested range now =
    if str_eq range "24h"
    then now - hours 24
    else if str_eq range "7d"
    then now - hours 168
    else if str_eq range "30d"
    then now - hours 720
    else now - hours 3

-- `!b.BucketStart.Before(since)`
abbrev pub is_in : ℕ → HealthHistoryBucket → Bool
is_in since b = leb since b.bucket_start

pub record BackendHistoryResponse (Float : Type 0) : Type 0 where
  pub buckets : List HealthHistoryBucket
  pub uptime_24h : Float
  pub uptime_7d : Float
  pub uptime_30d : Float

unfoldable pub get_backend_history :
    {W : Type 0}
    → (lib : FloatLib) → Handlers W
    → ℕ
    → Caller
    → String
    → Serve W (BackendHistoryResponse (FloatLib.Float lib))
get_backend_history lib h now caller range w =
    if str_eq caller.id ""
    then (send_validation_error "backend id is required", w)
    else or_store_error (h.store.backends.get_backend caller.id)
        (λ backend.
          or_reply (λ e. send_internal_error "failed to get history")
            (h.store.history.get_health_history caller.id (now - hours 720))
            (λ all w'. (
              send_success (record {
                buckets = filter_by (is_in (since_requested range now)) all;
                uptime_24h = calculate_uptime lib (filter_by (is_in (now - hours 24)) all);
                uptime_7d = calculate_uptime lib (filter_by (is_in (now - hours 168)) all);
                uptime_30d = calculate_uptime lib all;
              }),
              w',
            )))
        w
