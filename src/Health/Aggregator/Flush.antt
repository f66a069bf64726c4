-- ===== src/Health/Aggregator/Flush.antt =====
-- internal/health/aggregator.go: what a flush writes and keeps.
use gslb.Prelude.{
  ℕ, ◌+◌, ◌≡◌, Bool, not, [], ◌∷◌, ◌==◌, eq_iff, filter_by, none, if◌then◌else◌, arith,
}
use gslb.Types.{HealthHistoryBucket}
use gslb.Store.{HealthHistoryStore}
use gslb.Health.Aggregator.{
  BucketKey, BucketData, Buckets, same_key, bucket_floor, to_history, is_current, write_buckets,
  flush,
}
use gslb.Health.Aggregator.Buckets.{find_bucket}

find_bucket-current :
    (start : ℕ) (key : BucketKey) (l : Buckets)
    → find_bucket key (filter_by (is_current start) l)
      ≡ (if key.bucket_start == start then find_bucket key l else none)
unfolding filter_by
find_bucket-current start key [] = ground arith
find_bucket-current start key ((k, b) ∷ rest) =
    ground (arith, find_bucket-current start key rest, eq_iff k.backend_id key.backend_id)

-- A flush keeps the buckets of the current five minutes as they are, and no other.
pub find_bucket-flush :
    {W : Type 0} (s : HealthHistoryStore W) (now : ℕ) (key : BucketKey) (l : Buckets) (w : W)
    → find_bucket key (flush s now l w).0
      ≡ (if key.bucket_start == bucket_floor now then find_bucket key l else none)
unfolding flush
find_bucket-flush s now key l w = find_bucket-current (bucket_floor now) key l

abbrev pub history_key : HealthHistoryBucket → BucketKey
history_key b = record { backend_id = b.backend_id; bucket_start = b.bucket_start }

-- The sum of a measure of the buckets with a key.
abbrev pub in_memory : (HealthHistoryBucket → ℕ) → BucketKey → Buckets → ℕ
in_memory m key [] = 0
in_memory m key ((k, b) ∷ rest) =
    (if same_key k key then m (to_history k b) else 0) + in_memory m key rest

module _ (m : HealthHistoryBucket → ℕ) where
  pub in_memory-split :
      (p : BucketKey × BucketData → Bool) (key : BucketKey) (l : Buckets)
      → in_memory m key (filter_by p l) + in_memory m key (filter_by (λ kb. not (p kb)) l)
        ≡ in_memory m key l
  unfolding filter_by
  in_memory-split p key [] = omega arith
  in_memory-split p key ((k, b) ∷ rest) = ground (arith, in_memory-split p key rest)

-- A store that adds what it is given to what it holds: the upsert of health_history.go, where the
-- database does not fail.
pub record AddsUp {W : Type 0} (s : HealthHistoryStore W) (m : HealthHistoryBucket → ℕ)
    : Type 0 where
  pub stored : W → BucketKey → ℕ
  pub adds :
      (b : HealthHistoryBucket) (w : W) (key : BucketKey)
      → stored (s.upsert_health_history_bucket b w).1 key
        ≡ stored w key + (if same_key (history_key b) key then m b else 0)

module _ {W : Type 0} (s : HealthHistoryStore W) (m : HealthHistoryBucket → ℕ)
    (law : AddsUp s m) where
  stored-write_buckets :
      (l : Buckets) (w : W) (key : BucketKey)
      → law.stored (write_buckets s l w) key ≡ law.stored w key + in_memory m key l
  unfolding write_buckets
  stored-write_buckets [] w key = omega arith
  stored-write_buckets ((k, b) ∷ rest) w key = omega (
    arith,
    stored-write_buckets rest (s.upsert_health_history_bucket (to_history k b) w).1 key,
    law.adds (to_history k b) w key,
  )

  -- A flush loses and doubles nothing: for every backend and five minutes, the counts in memory
  -- and in the store add up to what they were, for a store that adds up.
  flush_conserves :
      (now : ℕ) (l : Buckets) (w : W) (key : BucketKey)
      → in_memory m key (flush s now l w).0 + law.stored (flush s now l w).1 key
        ≡ in_memory m key l + law.stored w key
  unfolding flush
  flush_conserves now l w key = omega (
    arith,
    stored-write_buckets (filter_by (λ kb. not (is_current (bucket_floor now) kb)) l) w key,
    in_memory-split m (is_current (bucket_floor now)) key l,
  )
