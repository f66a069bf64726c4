-- ===== src/Health/Aggregator.antt =====
-- internal/health/aggregator.go: probes and selections counted in buckets of five minutes.
-- Times are nanoseconds since the zero time, to which `Truncate` is relative.
pub mod Buckets
pub mod Flush
pub mod Counts
pub mod Recorded
use gslb.Prelude.{
  ℕ, ℤ, pos, ◌-◌, ◌%◌, String, Bool, true, false, ◌&&◌, Option, none, some, List, [], ◌∷◌, ◌==◌,
  str_eq, inc_int, filter_by, not, if◌then◌else◌,
}
use gslb.Types.{HealthHistoryBucket}
use gslb.Result.{Exec, ok}
use gslb.Store.{HealthHistoryStore}

-- 5 * time.Minute
abbrev pub bucket_duration : ℕ
bucket_duration = 300000000000

pub record BucketKey : Type 0 where
  pub backend_id : String
  pub bucket_start : ℕ

pub record BucketData : Type 0 where
  pub success_count : ℤ
  pub failure_count : ℤ
  pub selected : Bool

abbrev pub same_key : BucketKey → BucketKey → Bool
same_key j k = str_eq j.backend_id k.backend_id && j.bucket_start == k.bucket_start

-- The map of the aggregator. The buckets are behind pointers that nothing else holds.
abbrev pub Buckets : Type 0
Buckets = List (BucketKey × BucketData)

abbrev pub empty_bucket : BucketData
empty_bucket = record { success_count = pos 0; failure_count = pos 0; selected = false }

unfoldable pub bucket_floor : ℕ → ℕ
bucket_floor t = t - t % bucket_duration

-- `f` applied to the bucket at `key`, which `getOrCreateBucket` creates where there is none.
unfoldable pub at_bucket : BucketKey → (BucketData → BucketData) → Buckets → Buckets
at_bucket key f [] = (key, f empty_bucket) ∷ []
at_bucket key f ((k, b) ∷ rest) =
    if same_key k key then (k, f b) ∷ rest else (k, b) ∷ at_bucket key f rest

abbrev pub count_probe : Bool → BucketData → BucketData
count_probe true b = record b { success_count = inc_int b.success_count }
count_probe false b = record b { failure_count = inc_int b.failure_count }

abbrev pub mark_selected : BucketData → BucketData
mark_selected b = record b { selected = true }

unfoldable pub record_probe : ℕ → String → Bool → Buckets → Buckets
record_probe now backend_id result buckets =
    at_bucket (record { backend_id = backend_id; bucket_start = bucket_floor now })
      (count_probe result) buckets

unfoldable pub record_selection : ℕ → String → Buckets → Buckets
record_selection now backend_id buckets =
    at_bucket (record { backend_id = backend_id; bucket_start = bucket_floor now }) mark_selected
      buckets

abbrev pub to_history : BucketKey → BucketData → HealthHistoryBucket
to_history key b = record {
  backend_id = key.backend_id;
  bucket_start = key.bucket_start;
  success_count = b.success_count;
  failure_count = b.failure_count;
  selected = if b.selected then pos 1 else pos 0;
}

-- `k.bucketStart == currentBucket`
abbrev pub is_current : ℕ → BucketKey × BucketData → Bool
is_current start (k, b) = k.bucket_start == start

-- The writes of `flush`: an error is logged, and the loop goes on with the next bucket.
unfoldable pub write_buckets : {W : Type 0} → HealthHistoryStore W → Buckets → W → W
write_buckets s [] w = w
write_buckets s ((k, b) ∷ rest) w =
    write_buckets s rest (s.upsert_health_history_bucket (to_history k b) w).1

-- `flush`: the completed buckets leave the map, then they are written.
unfoldable pub flush : {W : Type 0} → HealthHistoryStore W → ℕ → Buckets → W → Buckets × W
flush s now buckets w =
    let start = bucket_floor now in
    (
      filter_by (is_current start) buckets,
      write_buckets s (filter_by (λ kb. not (is_current start kb)) buckets) w,
    )

abbrev pub new_aggregator : Buckets
new_aggregator = []

-- The calls of RecordProbe and RecordSelection by other goroutines, each of which holds the mutex, and what
-- the loop of `run` receives.
pub data Event : Type 0 where
  probe : ℕ → String → Bool → Event
  selection : ℕ → String → Event
  tick context_done : ℕ → Event

-- `run`: a flush on each tick, and a last one at the end of the context.
unfoldable pub run : {W : Type 0} → HealthHistoryStore W → List Event → Buckets × W → Buckets × W
run s [] bw = bw
run s (probe now id passed ∷ rest) (buckets, w) = run s rest (record_probe now id passed buckets, w)
run s (selection now id ∷ rest) (buckets, w) = run s rest (record_selection now id buckets, w)
run s (tick now ∷ rest) (buckets, w) = run s rest (flush s now buckets w)
run s (context_done now ∷ rest) (buckets, w) = flush s now buckets w
