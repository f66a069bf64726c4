-- ===== src/Health/Aggregator/Counts.antt =====
-- internal/health/aggregator.go and internal/store/health_history.go: the counts of the buckets, in memory and
-- in the table.
use gslb.Prelude.{
  ℕ, ◌+◌, ◌<◌, suc, ℤ, pos, negsuc, ◌+ℤ◌, to_ℕ, leb_ℤ, max_int, inc_int, Bool, true, false, ◌&&◌,
  not, ◌≡◌, refl, List, [], ◌∷◌, eq_iff, if◌then◌else◌, arith,
}
use gslb.Types.{HealthHistoryBucket}
use gslb.Store.History.{add_bucket, upsert_bucket}
use gslb.Health.Aggregator.{
  BucketKey, BucketData, Buckets, same_key, empty_bucket, count_probe, mark_selected, to_history,
}
use gslb.Health.Aggregator.Flush.{history_key}

-- The probes with a result that a bucket counts.
abbrev pub count_of : Bool → HealthHistoryBucket → ℕ
count_of true b = to_ℕ b.success_count
count_of false b = to_ℕ b.failure_count

abbrev pub in_table : Bool → BucketKey → List HealthHistoryBucket → ℕ
in_table p key [] = 0
in_table p key (row ∷ rest) =
    (if same_key (history_key row) key then count_of p row else 0) + in_table p key rest

-- No count of the rows is negative.
abbrev pub is_counted : HealthHistoryBucket → Bool
is_counted b = leb_ℤ (pos 0) b.success_count && leb_ℤ (pos 0) b.failure_count

unfoldable pub all_counted : List HealthHistoryBucket → Bool
all_counted [] = true
all_counted (row ∷ rest) = is_counted row && all_counted rest

abbrev pub fits : ℕ → ℤ → Bool
fits n count = leb_ℤ (pos 0) count && leb_ℤ count (pos n)

-- The counts in memory are at most a number.
unfoldable pub is_bounded : ℕ → Buckets → Bool
is_bounded n [] = true
is_bounded n ((k, b) ∷ rest) = fits n b.success_count && fits n b.failure_count && is_bounded n rest

to_ℕ-add :
    (a b : ℤ)
    → leb_ℤ (pos 0) a ≡ true
    → leb_ℤ (pos 0) b ≡ true
    → (to_ℕ (a +ℤ b) ≡ to_ℕ a + to_ℕ b) × (leb_ℤ (pos 0) (a +ℤ b) ≡ true)
to_ℕ-add (pos a) (pos b) h k = (refl, ground arith)
to_ℕ-add (pos a) (negsuc b) h k = cc
to_ℕ-add (negsuc a) b h k = cc

count_of-add_bucket :
    (p : Bool) (row b : HealthHistoryBucket)
    → is_counted row ≡ true
    → is_counted b ≡ true
    → (count_of p (add_bucket row b) ≡ count_of p row + count_of p b)
      × (is_counted (add_bucket row b) ≡ true)
count_of-add_bucket true row b h k = ground (
  arith,
  h,
  k,
  to_ℕ-add row.success_count b.success_count,
  to_ℕ-add row.failure_count b.failure_count,
)
count_of-add_bucket false row b h k = ground (
  arith,
  h,
  k,
  to_ℕ-add row.success_count b.success_count,
  to_ℕ-add row.failure_count b.failure_count,
)

pub in_table-upsert_bucket :
    (p : Bool) (key : BucketKey) (b : HealthHistoryBucket) (rows : List HealthHistoryBucket)
    → all_counted rows ≡ true
    → is_counted b ≡ true
    → (in_table p key (upsert_bucket b rows)
        ≡ in_table p key rows + (if same_key (history_key b) key then count_of p b else 0))
      × (all_counted (upsert_bucket b rows) ≡ true)
unfolding upsert_bucket all_counted
in_table-upsert_bucket p key b [] h k = (omega arith, ground (arith, k))
in_table-upsert_bucket p key b (row ∷ rest) h k = ground (
  arith,
  h,
  k,
  count_of-add_bucket p row b,
  in_table-upsert_bucket p key b rest,
  eq_iff row.backend_id b.backend_id,
  eq_iff row.backend_id key.backend_id,
  eq_iff b.backend_id key.backend_id,
)

abbrev pub same_result : Bool → Bool → Bool
same_result true b = b
same_result false b = not b

pub inc_int-fits :
    (n : ℕ) (count : ℤ)
    → fits n count ≡ true
    → n < max_int
    → (to_ℕ (inc_int count) ≡ to_ℕ count + 1)
      × (fits (suc n) (inc_int count) ≡ true)
      × (fits (suc n) count ≡ true)
inc_int-fits n (pos a) h b = ground (arith, h, b)
inc_int-fits n (negsuc a) h b = cc

pub count_probe-fits :
    (p passed : Bool) (n : ℕ) (k : BucketKey) (d : BucketData)
    → fits n d.success_count ≡ true
    → fits n d.failure_count ≡ true
    → n < max_int
    → (count_of p (to_history k (count_probe passed d))
        ≡ count_of p (to_history k d) + (if same_result p passed then 1 else 0))
      × (fits (suc n) (count_probe passed d).success_count ≡ true)
      × (fits (suc n) (count_probe passed d).failure_count ≡ true)
count_probe-fits true true n k d s f b =
    ground (arith, inc_int-fits n d.success_count s b, inc_int-fits n d.failure_count f b)
count_probe-fits true false n k d s f b =
    ground (arith, inc_int-fits n d.success_count s b, inc_int-fits n d.failure_count f b)
count_probe-fits false true n k d s f b =
    ground (arith, inc_int-fits n d.success_count s b, inc_int-fits n d.failure_count f b)
count_probe-fits false false n k d s f b =
    ground (arith, inc_int-fits n d.success_count s b, inc_int-fits n d.failure_count f b)

pub count_of-empty : (p : Bool) (k : BucketKey) → count_of p (to_history k empty_bucket) ≡ 0
count_of-empty true k = refl
count_of-empty false k = refl

pub count_of-mark_selected :
    (p : Bool) (k : BucketKey) (d : BucketData)
    → count_of p (to_history k (mark_selected d)) ≡ count_of p (to_history k d)
count_of-mark_selected true k d = refl
count_of-mark_selected false k d = refl
