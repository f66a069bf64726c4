-- ===== src/Store/History/Keys.antt =====
-- internal/store/health_history.go: the unique key of the history through the statements.
use gslb.Prelude.{Bool, true, false, ◌||◌, ◌≡◌, refl, List, [], ◌∷◌, eq_iff, filter_by, arith}
use gslb.Types.{HealthHistoryBucket}
use gslb.Store.Rows.{exists_by}
use gslb.Store.Tables.{same_bucket, distinct_buckets}
use gslb.Store.History.{upsert_bucket}

exists_by-upsert_bucket :
    (b bucket : HealthHistoryBucket) (rows : List HealthHistoryBucket)
    → exists_by (same_bucket b) (upsert_bucket bucket rows)
      ≡ (same_bucket b bucket || exists_by (same_bucket b) rows)
unfolding exists_by upsert_bucket
exists_by-upsert_bucket b bucket [] = refl
exists_by-upsert_bucket b bucket (row ∷ rest) = ground (
  arith,
  exists_by-upsert_bucket b bucket rest,
  eq_iff row.backend_id bucket.backend_id,
  eq_iff row.backend_id b.backend_id,
  eq_iff bucket.backend_id b.backend_id,
)

pub distinct_buckets-upsert_bucket :
    (bucket : HealthHistoryBucket) (rows : List HealthHistoryBucket)
    → distinct_buckets rows ≡ true
    → distinct_buckets (upsert_bucket bucket rows) ≡ true
unfolding distinct_buckets upsert_bucket exists_by
distinct_buckets-upsert_bucket bucket [] h = refl
distinct_buckets-upsert_bucket bucket (row ∷ rest) h = ground (
  arith,
  h,
  distinct_buckets-upsert_bucket bucket rest,
  exists_by-upsert_bucket row bucket rest,
  eq_iff row.backend_id bucket.backend_id,
  eq_iff bucket.backend_id row.backend_id,
)

exists_by-filter_by :
    (b : HealthHistoryBucket) (p : HealthHistoryBucket → Bool) (rows : List HealthHistoryBucket)
    → exists_by (same_bucket b) rows ≡ false
    → exists_by (same_bucket b) (filter_by p rows) ≡ false
unfolding exists_by filter_by
exists_by-filter_by b p [] h = refl
exists_by-filter_by b p (row ∷ rest) h = ground (arith, h, exists_by-filter_by b p rest)

pub distinct_buckets-filter_by :
    (p : HealthHistoryBucket → Bool) (rows : List HealthHistoryBucket)
    → distinct_buckets rows ≡ true
    → distinct_buckets (filter_by p rows) ≡ true
unfolding distinct_buckets filter_by
distinct_buckets-filter_by p [] h = refl
distinct_buckets-filter_by p (row ∷ rest) h =
    ground (arith, h, distinct_buckets-filter_by p rest, exists_by-filter_by row p rest)
