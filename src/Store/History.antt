-- ===== src/Store/History.antt =====
-- internal/store/health_history.go: the table `health_history`, whose unique key is a backend and the
-- start of a bucket. Its number and time of creation are left out. `now` is what `time.Now` returns.
-- The sums are SQLite's, of which the model leaves out the 64-bit bound.
pub mod Keys
use gslb.Prelude.{
  ℕ, ◌-◌, String, Bool, ◌&&◌, not, List, [], ◌∷◌, length, filter_by, ◌+ℤ◌, max_ℤ, ltb, leb, ◌==◌,
  str_eq, if◌then◌else◌,
}
use gslb.Types.{HealthHistoryBucket}
use gslb.Result.{ok, Exec}
use gslb.Store.{HealthHistoryStore, Done}
use gslb.Store.Sql.{Database, Ran, done, statement, attempt, in_context}
use gslb.Store.Tables.{Tables}

abbrev pub is_bucket : String → ℕ → HealthHistoryBucket → Bool
is_bucket backend_id start row = str_eq row.backend_id backend_id && row.bucket_start == start

abbrev pub add_bucket : HealthHistoryBucket → HealthHistoryBucket → HealthHistoryBucket
add_bucket row bucket = record row {
  success_count = row.success_count +ℤ bucket.success_count;
  failure_count = row.failure_count +ℤ bucket.failure_count;
  selected = max_ℤ row.selected bucket.selected;
}

-- `INSERT ... ON CONFLICT(backend_id, bucket_start) DO UPDATE`
unfoldable pub upsert_bucket :
    HealthHistoryBucket → List HealthHistoryBucket → List HealthHistoryBucket
upsert_bucket bucket [] = bucket ∷ []
upsert_bucket bucket (row ∷ rest) =
    if is_bucket bucket.backend_id bucket.bucket_start row
    then add_bucket row bucket ∷ rest
    else row ∷ upsert_bucket bucket rest

-- `ORDER BY bucket_start ASC`
unfoldable pub insert_sorted :
    HealthHistoryBucket → List HealthHistoryBucket → List HealthHistoryBucket
insert_sorted bucket [] = bucket ∷ []
insert_sorted bucket (row ∷ rest) =
    if leb bucket.bucket_start row.bucket_start
    then bucket ∷ row ∷ rest
    else row ∷ insert_sorted bucket rest

unfoldable pub sort_buckets : List HealthHistoryBucket → List HealthHistoryBucket
sort_buckets [] = []
sort_buckets (row ∷ rest) = insert_sorted row (sort_buckets rest)

abbrev pub is_since : String → ℕ → HealthHistoryBucket → Bool
is_since backend_id since row = str_eq row.backend_id backend_id && leb since row.bucket_start

abbrev pub is_older : ℕ → HealthHistoryBucket → Bool
is_older cutoff row = ltb row.bucket_start cutoff

unfoldable pub upsert_bucket_row : HealthHistoryBucket → Tables → Ran Tables Done
upsert_bucket_row bucket t = done (ok tt) (record t { history = upsert_bucket bucket t.history })

unfoldable pub delete_old_rows : ℕ → Tables → Ran Tables ℕ
delete_old_rows cutoff t =
    done (ok (length (filter_by (is_older cutoff) t.history)))
      (record t { history = filter_by (λ row. not (is_older cutoff row)) t.history })

unfoldable pub upsert_health_history_bucket : HealthHistoryBucket → Exec (Database Tables) Done
upsert_health_history_bucket bucket =
    attempt (in_context "upsert health history bucket") (upsert_bucket_row bucket)

unfoldable pub get_health_history : String → ℕ → Exec (Database Tables) (List HealthHistoryBucket)
get_health_history backend_id since =
    statement "get health history"
      (λ t. (ok (sort_buckets (filter_by (is_since backend_id since) t.history)), t))

-- The cutoff is the time `now`, less the age.
unfoldable pub delete_old_health_history : ℕ → ℕ → Exec (Database Tables) ℕ
delete_old_health_history now older_than =
    attempt (in_context "delete old health history") (delete_old_rows (now - older_than))

abbrev pub history_store : ℕ → HealthHistoryStore (Database Tables)
history_store now = record {
  upsert_health_history_bucket = upsert_health_history_bucket;
  get_health_history = get_health_history;
  delete_old_health_history = delete_old_health_history now;
}
