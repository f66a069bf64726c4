-- ===== src/Handlers/History/Ranges.antt =====
-- internal/handlers/history.go over internal/store/health_history.go: the buckets of an answer.
use gslb.Prelude.{
  ℕ, ◌-◌, ◌≤◌, String, Bool, true, false, ◌&&◌, ◌||◌, ◌≡◌, refl, ◌∙◌, some, List, [], ◌∷◌,
  filter_by, str_eq, Option-cases, inl, inr, arith,
}
use gslb.Types.{Backend, HealthHistoryBucket}
use gslb.Store.Sql.{statement, calm}
use gslb.Store.Rows.{exists_by, find_by, has_key}
use gslb.Store.Rows.Reads.{find_by-exists_by}
use gslb.Store.Backends
use gslb.Store.History.{is_since, insert_sorted, sort_buckets, get_health_history}
use gslb.Handlers.Api.{Caller}
use gslb.Handlers.Site.{Server, Site, site_handlers}
use gslb.Handlers.History.{
  FloatLib, BackendHistoryResponse, hours, is_in, since_requested, calculate_uptime,
  get_backend_history,
}

abbrev Rows : Type 0
Rows = List HealthHistoryBucket

unfoldable pub all_since : ℕ → Rows → Bool
all_since n [] = true
all_since n (row ∷ rest) = is_in n row && all_since n rest

-- The buckets are in the order of their starts.
unfoldable pub is_ordered : Rows → Bool
is_ordered [] = true
is_ordered (row ∷ rest) = all_since row.bucket_start rest && is_ordered rest

all_since-earlier :
    (m n : ℕ) (rows : Rows) → m ≤ n → all_since n rows ≡ true → all_since m rows ≡ true
unfolding all_since
all_since-earlier m n [] le h = refl
all_since-earlier m n (row ∷ rest) le h = ground (arith, le, h, all_since-earlier m n rest le)

all_since-insert_sorted :
    (n : ℕ) (b : HealthHistoryBucket) (rows : Rows)
    → all_since n (insert_sorted b rows) ≡ (is_in n b && all_since n rows)
unfolding all_since insert_sorted
all_since-insert_sorted n b [] = refl
all_since-insert_sorted n b (row ∷ rest) = ground (arith, all_since-insert_sorted n b rest)

is_ordered-insert_sorted :
    (b : HealthHistoryBucket) (rows : Rows)
    → is_ordered rows ≡ true
    → is_ordered (insert_sorted b rows) ≡ true
unfolding is_ordered insert_sorted all_since
is_ordered-insert_sorted b [] h = refl
is_ordered-insert_sorted b (row ∷ rest) h = ground (
  arith,
  h,
  is_ordered-insert_sorted b rest,
  all_since-insert_sorted row.bucket_start b rest,
  all_since-earlier b.bucket_start row.bucket_start rest,
)

is_ordered-sort_buckets : (rows : Rows) → is_ordered (sort_buckets rows) ≡ true
unfolding sort_buckets is_ordered
is_ordered-sort_buckets [] = refl
is_ordered-sort_buckets (row ∷ rest) =
    is_ordered-insert_sorted row (sort_buckets rest) (is_ordered-sort_buckets rest)

all_since-filter_by :
    (n : ℕ) (p : HealthHistoryBucket → Bool) (rows : Rows)
    → all_since n rows ≡ true
    → all_since n (filter_by p rows) ≡ true
unfolding all_since filter_by
all_since-filter_by n p [] h = refl
all_since-filter_by n p (row ∷ rest) h = ground (arith, h, all_since-filter_by n p rest)

is_ordered-filter_by :
    (p : HealthHistoryBucket → Bool) (rows : Rows)
    → is_ordered rows ≡ true
    → is_ordered (filter_by p rows) ≡ true
unfolding is_ordered filter_by
is_ordered-filter_by p [] h = refl
is_ordered-filter_by p (row ∷ rest) h =
    ground (arith, h, is_ordered-filter_by p rest, all_since-filter_by row.bucket_start p rest)

exists_by-insert_sorted :
    (p : HealthHistoryBucket → Bool) (b : HealthHistoryBucket) (rows : Rows)
    → exists_by p (insert_sorted b rows) ≡ (p b || exists_by p rows)
unfolding exists_by insert_sorted
exists_by-insert_sorted p b [] = refl
exists_by-insert_sorted p b (row ∷ rest) = ground (arith, exists_by-insert_sorted p b rest)

exists_by-sort_buckets :
    (p : HealthHistoryBucket → Bool) (rows : Rows)
    → exists_by p (sort_buckets rows) ≡ exists_by p rows
unfolding exists_by sort_buckets
exists_by-sort_buckets p [] = refl
exists_by-sort_buckets p (row ∷ rest) =
    ground (arith, exists_by-insert_sorted p row (sort_buckets rest), exists_by-sort_buckets p rest)

exists_by-filter_by :
    (p q : HealthHistoryBucket → Bool) (rows : Rows)
    → exists_by p (filter_by q rows) ≡ exists_by (λ row. q row && p row) rows
unfolding exists_by filter_by
exists_by-filter_by p q [] = refl
exists_by-filter_by p q (row ∷ rest) = ground (arith, exists_by-filter_by p q rest)

-- No range is longer than the thirty days that are read.
since_requested-within : (range : String) (now : ℕ) → now - hours 720 ≤ since_requested range now
since_requested-within range now = ground arith

both_bounds :
    (p : HealthHistoryBucket → Bool) (id : String) (m n : ℕ) (rows : Rows)
    → m ≤ n
    → exists_by (λ row. is_since id m row && (is_in n row && p row)) rows
      ≡ exists_by (λ row. is_since id n row && p row) rows
unfolding exists_by
both_bounds p id m n [] le = refl
both_bounds p id m n (row ∷ rest) le = ground (arith, le, both_bounds p id m n rest le)

in_range :
    (p : HealthHistoryBucket → Bool) (id : String) (m n : ℕ) (rows : Rows)
    → m ≤ n
    → exists_by p (filter_by (is_in n) (sort_buckets (filter_by (is_since id m) rows)))
      ≡ exists_by (λ row. is_since id n row && p row) rows
in_range p id m n rows le =
    exists_by-filter_by p (is_in n) (sort_buckets (filter_by (is_since id m) rows))
    ∙ exists_by-sort_buckets (λ row. is_in n row && p row) (filter_by (is_since id m) rows)
    ∙ exists_by-filter_by (λ row. is_in n row && p row) (is_since id m) rows
    ∙ both_bounds p id m n rows le

-- The history of a backend that exists, where the database refuses no query: the answer is 200, its buckets
-- are in the order of their starts, and whatever one asks of a bucket, one of the answer has it exactly when
-- one of the backend in the table has it that starts in the range of the query.
pub get_backend_history-exact :
    (lib : FloatLib) (server : Server) (now : ℕ) (caller : Caller) (range : String) (w : Site)
    (p : HealthHistoryBucket → Bool)
    → str_eq caller.id "" ≡ false
    → exists_by (has_key Backend.id caller.id) w.db.rows.backends ≡ true
    → let reply =
        (get_backend_history lib
          (site_handlers server)
          now
          caller
          range
          (record w { db = calm w.db })).0 in
      (answer : BackendHistoryResponse lib.Float) × (reply.status ≡ 200)
      × (reply.body ≡ some answer)
      × (is_ordered answer.buckets ≡ true)
      × (exists_by p answer.buckets
          ≡ exists_by
              (λ row. is_since caller.id (since_requested range now) row && p row)
              w.db.rows.history)
unfolding get_backend_history Backends.get_backend get_health_history statement
get_backend_history-exact lib server now caller range w p id there =
    let all : Rows =
      sort_buckets (filter_by (is_since caller.id (now - hours 720)) w.db.rows.history) in
    let answer : BackendHistoryResponse lib.Float = record {
      buckets = filter_by (is_in (since_requested range now)) all;
      uptime_24h = calculate_uptime lib (filter_by (is_in (now - hours 24)) all);
      uptime_7d = calculate_uptime lib (filter_by (is_in (now - hours 168)) all);
      uptime_30d = calculate_uptime lib all;
    } in
    elim (Option-cases (find_by (has_key Backend.id caller.id) w.db.rows.backends)) [
      | inl missing ↦ absurd (
          ground (
            arith,
            there,
            find_by-exists_by (has_key Backend.id caller.id) w.db.rows.backends missing,
          ))
      | inr (backend, found) ↦ (
        answer,
        ground (arith, id, found),
        ground (arith, id, found),
        is_ordered-filter_by (is_in (since_requested range now)) all (
            is_ordered-sort_buckets
              (filter_by (is_since caller.id (now - hours 720)) w.db.rows.history)),
        in_range p caller.id (now - hours 720) (since_requested range now) w.db.rows.history
            (since_requested-within range now),
      )
    ]
