-- ===== src/Health/Aggregator/Recorded.antt =====
-- internal/health/aggregator.go over internal/store/health_history.go: no probe is lost.
use gslb.Prelude.{
  ℕ, ◌+◌, ◌≤◌, ◌<◌, suc, max_int, Bool, true, not, ◌≡◌, refl, sym, ap, List, [], ◌∷◌, eq_iff,
  filter_by, length, if◌then◌else◌, arith,
}
use mathlib.Core.Path.{subst}
use gslb.Types.{HealthHistoryBucket}
use gslb.Store.Sql.{Database, attempt, calm}
use gslb.Store.Tables.{Tables}
use gslb.Store.History.{
  upsert_bucket, upsert_bucket_row, upsert_health_history_bucket, history_store,
}
use gslb.Health.Aggregator.{
  BucketKey, BucketData, Buckets, Event, probe, selection, tick, context_done, same_key,
  empty_bucket, new_aggregator, bucket_floor, at_bucket, count_probe, mark_selected, record_probe,
  record_selection, to_history, is_current, write_buckets, flush, run,
}
use gslb.Health.Aggregator.Buckets.{key_at}
use gslb.Health.Aggregator.Flush.{in_memory, in_memory-split}
use gslb.Health.Aggregator.Counts.{
  count_of, in_table, is_counted, all_counted, is_bounded, same_result, inc_int-fits,
  count_probe-fits, count_of-empty, count_of-mark_selected, in_table-upsert_bucket,
}

-- The probes of the bucket with a key that ended with a result, up to the end of the context.
unfoldable pub probes_of : Bool → BucketKey → List Event → ℕ
probes_of p key [] = 0
probes_of p key (probe now id passed ∷ rest) =
    (if same_key (key_at now id) key then (if same_result p passed then 1 else 0) else 0)
    + probes_of p key rest
probes_of p key (selection now id ∷ rest) = probes_of p key rest
probes_of p key (tick now ∷ rest) = probes_of p key rest
probes_of p key (context_done now ∷ rest) = 0

module _ (p : Bool) (key : BucketKey) where
  abbrev stored : Database Tables → ℕ
  stored db = in_table p key db.rows.history

  abbrev held : Buckets → ℕ
  held l = in_memory (count_of p) key l

  stored-write_buckets :
      (now n : ℕ) (l : Buckets) (t : Tables)
      → all_counted t.history ≡ true
      → is_bounded n l ≡ true
      → (stored (write_buckets (history_store now) l (record { rows = t; faults = [] }))
          ≡ in_table p key t.history + held l)
        × (all_counted
              (write_buckets (history_store now) l (record { rows = t; faults = [] })).rows.history
            ≡ true)
        × ((write_buckets (history_store now) l (record { rows = t; faults = [] })).faults ≡ [])
  unfolding write_buckets is_bounded upsert_health_history_bucket attempt upsert_bucket_row
  stored-write_buckets now n [] t h b = (omega arith, h, refl)
  stored-write_buckets now n ((k, d) ∷ rest) t h b =
      let row : HealthHistoryBucket = to_history k d in
      let counted : is_counted row ≡ true = ground (arith, b) in
      let more : is_bounded n rest ≡ true = ground (arith, b) in
      let one = in_table-upsert_bucket p key row t.history h counted in
      let all =
        stored-write_buckets now n rest (record t { history = upsert_bucket row t.history }) one.1
          more in
      (omega (arith, one.0, all.0), all.1, all.2)

  is_bounded-filter_by :
      (n : ℕ) (q : BucketKey × BucketData → Bool) (l : Buckets)
      → is_bounded n l ≡ true
      → is_bounded n (filter_by q l) ≡ true
  unfolding is_bounded filter_by
  is_bounded-filter_by n q [] h = refl
  is_bounded-filter_by n q ((k, d) ∷ rest) h = ground (arith, h, is_bounded-filter_by n q rest)

  is_bounded-more : (n k : ℕ) (l : Buckets) → n ≤ k → is_bounded n l ≡ true → is_bounded k l ≡ true
  unfolding is_bounded
  is_bounded-more n k [] le h = refl
  is_bounded-more n k ((j, d) ∷ rest) le h = ground (arith, le, h, is_bounded-more n k rest le)

  held-at_bucket :
      (k : BucketKey) (passed : Bool) (n : ℕ) (l : Buckets)
      → is_bounded n l ≡ true
      → n < max_int
      → (held (at_bucket k (count_probe passed) l)
          ≡ held l + (if same_key k key then (if same_result p passed then 1 else 0) else 0))
        × (is_bounded (suc n) (at_bucket k (count_probe passed) l) ≡ true)
  unfolding at_bucket is_bounded
  held-at_bucket k passed n [] h b = ground (
    arith,
    count_of-empty p k,
    count_probe-fits p passed n k empty_bucket (ground arith) (ground arith) b,
  )
  held-at_bucket k passed n ((j, d) ∷ rest) h b = ground (
    arith,
    h,
    b,
    count_probe-fits p passed n j d,
    held-at_bucket k passed n rest,
    is_bounded-more n (suc n) rest (omega arith),
    inc_int-fits n d.success_count,
    inc_int-fits n d.failure_count,
    eq_iff j.backend_id k.backend_id,
    eq_iff j.backend_id key.backend_id,
    eq_iff k.backend_id key.backend_id,
  )

  held-mark_selected :
      (k : BucketKey) (n : ℕ) (l : Buckets)
      → is_bounded n l ≡ true
      → (held (at_bucket k mark_selected l) ≡ held l)
        × (is_bounded n (at_bucket k mark_selected l) ≡ true)
  unfolding at_bucket is_bounded
  held-mark_selected k n [] h =
      (ground (arith, count_of-empty p k, count_of-mark_selected p k empty_bucket), ground arith)
  held-mark_selected k n ((j, d) ∷ rest) h = ground (
    arith,
    h,
    count_of-mark_selected p j d,
    held-mark_selected k n rest,
    eq_iff j.backend_id k.backend_id,
  )

  abbrev calm_tables : Tables → Database Tables
  calm_tables t = record { rows = t; faults = [] }

  held-flush :
      (c now n : ℕ) (l : Buckets) (t : Tables)
      → all_counted t.history ≡ true
      → is_bounded n l ≡ true
      → (held (flush (history_store c) now l (calm_tables t)).0
            + stored (flush (history_store c) now l (calm_tables t)).1
          ≡ held l + in_table p key t.history)
        × (is_bounded n (flush (history_store c) now l (calm_tables t)).0 ≡ true)
        × (all_counted (flush (history_store c) now l (calm_tables t)).1.rows.history ≡ true)
        × ((flush (history_store c) now l (calm_tables t)).1.faults ≡ [])
  unfolding flush
  held-flush c now n l t h b =
      let old : Buckets = filter_by (λ kb. not (is_current (bucket_floor now) kb)) l in
      let wrote =
        stored-write_buckets c n old t h
          (is_bounded-filter_by n (λ kb. not (is_current (bucket_floor now) kb)) l b) in
      (
        omega (arith, wrote.0, in_memory-split (count_of p) (is_current (bucket_floor now)) key l),
        is_bounded-filter_by n (is_current (bucket_floor now)) l b,
        wrote.1,
        wrote.2,
      )

  run-counts :
      (c : ℕ) (events : List Event) (n : ℕ) (l : Buckets) (t : Tables)
      → all_counted t.history ≡ true
      → is_bounded n l ≡ true
      → n + length events ≤ max_int
      → held (run (history_store c) events (l, calm_tables t)).0
          + stored (run (history_store c) events (l, calm_tables t)).1
        ≡ held l + in_table p key t.history + probes_of p key events
  unfolding run probes_of record_probe record_selection
  run-counts c [] n l t h b o = omega arith
  run-counts c (probe now id passed ∷ rest) n l t h b o =
      let after = held-at_bucket (key_at now id) passed n l b (omega (arith, o)) in
      omega (
        arith,
        after.0,
        run-counts c rest (suc n) (record_probe now id passed l) t h after.1 (omega (arith, o)),
      )
  run-counts c (selection now id ∷ rest) n l t h b o =
      let after = held-mark_selected (key_at now id) n l b in
      omega (
        arith,
        after.0,
        run-counts c rest n (record_selection now id l) t h after.1 (omega (arith, o)),
      )
  run-counts c (tick now ∷ rest) n l t h b o =
      let done = held-flush c now n l t h b in
      let after : Database Tables = (flush (history_store c) now l (calm_tables t)).1 in
      let same : after ≡ calm_tables after.rows =
        ap (λ f. record { rows = after.rows; faults = f }) done.3 in
      let kept : Buckets = (flush (history_store c) now l (calm_tables t)).0 in
      let counts : Buckets × Database Tables → ℕ =
        λ bw. held (run (history_store c) rest bw).0 + stored (run (history_store c) rest bw).1 in
      subst (λ w. counts (kept, w) ≡ held l + in_table p key t.history + probes_of p key rest)
        (sym same)
        (omega
          (arith, done.0, run-counts c rest n kept after.rows done.2 done.1 (omega (arith, o))))
  run-counts c (context_done now ∷ rest) n l t h b o = omega (arith, (held-flush c now n l t h b).0)

-- An aggregator that starts empty, over any sequence of probes, selections and ticks up to the end of the
-- context, with a table without negative counts that refuses nothing: for every backend, five minutes and
-- result, the count in memory and that in the table add up to what the table held and the number of the
-- probes, so that none is lost or counted twice. There are fewer than 2^63 events.
pub run-recorded :
    (p : Bool) (key : BucketKey) (now : ℕ) (events : List Event) (db : Database Tables)
    → all_counted db.rows.history ≡ true
    → length events ≤ max_int
    → in_memory (count_of p) key (run (history_store now) events (new_aggregator, calm db)).0
        + in_table p key (run (history_store now) events (new_aggregator, calm db)).1.rows.history
      ≡ in_table p key db.rows.history + probes_of p key events
unfolding is_bounded
run-recorded p key now events db counted few =
    omega (arith, run-counts p key now events 0 [] db.rows counted refl (omega (arith, few)))
