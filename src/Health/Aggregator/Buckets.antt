-- ===== src/Health/Aggregator/Buckets.antt =====
-- internal/health/aggregator.go: what the buckets hold after a probe or a selection.
use gslb.Prelude.{
  ℕ, String, ◌≡◌, Bool, true, Option, some, none, [], ◌∷◌, eq_iff, if◌then◌else◌, arith,
}
use gslb.Health.Aggregator.{
  BucketKey, BucketData, Buckets, same_key, empty_bucket, bucket_floor, at_bucket, count_probe,
  record_probe, record_selection,
}

-- The bucket of a key.
abbrev pub find_bucket : BucketKey → Buckets → Option BucketData
find_bucket key [] = none
find_bucket key ((k, b) ∷ rest) = if same_key k key then some b else find_bucket key rest

abbrev pub or_empty : Option BucketData → BucketData
or_empty none = empty_bucket
or_empty (some b) = b

-- The key of the bucket that counts an event of a backend at a time.
abbrev pub key_at : ℕ → String → BucketKey
key_at now id = record { backend_id = id; bucket_start = bucket_floor now }

find_bucket-at_bucket :
    (key k : BucketKey) (f : BucketData → BucketData) (l : Buckets)
    → find_bucket k (at_bucket key f l)
      ≡ (if same_key key k then some (f (or_empty (find_bucket key l))) else find_bucket k l)
unfolding at_bucket
find_bucket-at_bucket key k f [] = ground arith
find_bucket-at_bucket key k f ((j, b) ∷ rest) = ground (
  arith,
  find_bucket-at_bucket key k f rest,
  eq_iff j.backend_id key.backend_id,
  eq_iff j.backend_id k.backend_id,
  eq_iff key.backend_id k.backend_id,
)

-- A probe counts in the bucket of its backend and its five minutes, which is created where it is
-- missing, and in no other; a selection marks that bucket and leaves its counts.
pub find_bucket-record :
    (now : ℕ) (id : String) (passed : Bool) (k : BucketKey) (l : Buckets)
    → (find_bucket k (record_probe now id passed l) ≡ (
        if same_key (key_at now id) k
        then some (count_probe passed (or_empty (find_bucket (key_at now id) l)))
        else find_bucket k l))
      × (find_bucket k (record_selection now id l) ≡ (
          if same_key (key_at now id) k
          then some (record (or_empty (find_bucket (key_at now id) l)) { selected = true })
          else find_bucket k l))
unfolding record_probe record_selection
find_bucket-record now id passed k l = (
  find_bucket-at_bucket (key_at now id) k (count_probe passed) l,
  find_bucket-at_bucket (key_at now id) k (λ b. record b { selected = true }) l,
)
