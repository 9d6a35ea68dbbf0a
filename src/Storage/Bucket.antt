-- ===== src/Storage/Bucket.antt =====
-- Bucket.ts: the counters of a bucket of stored messages. Time is in milliseconds, and a share of a
-- limit is compared without rounding.
use logstore_node.Base.{
  ℕ, suc, ◌+◌, ◌*◌, ◌-◌, ℤ, pos, negsuc, zero, ◌≡◌, Bool, true, false, ◌||◌, List, [], ◌∷◌, leb,
  length, ◌==◌, if◌then◌else◌, Text, arith, is_negative,
}

pub record Bucket : Type 0 where
  pub id : Text
  pub stream_id : Text
  pub partition : ℤ
  pub size : ℕ
  pub records : ℕ
  pub date_create : ℕ
  pub max_size : ℕ
  pub max_record_count : ℕ
  pub keep_alive_seconds : ℕ
  pub ttl : ℕ
  pub stored : Bool

-- The argument that the constructor rejects.
pub data BadBucket : Type 0 where
  empty_id empty_stream_id negative_partition negative_size negative_records : BadBucket
  no_max_size no_max_record_count no_keep_alive_seconds : BadBucket

pub data BucketResult : Type 0 where
  built : Bucket → BucketResult
  rejected : BadBucket → BucketResult

-- `x <= 0`, and the value of a number that is not negative.
abbrev is_at_most_zero : ℤ → Bool
is_at_most_zero (pos zero) = true
is_at_most_zero (pos (suc n)) = false
is_at_most_zero (negsuc n) = true

abbrev pub value : ℤ → ℕ
value (pos n) = n
value (negsuc n) = 0

unfoldable pub update_ttl : Bucket → ℕ → Bucket
update_ttl b now = record b { ttl = now + b.keep_alive_seconds * 1000 }

unfoldable pub new_bucket :
    Text
    → Text
    → (partition size records : ℤ) → ℕ
    → (max_size max_records keep_alive : ℤ) → ℕ
    → BucketResult
unfolding update_ttl
new_bucket id stream_id partition size records date_create max_size max_records keep_alive now =
    if length id == 0
    then rejected empty_id
    else if length stream_id == 0
    then rejected empty_stream_id
    else if is_negative partition
    then rejected negative_partition
    else if is_negative size
    then rejected negative_size
    else if is_negative records
    then rejected negative_records
    else if is_at_most_zero max_size
    then rejected no_max_size
    else if is_at_most_zero max_records
    then rejected no_max_record_count
    else if is_at_most_zero keep_alive
    then rejected no_keep_alive_seconds
    else built (
        update_ttl
          (record {
            id = id;
            stream_id = stream_id;
            partition = partition;
            size = value size;
            records = value records;
            date_create = date_create;
            max_size = value max_size;
            max_record_count = value max_records;
            keep_alive_seconds = value keep_alive;
            ttl = now;
            stored = false;
          })
          now)

unfoldable pub set_stored : Bucket → Bucket
set_stored b = record b { stored = true }

-- A deduction above 100 leaves a limit that every bucket reaches, and so does 0.
unfoldable pub check_size : Bucket → ℕ → Bool
check_size b percent_deduction =
    leb (b.max_size * (100 - percent_deduction)) (100 * b.size)
    || leb (b.max_record_count * (100 - percent_deduction)) (100 * b.records)

unfoldable pub is_almost_full : Bucket → ℕ → Bool
unfolding check_size
is_almost_full b percent_deduction = check_size b percent_deduction

unfoldable pub increment_bucket : Bucket → ℕ → ℕ → Bucket
unfolding update_ttl
increment_bucket b size now =
    update_ttl (record b { size = b.size + size; records = b.records + 1; stored = false }) now

unfoldable pub is_alive : Bucket → ℕ → Bool
is_alive b now = leb now b.ttl

-- The increments for messages of given sizes at given times.
unfoldable pub increment_all : Bucket → List (ℕ × ℕ) → Bucket
unfolding increment_bucket
increment_all b [] = b
increment_all b ((size, now) ∷ xs) = increment_all (increment_bucket b size now) xs

unfoldable pub total_size : List (ℕ × ℕ) → ℕ
total_size [] = 0
total_size ((size, now) ∷ xs) = size + total_size xs

-- After any messages the counters are their number and the sum of their sizes above those before,
-- and a bucket that was almost full is so still, for every share.
pub increment_all-counts :
    (b : Bucket) (xs : List (ℕ × ℕ)) (percent_deduction : ℕ)
    → ((increment_all b xs).size ≡ b.size + total_size xs)
      × ((increment_all b xs).records ≡ b.records + length xs)
      × (is_almost_full b percent_deduction ≡ true
          → is_almost_full (increment_all b xs) percent_deduction ≡ true)
unfolding increment_all increment_bucket update_ttl total_size is_almost_full check_size
increment_all-counts b [] p = (omega arith, omega arith, λ h. h)
increment_all-counts b ((size, now) ∷ xs) p =
    let (s, r, f) = increment_all-counts (increment_bucket b size now) xs p in
    (omega (arith, s), omega (arith, r), λ h. f (ground (arith, h)))
