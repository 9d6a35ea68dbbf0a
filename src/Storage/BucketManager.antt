-- ===== src/Storage/BucketManager.antt =====
-- BucketManager.ts: the buckets in memory, and for each part of a stream a heap of its buckets with
-- the latest first. A bucket is one object that both the map and a heap refer to: here the map
-- holds the bucket, and a heap holds entries with its id and its date, which never change.
pub mod Checks
pub mod Removal
pub mod Registered
pub mod Steps
pub mod Runs
pub mod Turns
pub mod Reachable
pub mod Search
pub mod Dropped
pub mod Created
use logstore_node.Base.{
  ℕ, zero, suc, ◌+◌, ◌≡◌, ℤ, pos, negsuc, Bool, true, false, ◌&&◌, not, Option, none, some, List,
  [], ◌∷◌, ◌++◌, filter, min, if◌then◌else◌, ◌*◌, leb, ltb, ◌==◌, Text, ◌===◌, text_eq,
  text_number_eq, All, SameElements, map,
}
use logstore_node.Base.Collections.{get, put, delete_key, has_key}
use logstore_node.Storage.Bucket
use logstore_node.Storage.Bucket.{
  Bucket, new_bucket, BucketResult, built, rejected, BadBucket, is_almost_full, is_alive,
  set_stored, value,
}

pub record Entry : Type 0 where
  pub id : Text
  pub date_create : ℕ

-- The first entry, and all that an entry stands before.
abbrev pub first {ℓ} : {A : Type ℓ} → List A → Option A
first [] = none
first (x ∷ xs) = some x

abbrev pub IsLatestFirst : List Entry → Type 0
IsLatestFirst [] = Unit
IsLatestFirst (e ∷ es) = All (λ (x : Entry). leb x.date_create e.date_create ≡ true) es

-- The heaps of the npm package `heap` with the comparison of `instantiateNewHeap`: an array of what
-- was pushed, whose first element none is before.
pub record BucketHeaps : Type 1 where
  pub Heap : Type 0
  pub empty : Heap
  pub push : Heap → Entry → Heap
  pub peek : Heap → Option Entry
  pub to_array : Heap → List Entry
  pub to_array-empty : to_array empty ≡ []
  pub to_array-push : (h : Heap) (e : Entry) → SameElements (to_array (push h e)) (e ∷ to_array h)
  pub peek-to_array : (h : Heap) → peek h ≡ first (to_array h)
  pub to_array-IsLatestFirst : (h : Heap) → IsLatestFirst (to_array h)

-- `toKey`: a partition is written without a dash, so a key tells its stream and its partition.
abbrev pub StreamPartKey : Type 0
StreamPartKey = Text × ℕ

pub record Options : Type 0 where
  pub max_bucket_size : ℕ
  pub max_bucket_records : ℕ
  pub bucket_keep_alive_seconds : ℕ

abbrev pub default_options : Options
default_options = record {
  max_bucket_size = 1024 * 1024 * 100;
  max_bucket_records = 500 * 1000;
  bucket_keep_alive_seconds = 60;
}

-- The share of a limit that `isAlmostFull` leaves by default.
abbrev pub percent_deduction : ℕ
percent_deduction = 30

abbrev pub entry_of : Bucket → Entry
entry_of b = record { id = b.id; date_create = b.date_create }

-- The key of a bucket; no bucket has a negative partition.
abbrev pub key_of : Bucket → StreamPartKey
key_of b = (b.stream_id, value b.partition)

module _ (heaps : BucketHeaps) where
  open heaps use {Heap, empty, push, peek, to_array}

  pub record StreamPart : Type 0 where
    pub stream_id : Text
    pub partition : ℕ
    pub buckets : Heap
    pub min_timestamp : Option ℕ

  pub record State : Type 0 where
    pub opts : Options
    pub stream_parts : List (StreamPartKey × StreamPart)
    pub buckets : List (Text × Bucket)

  unfoldable pub new_manager : Options → State
  new_manager opts = record { opts = opts; stream_parts = []; buckets = [] }

  unfoldable pub get_latest_in_memory_bucket : State → StreamPartKey → Option Entry
  get_latest_in_memory_bucket s key = elim (get s.stream_parts key) [
    | none ↦ none
    | some stream ↦ peek stream.buckets
  ]

  -- An entry's bucket stands in the map.
  unfoldable pub is_entry_almost_full : State → Entry → Bool
  is_entry_almost_full s e = elim (get s.buckets e.id) [
    | none ↦ false
    | some b ↦ is_almost_full b percent_deduction
  ]

  -- The first of the other buckets that is not after the timestamp.
  unfoldable pub first_not_after : List Entry → ℕ → Option Text
  first_not_after [] timestamp = none
  first_not_after (e ∷ es) timestamp =
      if leb e.date_create timestamp then some e.id else first_not_after es timestamp

  abbrev pub tail : List Entry → List Entry
  tail [] = []
  tail (e ∷ es) = es

  -- The search for the bucket of a timestamp, given the latest bucket and all of them.
  unfoldable pub find_among : State → Option Entry → List Entry → ℕ → Option Text
  unfolding is_entry_almost_full first_not_after
  find_among s none current_buckets timestamp = none
  find_among s (some latest) current_buckets timestamp =
      if not (is_entry_almost_full s latest) && leb latest.date_create timestamp
      then some latest.id
      else if ltb timestamp latest.date_create
      then first_not_after (tail current_buckets) timestamp
      else none

  unfoldable pub find_bucket_id : State → StreamPartKey → ℕ → Option Text
  unfolding find_among
  find_bucket_id s key timestamp = elim (get s.stream_parts key) [
    | none ↦ none
    | some stream ↦ find_among s (peek stream.buckets) (to_array stream.buckets) timestamp
  ]

  abbrev pub min_of : Option ℕ → ℕ → ℕ
  min_of none timestamp = timestamp
  min_of (some m) timestamp = min m timestamp

  abbrev pub with_part : State → StreamPartKey → StreamPart → State
  with_part s key stream = record s { stream_parts = put s.stream_parts key stream }

  -- A message waits for a bucket.
  abbrev pub waiting : StreamPart → ℕ → StreamPart
  waiting stream timestamp = record stream {
    min_timestamp = some (min_of stream.min_timestamp timestamp);
  }

  abbrev pub new_part : Text → ℕ → ℕ → StreamPart
  new_part stream_id partition timestamp = record {
    stream_id = stream_id;
    partition = partition;
    buckets = empty;
    min_timestamp = some timestamp;
  }

  unfoldable pub get_bucket_id : State → Text → ℕ → ℕ → State × Option Text
  unfolding find_bucket_id
  get_bucket_id s stream_id partition timestamp =
      let key : StreamPartKey = (stream_id, partition) in
      elim (get s.stream_parts key) [
        | none ↦ (with_part s key (new_part stream_id partition timestamp), none)
        | some stream ↦ elim (find_bucket_id s key timestamp) [
          | some id ↦ (s, some id)
          | none ↦ (with_part s key (waiting stream timestamp), none)
        ]
      ]

  unfoldable pub increment_bucket : State → Text → ℕ → ℕ → State
  increment_bucket s bucket_id size now = elim (get s.buckets bucket_id) [
    | none ↦ s
    | some b ↦ record s { buckets = put s.buckets bucket_id (Bucket.increment_bucket b size now) }
  ]

  -- A bucket is put both in the heap of its part and in the map.
  unfoldable pub add_bucket : State → StreamPartKey → StreamPart → Bucket → State
  add_bucket s key stream b = record s {
    stream_parts =
        put s.stream_parts key
          (record stream { buckets = push stream.buckets (entry_of b); min_timestamp = none });
    buckets = put s.buckets b.id b;
  }
