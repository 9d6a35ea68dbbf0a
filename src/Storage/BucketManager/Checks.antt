-- ===== src/Storage/BucketManager/Checks.antt =====
-- BucketManager.ts: a bucket is found or created for each part of a stream whose messages wait.
use logstore_node.Base.{
  ℕ, pos, Bool, true, false, Option, none, some, List, [], ◌∷◌, if◌then◌else◌, Text, text_eq,
  text_number_eq, map,
}
use logstore_node.Base.Collections.{get, has_key}
use logstore_node.Storage.Bucket.{Bucket, new_bucket, BucketResult, built, rejected}
use logstore_node.Storage.BucketManager.{
  BucketHeaps, StreamPartKey, StreamPart, State, is_entry_almost_full, find_bucket_id, add_bucket,
}

module _ (heaps : BucketHeaps) where
  open heaps use {Heap, empty, push, peek, to_array}

  -- What one look into the database gave: `insertNewBucket`, and the state.
  unfoldable pub check_found_buckets :
      State heaps → StreamPartKey → StreamPart heaps → List Bucket → Bool × State heaps
  unfolding add_bucket
  check_found_buckets s key stream [] = (true, s)
  check_found_buckets s key stream (found ∷ _) =
      if has_key s.buckets found.id then (true, s) else (false, add_bucket heaps s key stream found)

  -- `new Bucket` of an empty name or of limits that are zero is the error that ends the loop.
  abbrev pub data_of : State heaps → Text → StreamPartKey → ℕ → ℕ → BucketResult
  data_of s id key timestamp now =
      new_bucket id key.0 (pos key.1) (pos 0) (pos 0) timestamp (pos s.opts.max_bucket_size)
        (pos s.opts.max_bucket_records) (pos s.opts.bucket_keep_alive_seconds) now

  abbrev pub inserted :
      State heaps → StreamPartKey → StreamPart heaps → BucketResult → Option (State heaps)
  inserted s key stream (built b) = some (add_bucket heaps s key stream b)
  inserted s key stream (rejected _) = none

  -- The answers of `db.getLastBuckets`, without and with a timestamp, and the time. The id that
  -- `TimeUuid.fromDate` makes for a new bucket is given to each turn.
  module _ (last_buckets : Text → ℕ → Option ℕ → List Bucket) (now : ℕ) where
    unfoldable pub insert_bucket : Text → State heaps → StreamPartKey → ℕ → Option (State heaps)
    insert_bucket new_id s key min_timestamp = elim (get s.stream_parts key) [
      | none ↦ some s
      | some stream ↦ inserted s key stream (data_of s new_id key min_timestamp now)
    ]

    -- Without a latest bucket that has room, the latest of the database is looked for. A latest bucket
    -- that is almost full asks for a new one in any case.
    unfoldable pub check_latest :
        State heaps → StreamPartKey → StreamPart heaps → Bool × State heaps
    unfolding check_found_buckets is_entry_almost_full
    check_latest s key stream = elim (peek stream.buckets) [
      | none ↦ check_found_buckets s key stream (last_buckets key.0 key.1 none)
      | some latest ↦
          if is_entry_almost_full heaps s latest
          then (true, (check_found_buckets s key stream (last_buckets key.0 key.1 none)).1)
          else (false, s)
    ]

    -- Without a bucket for the timestamp, one is looked for in the database.
    unfoldable pub check_timestamp : Bool × State heaps → StreamPartKey → ℕ → Bool × State heaps
    unfolding check_found_buckets find_bucket_id
    check_timestamp (true, s) key min_timestamp = (true, s)
    check_timestamp (false, s) key min_timestamp = elim (find_bucket_id heaps s key min_timestamp) [
      | some _ ↦ (false, s)
      | none ↦ elim (get s.stream_parts key) [
        | none ↦ (false, s)
        | some stream ↦
            check_found_buckets s key stream (last_buckets key.0 key.1 (some min_timestamp))
      ]
    ]

    abbrev pub insert_if : Text → Bool × State heaps → StreamPartKey → ℕ → Option (State heaps)
    insert_if new_id (true, s) key min_timestamp = insert_bucket new_id s key min_timestamp
    insert_if new_id (false, s) key min_timestamp = some s

    -- One turn of the loop.
    unfoldable pub check_stream : Text → State heaps → StreamPartKey → Option (State heaps)
    unfolding insert_bucket check_latest check_timestamp
    check_stream new_id s key = elim (get s.stream_parts key) [
      | none ↦ some s
      | some stream ↦ elim stream.min_timestamp [
        | none ↦ some s
        | some m ↦ insert_if new_id (check_timestamp (check_latest s key stream) key m) key m
      ]
    ]

    unfoldable pub check_keys :
        (StreamPartKey → Text) → State heaps → List StreamPartKey → Option (State heaps)
    unfolding check_stream
    check_keys new_ids s [] = some s
    check_keys new_ids s (key ∷ keys) = elim (check_stream (new_ids key) s key) [
      | none ↦ none
      | some s' ↦ check_keys new_ids s' keys
    ]

    unfoldable pub check_full_buckets : (StreamPartKey → Text) → State heaps → Option (State heaps)
    unfolding check_keys
    check_full_buckets new_ids s = check_keys new_ids s (map (λ p. p.0) s.stream_parts)
