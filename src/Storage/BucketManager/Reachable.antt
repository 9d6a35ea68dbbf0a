-- ===== src/Storage/BucketManager/Reachable.antt =====
-- Every state that the calls of the manager reach.
use logstore_node.Base.{
  ℕ, ◌≡◌, refl, sym, subst, false, Option, some, List, Text, text_eq, text_number_eq, All,
  Option-cases, inl, inr,
}
use logstore_node.Base.Collections.{get, has_key, IsMap}
use logstore_node.Storage.Bucket
use logstore_node.Storage.Bucket.{Bucket, BucketResult, new_bucket, built, rejected, value}
use logstore_node.Storage.BucketManager.{
  BucketHeaps, StreamPartKey, Options, State, new_manager, get_bucket_id, increment_bucket,
}
use logstore_node.Storage.BucketManager.Checks.{check_stream}
use logstore_node.Storage.BucketManager.Removal.{store_results}
use logstore_node.Storage.BucketManager.Registered.{IsRegistered}
use logstore_node.Storage.BucketManager.Steps.{get_bucket_id-IsRegistered, get_bucket_id-buckets}
use logstore_node.Storage.BucketManager.Runs.{
  IsWellFormed, store_results-IsWellFormed, changed-IsWellFormed,
}
use logstore_node.Storage.BucketManager.Turns.{IsOf, check_stream-IsWellFormed}

module _ (heaps : BucketHeaps) where
  -- The states that the calls of the manager reach, in any order, with any answers of the database
  -- that are buckets of the part asked for, and ids for new buckets that are not taken.
  pub data IsReachable : State heaps → Type 0 where
    started : (opts : Options) → IsReachable (new_manager heaps opts)
    asked :
        (s : State heaps) (stream_id : Text) (partition timestamp : ℕ)
        → IsReachable s
        → IsReachable (get_bucket_id heaps s stream_id partition timestamp).0
    incremented :
        (s : State heaps) (id : Text) (size now : ℕ)
        → IsReachable s
        → IsReachable (increment_bucket heaps s id size now)
    checked :
        (s s' : State heaps) (key : StreamPartKey) (new_id : Text)
        (last_buckets : Text → ℕ → Option ℕ → List Bucket) (now : ℕ)
        → ((timestamp : Option ℕ) → All (IsOf key new_id) (last_buckets key.0 key.1 timestamp))
        → has_key s.buckets new_id ≡ false
        → check_stream heaps last_buckets now new_id s key ≡ some s'
        → IsReachable s
        → IsReachable s'
    settled :
        (s : State heaps) (results : List (Text × ℕ)) (now : ℕ)
        → IsReachable s
        → IsReachable (store_results heaps now s results)

  new_manager-IsWellFormed : (opts : Options) → IsWellFormed heaps (new_manager heaps opts)
  unfolding IsRegistered new_manager get
  new_manager-IsWellFormed opts = (λ key id. refl, tt)

  get_bucket_id-IsWellFormed :
      (s : State heaps) (stream_id : Text) (partition timestamp : ℕ)
      → IsWellFormed heaps s
      → IsWellFormed heaps (get_bucket_id heaps s stream_id partition timestamp).0
  get_bucket_id-IsWellFormed s stream_id partition timestamp w = (
    get_bucket_id-IsRegistered heaps s stream_id partition timestamp w.0,
    subst IsMap (sym (get_bucket_id-buckets heaps s stream_id partition timestamp)) w.1,
  )

  increment_bucket-IsWellFormed :
      (s : State heaps) (id : Text) (size now : ℕ)
      → IsWellFormed heaps s
      → IsWellFormed heaps (increment_bucket heaps s id size now)
  unfolding increment_bucket Bucket.increment_bucket Bucket.update_ttl
  increment_bucket-IsWellFormed s id size now w = elim (Option-cases (get s.buckets id)) [
    | inl absent ↦ rw (increment_bucket, absent) w
    | inr (b, found) ↦
        rw (increment_bucket, found)
          (changed-IsWellFormed heaps s b (Bucket.increment_bucket b size now) id found refl w)
  ]

  -- In every state that the calls reach, the heap of a part of a stream has just the buckets of the
  -- map that belong to that part, each once, and no other heap has them.
  pub IsReachable-IsWellFormed : (s : State heaps) → IsReachable s → IsWellFormed heaps s
  IsReachable-IsWellFormed s (started opts) = new_manager-IsWellFormed opts
  IsReachable-IsWellFormed s (asked s' stream_id partition timestamp r) =
      get_bucket_id-IsWellFormed s' stream_id partition timestamp (IsReachable-IsWellFormed s' r)
  IsReachable-IsWellFormed s (incremented s' id size now r) =
      increment_bucket-IsWellFormed s' id size now (IsReachable-IsWellFormed s' r)
  IsReachable-IsWellFormed s (checked s' _ key new_id last_buckets now answers fresh h r) =
      check_stream-IsWellFormed heaps last_buckets now s' s key new_id answers fresh h
        (IsReachable-IsWellFormed s' r)
  IsReachable-IsWellFormed s (settled s' results now r) =
      store_results-IsWellFormed heaps now s' results (IsReachable-IsWellFormed s' r)
