-- ===== src/Storage/BucketManager/Removal.antt =====
-- BucketManager.ts: the buckets are written to the database, and dropped when they have expired.
use logstore_node.Base.{
  ℕ, ◌&&◌, not, none, some, List, [], ◌∷◌, filter, if◌then◌else◌, ◌==◌, Text, ◌===◌, text_eq,
  text_number_eq, map,
}
use logstore_node.Base.Collections.{get, put, delete_key}
use logstore_node.Storage.Bucket.{Bucket, is_alive, set_stored}
use logstore_node.Storage.BucketManager.{
  Entry, BucketHeaps, StreamPartKey, key_of, State, with_part,
}

-- The entries of a heap without the first with an id.
unfoldable pub without : Text → List Entry → List Entry
without id [] = []
without id (e ∷ es) = if e.id === id then es else e ∷ without id es

module _ (heaps : BucketHeaps) where
  open heaps use {Heap, empty, push, peek, to_array}

  -- `upsertBucket` of each bucket that is not stored: its id, and its records at the call.
  unfoldable pub upserts : State heaps → List (Text × ℕ)
  upserts s =
      map (λ (p : Text × Bucket). (p.0, p.1.records)) (filter (λ p. not p.1.stored) s.buckets)

  unfoldable pub push_all : Heap → List Entry → Heap
  push_all h [] = h
  push_all h (e ∷ es) = push_all (push h e) es

  unfoldable pub remove_bucket : State heaps → Text → StreamPartKey → State heaps
  unfolding without push_all
  remove_bucket s bucket_id key =
      let s' : State heaps = record s { buckets = delete_key s.buckets bucket_id } in
      elim (get s.stream_parts key) [
        | none ↦ s'
        | some stream ↦ with_part heaps s' key (record stream {
          buckets = push_all empty (without bucket_id (to_array stream.buckets));
        })
      ]

  module _ (now : ℕ) where
    -- A fulfilled upsert, given its id and the records that it wrote.
    unfoldable pub stored_bucket : State heaps → Text → ℕ → State heaps
    unfolding remove_bucket
    stored_bucket s id records = elim (get s.buckets id) [
      | none ↦ s
      | some b ↦
          let b' = if b.records == records then set_stored b else b in
          let s' : State heaps = record s { buckets = put s.buckets id b' } in
          if not (is_alive b' now) && b'.stored then remove_bucket s' id (key_of b') else s'
    ]

    unfoldable pub stored_all : State heaps → List (Text × ℕ) → State heaps
    unfolding stored_bucket
    stored_all s [] = s
    stored_all s ((id, records) ∷ results) = stored_all (stored_bucket s id records) results

    unfoldable pub remove_all : State heaps → List (Text × Bucket) → State heaps
    unfolding remove_bucket
    remove_all s [] = s
    remove_all s ((id, b) ∷ bs) = remove_all (remove_bucket s id (key_of b)) bs

    -- The rest of `storeBuckets`, when all upserts have settled; messages may have come since.
    unfoldable pub store_results : State heaps → List (Text × ℕ) → State heaps
    unfolding stored_all remove_all
    store_results s results =
        let s' = stored_all s results in
        remove_all s' (filter (λ p. p.1.stored && not (is_alive p.1 now)) s'.buckets)
