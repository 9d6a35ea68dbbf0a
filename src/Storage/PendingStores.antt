-- ===== src/Storage/PendingStores.antt =====
-- `store` of database/CassandraDBAdapter.ts on top of the bucket manager: a message is handed to the
-- batch of its bucket, or waits and is tried again. `handed` lists what is given to the batch
-- manager, each message under its bucket; the ids of timeouts come from `uuidv1`.
use logstore_node.Base.{
  ℕ, ◌+◌, ◌≡◌, ap, Option, none, some, List, [], ◌∷◌, ◌++◌, Text, nat_eq, arith, length,
  Option-cases, inl, inr,
}
use logstore_node.Base.Collections.{
  get, put, delete_key, total, total-put, total-delete_key, IsMap, put-IsMap, delete_key-IsMap,
  value_or_zero,
}
use logstore_node.Storage.Batch.{InsertRecord}
use logstore_node.Storage.BucketManager.{BucketHeaps, State, get_bucket_id, increment_bucket}

module _ (heaps : BucketHeaps) where
  pub record Stores : Type 0 where
    pub manager : State heaps
    pub pending_stores : List (ℕ × InsertRecord)
    pub handed : List (Text × InsertRecord)

  abbrev pub with_bucket : Stores → State heaps → ℕ → InsertRecord → ℕ → Option Text → Stores
  with_bucket s manager uuid r now none = record s {
    manager = manager;
    pending_stores = put s.pending_stores uuid r;
  }
  with_bucket s manager uuid r now (some bucket_id) = record s {
    manager = increment_bucket heaps manager bucket_id (length r.payload) now;
    handed = s.handed ++ (bucket_id, r) ∷ [];
  }

  unfoldable pub store : Stores → ℕ → InsertRecord → ℕ → Stores
  store s uuid r now =
      let found = get_bucket_id heaps s.manager r.stream_id r.partition r.timestamp in
      with_bucket s found.0 uuid r now found.1

  -- The timeout of a message that waits: it is stored again.
  unfoldable pub on_timeout : Stores → ℕ → ℕ → ℕ → Stores
  unfolding store
  on_timeout s uuid next_uuid now = elim (get s.pending_stores uuid) [
    | none ↦ s
    | some r ↦
        store (record s { pending_stores = delete_key s.pending_stores uuid }) next_uuid r now
  ]

  -- `stop` forgets the messages that wait.
  unfoldable pub stop : Stores → Stores
  stop s = record s { pending_stores = [] }

  pub data Event : Type 0 where
    stored : (uuid : ℕ) (r : InsertRecord) (now : ℕ) → Event
    timed_out : (uuid next_uuid now : ℕ) → Event

  unfoldable pub handle : Stores → Event → Stores
  unfolding on_timeout
  handle s (stored uuid r now) = store s uuid r now
  handle s (timed_out uuid next_uuid now) = on_timeout s uuid next_uuid now

  unfoldable pub handle_all : Stores → List Event → Stores
  unfolding handle
  handle_all s [] = s
  handle_all s (e ∷ es) = handle_all (handle s e) es

  -- An id of a timeout is not that of one that is running.
  abbrev IsFresh : Stores → Event → Type 0
  IsFresh s (stored uuid r now) = get s.pending_stores uuid ≡ none
  IsFresh s (timed_out uuid next_uuid now) = get (delete_key s.pending_stores uuid) next_uuid ≡ none

  abbrev pub AreFresh : Stores → List Event → Type 0
  AreFresh s [] = Unit
  AreFresh s (e ∷ es) = IsFresh s e × AreFresh (handle s e) es

  abbrev pub sum_handed : (InsertRecord → ℕ) → List (Text × InsertRecord) → ℕ
  sum_handed f [] = 0
  sum_handed f ((id, r) ∷ rs) = f r + sum_handed f rs

  -- A measure of the messages that wait and those that were handed on.
  abbrev pub held : (InsertRecord → ℕ) → Stores → ℕ
  held f s = total f s.pending_stores + sum_handed f s.handed

  -- The measure of the messages that come.
  abbrev pub incoming : (InsertRecord → ℕ) → List Event → ℕ
  incoming f [] = 0
  incoming f (stored uuid r now ∷ es) = f r + incoming f es
  incoming f (timed_out uuid next_uuid now ∷ es) = incoming f es

  sum_handed-append :
      (f : InsertRecord → ℕ) (xs ys : List (Text × InsertRecord))
      → sum_handed f (xs ++ ys) ≡ sum_handed f xs + sum_handed f ys
  sum_handed-append f [] ys = omega arith
  sum_handed-append f ((id, r) ∷ xs) ys = omega (arith, sum_handed-append f xs ys)

  store-held :
      (f : InsertRecord → ℕ) (s : Stores) (uuid : ℕ) (r : InsertRecord) (now : ℕ)
      → get s.pending_stores uuid ≡ none
      → IsMap s.pending_stores
      → (held f (store s uuid r now) ≡ held f s + f r) × IsMap (store s uuid r now).pending_stores
  unfolding store
  store-held f s uuid r now fresh m =
      let found = get_bucket_id heaps s.manager r.stream_id r.partition r.timestamp in
      go found.0 found.1
    where
      go :
          (manager : State heaps) (o : Option Text)
          → (held f (with_bucket s manager uuid r now o) ≡ held f s + f r)
            × IsMap (with_bucket s manager uuid r now o).pending_stores
      go manager none = (
        omega (arith, total-put f s.pending_stores uuid r, ap (value_or_zero f) fresh),
        put-IsMap s.pending_stores uuid r m,
      )
      go manager (some id) = (omega (arith, sum_handed-append f s.handed ((id, r) ∷ [])), m)

  handle-held :
      (f : InsertRecord → ℕ) (s : Stores) (e : Event)
      → IsFresh s e
      → IsMap s.pending_stores
      → (held f (handle s e) ≡ held f s + incoming f (e ∷ [])) × IsMap (handle s e).pending_stores
  unfolding handle on_timeout
  handle-held f s (stored uuid r now) fresh m =
      let (kept, m') = store-held f s uuid r now fresh m in (omega (arith, kept), m')
  handle-held f s (timed_out uuid next_uuid now) fresh m =
      elim (Option-cases (get s.pending_stores uuid)) [
        | inl absent ↦ rw (handle, on_timeout, absent) (omega arith, m)
        | inr (r, there) ↦
            let s' : Stores = record s { pending_stores = delete_key s.pending_stores uuid } in
            let (kept, m') =
              store-held f s' next_uuid r now fresh (delete_key-IsMap s.pending_stores uuid m) in
            rw (handle, on_timeout, there)
              (
                omega (
                  arith,
                  kept,
                  total-delete_key f s.pending_stores uuid m,
                  ap (value_or_zero f) there,
                ),
                m',
              )
      ]

  incoming_cons :
      (f : InsertRecord → ℕ) (e : Event) (es : List Event)
      → incoming f (e ∷ es) ≡ incoming f (e ∷ []) + incoming f es
  incoming_cons f (stored uuid r now) es = omega arith
  incoming_cons f (timed_out uuid next_uuid now) es = omega arith

  -- Until the adapter stops no message is lost and none is handed on twice: by any measure the
  -- messages that wait and those that were handed to the batches are those that were there before
  -- and those that came, however often they were tried, provided that no timeout waits twice and
  -- that the id of a new timeout is not that of one that runs.
  pub handle_all-held :
      (f : InsertRecord → ℕ) (s : Stores) (es : List Event)
      → AreFresh s es
      → IsMap s.pending_stores
      → held f (handle_all s es) ≡ held f s + incoming f es
  unfolding handle_all
  handle_all-held f s [] fresh m = omega arith
  handle_all-held f s (e ∷ es) fresh m =
      let (kept, m') = handle-held f s e fresh.0 m in
      omega (arith, handle_all-held f (handle s e) es fresh.1 m', kept, incoming_cons f e es)
