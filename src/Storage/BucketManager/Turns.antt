-- ===== src/Storage/BucketManager/Turns.antt =====
-- The turns of `checkFullBuckets` keep the heaps and the map together.
use logstore_node.Base.{
  ℕ, zero, suc, ◌≡◌, refl, sym, ap, ◌∙◌, subst, Bool, true, false, Option, none, some, List, [],
  ◌∷◌, arith, Text, ◌===◌, text_eq, text_number_eq, All, Option-cases, Bool-cases, inl, inr, pos,
  or_default,
}
use logstore_node.Base.Collections.{get, put, has_key, put-IsMap, get-put_self}
use logstore_node.Storage.Bucket
use logstore_node.Storage.Bucket.{Bucket, BucketResult, new_bucket, built, rejected, value}
use logstore_node.Storage.BucketManager.{
  BucketHeaps, StreamPartKey, key_of, StreamPart, State, add_bucket, is_entry_almost_full,
  find_bucket_id,
}
use logstore_node.Storage.BucketManager.Checks.{
  check_found_buckets, data_of, insert_bucket, inserted, check_latest, check_timestamp,
  check_stream, insert_if,
}
use logstore_node.Storage.BucketManager.Registered.{add_bucket-IsRegistered}
use logstore_node.Storage.BucketManager.Runs.{IsWellFormed}

-- The database answers with buckets of the part that it is asked for, and an id that was made for a
-- new bucket is not the id of another.
abbrev pub IsOf : StreamPartKey → Text → Bucket → Type 0
IsOf key new_id b = (key_of b ≡ key) × ((b.id === new_id) ≡ false)

some-injective : {A : Type 0} {a b : A} → some a ≡ some b → a ≡ b
some-injective {a} {b} h = ap (λ o. or_default o a) h

-- A bucket that is built is empty and has the name, the part and the date that it was given.
new_bucket-IsNew :
    (id stream_id : Text) (p date max_size max_records keep_alive now : ℕ) (b : Bucket)
    → new_bucket id stream_id
        (pos p)
        (pos 0)
        (pos 0)
        date
        (pos max_size)
        (pos max_records)
        (pos keep_alive)
        now
      ≡ built b
    → (b.id ≡ id) × (b.stream_id ≡ stream_id) × (b.partition ≡ pos p)
unfolding new_bucket Bucket.update_ttl
new_bucket-IsNew id stream_id p date zero max_records keep_alive now b h = ground (arith, h)
new_bucket-IsNew id stream_id p date (suc m) zero keep_alive now b h = ground (arith, h)
new_bucket-IsNew id stream_id p date (suc m) (suc n) zero now b h = ground (arith, h)
new_bucket-IsNew id stream_id p date (suc m) (suc n) (suc k) now b h = ground (arith, h)

module _ (heaps : BucketHeaps) where
  open heaps use {Heap, peek, to_array}

  -- The part is there, the state is well formed and the new id is not taken.
  abbrev IsReady : StreamPartKey → Text → State heaps → Type 0
  IsReady key new_id s =
      IsWellFormed heaps s
      × ((stream : StreamPart heaps) × (get s.stream_parts key ≡ some stream))
      × (has_key s.buckets new_id ≡ false)

  has_key-put :
      (m : List (Text × Bucket)) (b : Bucket) (id : Text)
      → (b.id === id) ≡ false
      → has_key m id ≡ false
      → has_key (put m b.id b) id ≡ false
  unfolding has_key put
  has_key-put [] b id h k = ground arith
  has_key-put ((j, w) ∷ m) b id h k = ground (arith, h, k, has_key-put m b id h)

  add_bucket-IsWellFormed :
      (s : State heaps) (key : StreamPartKey) (stream : StreamPart heaps) (b : Bucket)
      → get s.stream_parts key ≡ some stream
      → has_key s.buckets b.id ≡ false
      → key_of b ≡ key
      → IsWellFormed heaps s
      → IsWellFormed heaps (add_bucket heaps s key stream b)
  unfolding add_bucket
  add_bucket-IsWellFormed s key stream b there fresh own w = (
    add_bucket-IsRegistered heaps s key stream b there fresh own w.0,
    put-IsMap s.buckets b.id b w.1,
  )

  check_found-IsReady :
      (s : State heaps) (key : StreamPartKey) (new_id : Text) (stream : StreamPart heaps)
      (found : List Bucket)
      → get s.stream_parts key ≡ some stream
      → All (IsOf key new_id) found
      → IsReady key new_id s
      → IsReady key new_id (check_found_buckets heaps s key stream found).1
  unfolding check_found_buckets add_bucket
  check_found-IsReady s key new_id stream [] there all ready = ready
  check_found-IsReady s key new_id stream (b ∷ bs) there all (w, part, fresh) =
      elim (Bool-cases (has_key s.buckets b.id)) [
        | inl taken ↦ rw (taken) (w, part, fresh)
        | inr new ↦ rw (new) (
          add_bucket-IsWellFormed s key stream b there new all.0.0 w,
          (_, get-put_self s.stream_parts key _),
          has_key-put s.buckets b new_id all.0.1 fresh,
        )
      ]

  module _ (last_buckets : Text → ℕ → Option ℕ → List Bucket) (now : ℕ) where
    check_latest-IsReady :
        (s : State heaps) (key : StreamPartKey) (new_id : Text) (stream : StreamPart heaps)
        → get s.stream_parts key ≡ some stream
        → ((timestamp : Option ℕ) → All (IsOf key new_id) (last_buckets key.0 key.1 timestamp))
        → IsReady key new_id s
        → IsReady key new_id (check_latest heaps last_buckets now s key stream).1
    unfolding check_latest
    check_latest-IsReady s key new_id stream there answers ready =
        let checked =
          check_found-IsReady s key new_id stream (last_buckets key.0 key.1 none) there
            (answers none) ready in
        elim (Option-cases (peek stream.buckets)) [
          | inl empty ↦ rw (check_latest, empty) checked
          | inr (latest, found) ↦ elim (Bool-cases (is_entry_almost_full heaps s latest)) [
            | inl full ↦ rw (check_latest, found, full) checked
            | inr room ↦ rw (check_latest, found, room) ready
          ]
        ]

    check_timestamp-IsReady :
        (i : Bool) (s : State heaps) (key : StreamPartKey) (new_id : Text) (m : ℕ)
        → ((timestamp : Option ℕ) → All (IsOf key new_id) (last_buckets key.0 key.1 timestamp))
        → IsReady key new_id s
        → IsReady key new_id (check_timestamp heaps last_buckets now (i, s) key m).1
    unfolding check_timestamp
    check_timestamp-IsReady true s key new_id m answers ready = ready
    check_timestamp-IsReady false s key new_id m answers ready =
        elim (Option-cases (find_bucket_id heaps s key m)) [
          | inl missing ↦
              let (stream, there) = ready.1 in
              rw (check_timestamp, missing, there)
                (check_found-IsReady s key new_id stream (last_buckets key.0 key.1 (some m)) there
                  (answers (some m)) ready)
          | inr (id, found) ↦ rw (check_timestamp, found) ready
        ]

    insert_bucket-IsWellFormed :
        (s s' : State heaps) (key : StreamPartKey) (new_id : Text) (m : ℕ)
        → IsReady key new_id s
        → insert_bucket heaps last_buckets now new_id s key m ≡ some s'
        → IsWellFormed heaps s'
    unfolding insert_bucket
    insert_bucket-IsWellFormed s s' key new_id m (w, (stream, there), fresh) h =
        go (data_of heaps s new_id key m now) refl (sym (ap at there) ∙ h)
      where
        at : Option (StreamPart heaps) → Option (State heaps)
        at none = some s
        at (some stream') = inserted heaps s key stream' (data_of heaps s new_id key m now)

        go :
            (r : BucketResult)
            → data_of heaps s new_id key m now ≡ r
            → inserted heaps s key stream r ≡ some s'
            → IsWellFormed heaps s'
        go (built b) e k =
            let (same_id, same_stream, same_part) =
              new_bucket-IsNew new_id key.0 key.1 m _ _ _ now b e in
            subst (IsWellFormed heaps) (some-injective k) (
              add_bucket-IsWellFormed s key stream b there (ap (has_key s.buckets) same_id ∙ fresh)
                (ap (λ x. (x, value b.partition)) same_stream
                  ∙ ap (λ x. (key.0, value x)) same_part)
                w)
        go (rejected r) e k = absurd (ground (arith, k))

    insert_if-IsWellFormed :
        (checked : Bool × State heaps) (s' : State heaps) (key : StreamPartKey) (new_id : Text)
        (m : ℕ)
        → IsReady key new_id checked.1
        → insert_if heaps last_buckets now new_id checked key m ≡ some s'
        → IsWellFormed heaps s'
    insert_if-IsWellFormed (true, s) s' key new_id m ready h =
        insert_bucket-IsWellFormed s s' key new_id m ready h
    insert_if-IsWellFormed (false, s) s' key new_id m ready h =
        subst (IsWellFormed heaps) (some-injective h) ready.0

    -- A turn of the loop on a part whose messages may wait.
    pub check_stream-IsWellFormed :
        (s s' : State heaps) (key : StreamPartKey) (new_id : Text)
        → ((timestamp : Option ℕ) → All (IsOf key new_id) (last_buckets key.0 key.1 timestamp))
        → has_key s.buckets new_id ≡ false
        → check_stream heaps last_buckets now new_id s key ≡ some s'
        → IsWellFormed heaps s
        → IsWellFormed heaps s'
    unfolding check_stream
    check_stream-IsWellFormed s s' key new_id answers fresh h w =
        elim (Option-cases (get s.stream_parts key)) [
          | inl absent ↦
              subst (IsWellFormed heaps) (some-injective (sym (rw (check_stream, absent) refl) ∙ h))
                w
          | inr (stream, there) ↦ elim (Option-cases stream.min_timestamp) [
            | inl idle ↦
                subst (IsWellFormed heaps)
                  (some-injective (sym (rw (check_stream, there, idle) refl) ∙ h)) w
            | inr (m, wanted) ↦
                let first =
                  check_latest-IsReady s key new_id stream there answers
                    (w, (stream, there), fresh) in
                let (i, checked) = check_latest heaps last_buckets now s key stream in
                insert_if-IsWellFormed
                  (check_timestamp heaps last_buckets now
                    (check_latest heaps last_buckets now s key stream) key m)
                  s' key new_id m (check_timestamp-IsReady i checked key new_id m answers first)
                  (sym (rw (check_stream, there, wanted) refl) ∙ h)
          ]
        ]
