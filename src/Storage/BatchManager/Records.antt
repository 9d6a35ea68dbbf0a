-- ===== src/Storage/BatchManager/Records.antt =====
-- No record is lost on the way: what the manager holds, counted by any test of the records.
use logstore_node.Base.{
  ℕ, ◌+◌, ◌≡◌, refl, subst, ap, ◌∙◌, inl, inr, Bool, Option, none, some, [], ◌∷◌, count,
  count-append, map, if◌then◌else◌, Text, text_eq, nat_eq, arith, Bool-cases, Option-cases,
}
use logstore_node.Base.Collections.{get, put, total, total-put, total-delete_key, value_or_zero}
use logstore_node.Storage.Batch
use logstore_node.Storage.Batch.{Batch, InsertRecord, Result, ok, type_error, reached_max_retries}
use logstore_node.Storage.BatchManager.Consistency.{ok-injective, IsConsistent, created-id}
use logstore_node.Storage.BatchManager.{
  Manager, lock_batch, make_room, create_batch, push_to, store, insert, update_batch, insert_timer,
  discard, insert_succeeded, insert_failed, query_of,
}

module _ (p : InsertRecord → Bool) where
  abbrev pub matching : Batch → ℕ
  matching b = count p b.records

  -- The matching records in open and in pending batches.
  unfoldable pub held : Manager → ℕ
  held m = total matching m.batches + total matching m.pending_batches

  held-lock_batch :
      (m : Manager) (bucket : Text) (b : Batch)
      → IsConsistent m
      → get m.batches bucket ≡ some b
      → get m.pending_batches b.id ≡ none
      → held (lock_batch m bucket b) ≡ held m
  unfolding held lock_batch Batch.lock Batch.schedule_insert
  held-lock_batch m bucket b v h k =
      let b' = Batch.schedule_insert (Batch.lock b) in
      ground (
        arith,
        total-delete_key matching m.batches bucket v.open_map,
        total-put matching m.pending_batches b.id b',
      )

  held-make_room :
      (m : Manager) (bucket : Text) → IsConsistent m → held (make_room m bucket) ≡ held m
  unfolding make_room
  held-make_room m bucket v = elim (Option-cases (get m.batches bucket)) [
    | inl e ↦ rw (e, make_room)
    | inr (b, e) ↦
        rw (e, make_room)
          (elim (Bool-cases (Batch.is_full b)) [
            | inl full ↦ rw full (held-lock_batch m bucket b v e (v.apart bucket b e))
            | inr room ↦ rw room
          ])
  ]

  abbrev pub one_if : Bool → ℕ
  one_if b = if b then 1 else 0

  matching-push :
      (b : Batch) (r : InsertRecord) (cb : Option ℕ)
      → matching (Batch.push b r cb) ≡ matching b + one_if (p r)
  unfolding Batch.push
  matching-push b r cb = ground (arith, count-append p b.records (r ∷ []))

  held-push_open :
      (m : Manager) (bucket : Text) (b : Batch) (r : InsertRecord) (cb : Option ℕ)
      → value_or_zero matching (get m.batches bucket) ≡ matching b
      → held (record m { batches = put m.batches bucket (Batch.push b r cb) })
        ≡ held m + one_if (p r)
  unfolding held
  held-push_open m bucket b r cb h =
      omega
        (arith, total-put matching m.batches bucket (Batch.push b r cb), matching-push b r cb, h)

  push_to-held :
      (m m' : Manager) (bucket : Text) (r : InsertRecord) (cb : Option ℕ) (c : Result Batch)
      → ((b : Batch) → c ≡ ok b → value_or_zero matching (get m.batches bucket) ≡ matching b)
      → push_to m bucket r cb c ≡ ok m'
      → held m' ≡ held m + one_if (p r)
  push_to-held m m' bucket r cb (type_error a) f k = ground arith
  push_to-held m m' bucket r cb (ok b) f k =
      subst (λ n. held n ≡ held m + one_if (p r)) (ok-injective k)
        (held-push_open m bucket b r cb (f b refl))

  -- A successful store adds its record to what the manager holds and loses no other, also when it
  -- locks a full batch and starts a new one.
  pub held-store :
      (m : Manager) (bucket : Text) (r : InsertRecord) (cb : Option ℕ) (id now : ℕ) (m' : Manager)
      → IsConsistent m
      → store m bucket r cb id now ≡ ok m'
      → held m' ≡ held m + one_if (p r)
  unfolding store
  held-store m bucket r cb id now m' v h =
      elim (Option-cases (get (make_room m bucket).batches bucket)) [
        | inl miss ↦
            push_to-held (make_room m bucket) m' bucket r cb
              (create_batch (make_room m bucket) bucket id now)
              (λ b e. rw miss (ground (arith, created-id (make_room m bucket) bucket id now b e)))
              (ground arith)
            ∙ ap (λ n. n + one_if (p r)) (held-make_room m bucket v)
        | inr (b, hit) ↦
            push_to-held (make_room m bucket) m' bucket r cb (ok b) (λ c e. rw hit (ground arith))
              (ground arith)
            ∙ ap (λ n. n + one_if (p r)) (held-make_room m bucket v)
      ]

  -- The insert timer and a failure before the last retry move no record.
  matching-kept :
      (b : Batch)
      → (matching (Batch.insert_timeout b) ≡ matching b)
        × (matching (Batch.schedule_insert b) ≡ matching b)
  unfolding Batch.insert_timeout Batch.schedule_insert
  matching-kept b = (refl, refl)

  held-update_batch :
      (m : Manager) (id : ℕ) (f : Batch → Batch)
      → ((b : Batch) → matching (f b) ≡ matching b)
      → held (update_batch m id f) ≡ held m
  unfolding held update_batch
  held-update_batch m id f k = elim (Option-cases (get m.pending_batches id)) [
    | inl e ↦ ground (arith, e)
    | inr (b, e) ↦ ground (arith, e, total-put matching m.pending_batches id (f b), k b)
  ]

  pub held-insert_timer : (m : Manager) (id : ℕ) → held (insert_timer m id).0 ≡ held m
  unfolding insert_timer
  held-insert_timer m id = held-update_batch m id Batch.insert_timeout (λ b. (matching-kept b).0)

  held-discard :
      (m : Manager) (id : ℕ)
      → IsConsistent m
      → held (discard m id) + value_or_zero matching (get m.pending_batches id) ≡ held m
  unfolding held discard
  held-discard m id v = omega (arith, total-delete_key matching m.pending_batches id v.pending_map)

  -- A failed insertion loses exactly the records of its batch, and only if the batch has used its
  -- last retry.
  pub held-insert_failed :
      (m : Manager) (id : ℕ) (b : Batch)
      → IsConsistent m
      → get m.pending_batches id ≡ some b
      → held (insert_failed m id) + (if reached_max_retries b then matching b else 0) ≡ held m
  unfolding insert_failed
  held-insert_failed m id b v h = ground (
    arith,
    held-discard m id v,
    held-update_batch m id Batch.schedule_insert (λ c. (matching-kept c).1),
  )

  -- A successful insertion releases exactly the records whose queries were sent, and calls exactly
  -- the callbacks of their batch.
  pub held-insert_succeeded :
      (m : Manager) (id : ℕ) (b : Batch)
      → IsConsistent m
      → get m.pending_batches id ≡ some b
      → (insert m id ≡ some (map (query_of m.opts b) b.records))
        × ((insert_succeeded m id).0 ≡ b.done_cbs)
        × (held (insert_succeeded m id).1 + matching b ≡ held m)
  unfolding insert insert_succeeded Batch.done
  held-insert_succeeded m id b v h = ground (arith, held-discard m id v)
