-- ===== src/Storage/BatchManager/Retries.antt =====
-- The attempts to insert a batch while the client keeps failing.
use logstore_node.Base.{
  ℕ, zero, suc, ◌+◌, ◌*◌, ◌≤◌, ◌<◌, ◌≡◌, refl, ◌∙◌, ◌≢◌, none, some, if◌then◌else◌, text_eq, nat_eq,
  arith, ◌==◌,
}
use logstore_node.Base.Collections.{get, get-put, get-delete_key}
use logstore_node.Storage.Batch
use logstore_node.Storage.Batch.{Batch, InsertRecord, Result, ok, type_error, reached_max_retries}
use logstore_node.Storage.BatchManager.{Manager, update_batch, insert_timer, discard, insert_failed}

-- One attempt: the insert timer fires, and the insertion fails.
unfoldable pub failed_attempt : Manager → ℕ → Manager
failed_attempt m id = insert_failed (insert_timer m id).0 id

unfoldable pub failed_attempts : ℕ → Manager → ℕ → Manager
failed_attempts zero m id = m
failed_attempts (suc n) m id = failed_attempts n (failed_attempt m id) id

-- The batch after its insert timer.
abbrev pub after_timer : Batch → Batch
after_timer b = Batch.insert_timeout b

timer-get :
    (m : Manager) (id : ℕ) (b : Batch)
    → get m.pending_batches id ≡ some b
    → get (insert_timer m id).0.pending_batches id ≡ some (after_timer b)
unfolding insert_timer update_batch
timer-get m id b h = ground (arith, h, get-put m.pending_batches id (after_timer b) id)

failed-get :
    (m : Manager) (id : ℕ) (b : Batch)
    → get m.pending_batches id ≡ some b
    → get (insert_failed m id).pending_batches id
      ≡ (if reached_max_retries b then none else some (Batch.schedule_insert b))
unfolding insert_failed discard update_batch
failed-get m id b h = ground (
  arith,
  h,
  get-put m.pending_batches id (Batch.schedule_insert b) id,
  get-delete_key m.pending_batches id id,
)

-- The batch that an attempt leaves, with a retry more.
abbrev pub retried : Batch → Batch
retried b = Batch.schedule_insert (after_timer b)

attempt-get :
    (m : Manager) (id : ℕ) (b : Batch)
    → get m.pending_batches id ≡ some b
    → b.retries < b.max_retries
    → get (failed_attempt m id).pending_batches id
      ≡ (if b.retries + 1 == b.max_retries then none else some (retried b))
unfolding failed_attempt Batch.insert_timeout Batch.schedule_insert
attempt-get m id b h r =
    ground (arith, timer-get m id b h, failed-get (insert_timer m id).0 id (after_timer b))

retried-counts :
    (b : Batch)
    → b.retries < b.max_retries
    → ((retried b).retries ≡ b.retries + 1)
      × ((retried b).max_retries ≡ b.max_retries)
      × ((retried b).records ≡ b.records)
      × ((retried b).timeout ≡ some (Batch.insert_after (b.close_timeout * (b.retries + 1))))
unfolding Batch.insert_timeout Batch.schedule_insert
retried-counts b h = ground arith

-- While the client keeps failing, a pending batch keeps its records through every attempt before
-- its last retry, and counts each of them.
pub failed_attempts_pending :
    (n : ℕ) (m : Manager) (id : ℕ) (b : Batch)
    → get m.pending_batches id ≡ some b
    → b.retries + n < b.max_retries
    → (c : Batch) × (get (failed_attempts n m id).pending_batches id ≡ some c)
      × (c.retries ≡ b.retries + n)
      × (c.records ≡ b.records)
      × (c.max_retries ≡ b.max_retries)
unfolding failed_attempts
failed_attempts_pending zero m id b h r = (b, h, omega arith, refl, refl)
failed_attempts_pending (suc n) m id b h r =
    let (count, limit, same, _) = retried-counts b (omega arith) in
    let next : get (failed_attempt m id).pending_batches id ≡ some (retried b) =
      ground (arith, attempt-get m id b h) in
    let (c, found, counted, kept, limit') =
      failed_attempts_pending n (failed_attempt m id) id (retried b) next (omega arith) in
    (c, found, omega arith, kept ∙ same, limit' ∙ limit)

failed_attempts-suc :
    (n : ℕ) (m : Manager) (id : ℕ)
    → failed_attempts (suc n) m id ≡ failed_attempt (failed_attempts n m id) id
unfolding failed_attempts
failed_attempts-suc zero m id = refl
failed_attempts-suc (suc n) m id = failed_attempts-suc n (failed_attempt m id) id

-- The attempt that uses the last retry drops the batch: a batch that is never inserted is tried
-- exactly `max_retries` times.
pub failed_attempts_dropped :
    (n : ℕ) (m : Manager) (id : ℕ) (b : Batch)
    → get m.pending_batches id ≡ some b
    → b.retries + suc n ≡ b.max_retries
    → (get (failed_attempts (suc n) m id).pending_batches id ≡ none)
      × ((k : ℕ) → k ≤ n → get (failed_attempts k m id).pending_batches id ≢ none)
failed_attempts_dropped n m id b h r =
    let (c, found, counted, _, limit) = failed_attempts_pending n m id b h (omega arith) in
    (
      rw (failed_attempts-suc n m id)
          (ground (arith, attempt-get (failed_attempts n m id) id c found)),
      λ k le e. let (d, found', _, _, _) = failed_attempts_pending k m id b h (omega arith) in cc,
    )
