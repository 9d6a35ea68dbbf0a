-- ===== src/Storage/Batch.antt =====
-- Batch.ts: the records of a bucket that wait to be inserted together. The events that `setState`
-- emits are handled by the BatchManager, which calls these functions.
use logstore_node.Base.{
  ℕ, ◌+◌, ◌*◌, Bool, ◌||◌, Option, none, some, List, [], ◌∷◌, ◌++◌, ltb, leb, ◌==◌, length,
  if◌then◌else◌, Text,
}

pub record InsertRecord : Type 0 where
  pub stream_id : Text
  pub partition : ℕ
  pub timestamp : ℕ
  pub sequence_no : ℕ
  pub publisher_id : Text
  pub msg_chain_id : Text
  pub payload : List ℕ

-- OPENED => LOCKED => PENDING => INSERTED
pub data State : Type 0 where
  opened locked pending inserted : State

-- The timer of a batch with its delay: to lock it, or to insert it.
pub data Timer : Type 0 where
  lock_after insert_after : ℕ → Timer

-- A completion callback is known by a number.
pub record Batch : Type 0 where
  pub id : ℕ
  pub bucket_id : Text
  pub max_size : ℕ
  pub max_record_count : ℕ
  pub max_retries : ℕ
  pub close_timeout : ℕ
  pub timeout : Option Timer
  pub created_at : ℕ
  pub records : List InsertRecord
  pub size : ℕ
  pub retries : ℕ
  pub state : State
  pub done_cbs : List ℕ

-- The argument that the constructor rejects with a TypeError.
pub data BadArgument : Type 0 where
  empty_bucket_id zero_max_size zero_max_record_count zero_close_timeout zero_max_retries :
      BadArgument

pub data Result {ℓ} (A : Type ℓ) : Type ℓ where
  ok : A → Result A
  type_error : BadArgument → Result A

-- `id` is the uuid, and `now` the time.
unfoldable pub new_batch : Text → ℕ → ℕ → ℕ → ℕ → ℕ → ℕ → Result Batch
new_batch bucket size_limit count_limit close retry_limit id now =
    if length bucket == 0
    then type_error empty_bucket_id
    else if size_limit == 0
    then type_error zero_max_size
    else if count_limit == 0
    then type_error zero_max_record_count
    else if close == 0
    then type_error zero_close_timeout
    else if retry_limit == 0
    then type_error zero_max_retries
    else ok (record {
      id = id;
      bucket_id = bucket;
      max_size = size_limit;
      max_record_count = count_limit;
      max_retries = retry_limit;
      close_timeout = close;
      timeout = some (lock_after close);
      created_at = now;
      records = [];
      size = 0;
      retries = 0;
      state = opened;
      done_cbs = [];
    })

abbrev pub reached_max_retries : Batch → Bool
reached_max_retries b = b.retries == b.max_retries

unfoldable pub lock : Batch → Batch
lock b = record b { timeout = none; state = locked }

unfoldable pub schedule_insert : Batch → Batch
schedule_insert b = record b { timeout = some (insert_after (b.close_timeout * b.retries)) }

-- The callback of the insert timer.
unfoldable pub insert_timeout : Batch → Batch
insert_timeout b = record b {
  timeout = none;
  retries = if ltb b.retries b.max_retries then b.retries + 1 else b.retries;
  state = pending;
}

-- The callbacks that are called, beside the batch.
unfoldable pub done : Batch → List ℕ × Batch
done b = (b.done_cbs, record b { done_cbs = [] })

unfoldable pub clear : Batch → Batch
clear b = record b { timeout = none; records = []; state = inserted }

unfoldable pub push : Batch → InsertRecord → Option ℕ → Batch
push b r done_cb = record b {
  records = b.records ++ r ∷ [];
  size = b.size + length r.payload;
  done_cbs = elim done_cb [ none ↦ b.done_cbs | some cb ↦ b.done_cbs ++ cb ∷ [] ];
}

unfoldable pub is_full : Batch → Bool
is_full b = leb b.max_size b.size || leb b.max_record_count (length b.records)
