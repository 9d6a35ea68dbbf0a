-- ===== src/Tests/Batches.antt =====
-- The batch manager.
use logstore_node.Base.{
  ℕ, ◌+◌, ◌≤◌, ◌≡◌, ◌≢◌, refl, arith, Bool, true, none, some, [], ◌∷◌, text_eq, nat_eq,
}
use logstore_node.Base.Collections.{get, put}
use logstore_node.Storage.Batch
use logstore_node.Storage.Batch.{Batch, InsertRecord, ok, reached_max_retries}
use logstore_node.Storage.BatchManager.{Manager, default_options, new_manager, store, make_room}
use logstore_node.Storage.BatchManager.Consistency.{IsConsistent, IsNew, store-IsConsistent}
use logstore_node.Storage.BatchManager.Records.{held, held-store}
use logstore_node.Storage.BatchManager.Bounds.{AllOpen, store-AllOpen}
use logstore_node.Storage.BatchManager.Retries.{failed_attempts, failed_attempts_dropped}
use logstore_node.Tests.Sample.{alice, stream}

abbrev row : InsertRecord
row = record {
  stream_id = stream;
  partition = 0;
  timestamp = 1;
  sequence_no = 0;
  publisher_id = alice;
  msg_chain_id = alice;
  payload = 1 ∷ 2 ∷ [];
}

abbrev every : InsertRecord → Bool
every r = true

abbrev fresh : Manager
fresh = new_manager (record default_options { batch_max_retries = 2 })

-- The batch of a stored row.
abbrev batch : Batch
batch = record {
  id = 1;
  bucket_id = alice;
  max_size = 2400000;
  max_record_count = 8000;
  max_retries = 2;
  close_timeout = 1000;
  timeout = some (Batch.lock_after 1000);
  created_at = 5;
  records = row ∷ [];
  size = 2;
  retries = 0;
  state = Batch.opened;
  done_cbs = [];
}

abbrev filled : Manager
filled = record fresh { batches = (alice, batch) ∷ [] }

stored : store fresh alice row none 1 5 ≡ ok filled
unfolding store make_room get put Batch.new_batch Batch.push new_manager
stored = refl

fresh-IsConsistent : IsConsistent fresh
unfolding new_manager get
fresh-IsConsistent = record {
  open_map = tt;
  pending_map = tt;
  apart = λ k b h. cc;
  distinct = λ k j b c h i e. cc;
}

fresh-IsNew : IsNew fresh 1
unfolding new_manager get
fresh-IsNew = record { not_pending = refl; not_open = λ k b h. cc }

fresh-AllOpen : AllOpen 10 fresh
unfolding new_manager get
fresh-AllOpen k b h = cc

store-IsConsistent_example : IsConsistent filled
store-IsConsistent_example =
    store-IsConsistent fresh alice row none 1 5 filled fresh-IsConsistent fresh-IsNew stored

held-store_example : held every filled ≡ held every fresh + 1
held-store_example = held-store every fresh alice row none 1 5 filled fresh-IsConsistent stored

store-AllOpen_example : AllOpen 10 filled
store-AllOpen_example =
    store-AllOpen fresh 10 alice row none 1 5 filled fresh-AllOpen (omega arith) stored

-- The batch on its first attempt.
abbrev tried : Batch
tried = record batch { retries = 1; state = Batch.pending; timeout = none }

abbrev inserting : Manager
inserting = record fresh { pending_batches = (1, tried) ∷ [] }

inserting-IsConsistent : IsConsistent inserting
unfolding new_manager get
inserting-IsConsistent = record {
  open_map = tt;
  pending_map = (refl, tt);
  apart = λ k b h. cc;
  distinct = λ k j b c h i e. cc;
}

inserting-get : get inserting.pending_batches 1 ≡ some tried
unfolding get
inserting-get = refl

-- The batch is locked and waits for its first attempt.
abbrev waiting : Manager
waiting = record fresh { pending_batches = (1, batch) ∷ [] }

waiting-get : get waiting.pending_batches 1 ≡ some batch
unfolding get
waiting-get = refl

failed_attempts_dropped_example :
    (get (failed_attempts 2 waiting 1).pending_batches 1 ≡ none)
    × ((k : ℕ) → k ≤ 1 → get (failed_attempts k waiting 1).pending_batches 1 ≢ none)
failed_attempts_dropped_example = failed_attempts_dropped 1 waiting 1 batch waiting-get refl
