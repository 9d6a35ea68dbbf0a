-- ===== src/Storage/BatchManager.antt =====
-- BatchManager.ts: the open batch of each bucket, and the batches that wait to be inserted into
-- Cassandra. A batch object stands in one of the two maps, or, after `stop`, in neither; the
-- objects that only an insertion in flight still knows are kept in `detached`. The answers of
-- `cassandraClient.batch` are events.
pub mod Consistency
pub mod Records
pub mod Bounds
pub mod Retries
use logstore_node.Base.{
  ℕ, ◌+◌, ◌*◌, Bool, true, false, Option, none, some, List, [], ◌∷◌, ◌++◌, map, if◌then◌else◌, Text,
  Eq, text_eq, nat_eq,
}
use logstore_node.Base.Collections.{get, put, delete_key}
use logstore_node.Storage.Batch
use logstore_node.Storage.Batch.{Batch, InsertRecord, Result, ok, type_error, reached_max_retries}

pub record Options : Type 0 where
  pub use_ttl : Bool
  pub log_errors : Bool
  pub batch_max_size : ℕ
  pub batch_max_record_count : ℕ
  pub batch_close_timeout : ℕ
  pub batch_max_retries : ℕ

abbrev pub default_options : Options
default_options = record {
  use_ttl = false;
  log_errors = false;
  batch_max_size = 8000 * 300;
  batch_max_record_count = 8000;
  batch_close_timeout = 1000;
  batch_max_retries = 1000;
}

-- The two insert statements.
pub data Statement : Type 0 where
  insert_statement insert_statement_with_ttl : Statement

pub record Query : Type 0 where
  pub statement : Statement
  pub bucket_id : Text
  pub row : InsertRecord

pub record Manager : Type 0 where
  pub opts : Options
  pub batches : List (Text × Batch)
  pub pending_batches : List (ℕ × Batch)
  pub detached : List (ℕ × Batch)

unfoldable pub new_manager : Options → Manager
new_manager opts = record { opts = opts; batches = []; pending_batches = []; detached = [] }

abbrev pub statement_of : Options → Statement
statement_of opts = if opts.use_ttl then insert_statement_with_ttl else insert_statement

unfoldable pub move_full_batch : Manager → Text → Batch → Manager
move_full_batch m bucket b = record m {
  pending_batches = put m.pending_batches b.id (Batch.schedule_insert b);
  batches = delete_key m.batches bucket;
}

-- `batch.lock()` with the handler of the event that it emits.
unfoldable pub lock_batch : Manager → Text → Batch → Manager
unfolding move_full_batch
lock_batch m bucket b = move_full_batch m bucket (Batch.lock b)

-- A full batch is locked before the record is stored.
unfoldable pub make_room : Manager → Text → Manager
unfolding lock_batch
make_room m bucket = elim (get m.batches bucket) [
  | none ↦ m
  | some b ↦ if Batch.is_full b then lock_batch m bucket b else m
]

abbrev pub create_batch : Manager → Text → ℕ → ℕ → Result Batch
create_batch m bucket id now =
    Batch.new_batch bucket m.opts.batch_max_size m.opts.batch_max_record_count
      m.opts.batch_close_timeout m.opts.batch_max_retries id now

abbrev pub push_to : Manager → Text → InsertRecord → Option ℕ → Result Batch → Result Manager
push_to m bucket r done_cb (ok b) =
    ok (record m { batches = put m.batches bucket (Batch.push b r done_cb) })
push_to m bucket r done_cb (type_error a) = type_error a

-- `id` is the uuid for a new batch, and `now` the time.
unfoldable pub store : Manager → Text → InsertRecord → Option ℕ → ℕ → ℕ → Result Manager
unfolding make_room
store m bucket r done_cb id now =
    let m' = make_room m bucket in
    push_to m' bucket r done_cb
      (elim (get m'.batches bucket) [ none ↦ create_batch m' bucket id now | some b ↦ ok b ])

-- The lock timer of the open batch of a bucket fires.
unfoldable pub lock_timer : Manager → Text → Manager
unfolding lock_batch
lock_timer m bucket = elim (get m.batches bucket) [ none ↦ m | some b ↦ lock_batch m bucket b ]

abbrev pub query_of : Options → Batch → InsertRecord → Query
query_of opts b r = record { statement = statement_of opts; bucket_id = b.bucket_id; row = r }

-- The insert timer of a batch fires, and `insert` runs up to the call of the client: the queries
-- of the call. `none`: no batch of the id is pending, and both the read of its records and the
-- handler of the error throw.
unfoldable pub insert : Manager → ℕ → Option (List Query)
insert m id = elim (get m.pending_batches id) [
  | none ↦ none
  | some b ↦ some (map (query_of m.opts b) b.records)
]

unfoldable pub update_batch : Manager → ℕ → (Batch → Batch) → Manager
update_batch m id f = elim (get m.pending_batches id) [
  | some b ↦ record m { pending_batches = put m.pending_batches id (f b) }
  | none ↦ elim (get m.detached id) [
    | none ↦ m
    | some b ↦ record m { detached = put m.detached id (f b) }
  ]
]

unfoldable pub insert_timer : Manager → ℕ → Manager × Option (List Query)
unfolding update_batch insert
insert_timer m id = let m' = update_batch m id Batch.insert_timeout in (m', insert m' id)

-- The object that an insertion in flight has captured.
abbrev pub captured : Manager → ℕ → Option Batch
captured m id = elim (get m.pending_batches id) [ some b ↦ some b | none ↦ get m.detached id ]

-- The object is cleared, and its entry deleted.
unfoldable pub discard : Manager → ℕ → Manager
discard m id = record m {
  pending_batches = delete_key m.pending_batches id;
  detached = delete_key m.detached id;
}

-- The client has inserted the batch: the callbacks that are called, beside the state.
unfoldable pub insert_succeeded : Manager → ℕ → List ℕ × Manager
unfolding discard
insert_succeeded m id = elim (captured m id) [
  | none ↦ ([], m)
  | some b ↦ ((Batch.done b).0, discard m id)
]

-- The client has failed: the batch is dropped after the last retry, and scheduled again before.
unfoldable pub insert_failed : Manager → ℕ → Manager
unfolding discard update_batch
insert_failed m id = elim (captured m id) [
  | none ↦ m
  | some b ↦ if reached_max_retries b then discard m id else update_batch m id Batch.schedule_insert
]

abbrev pub clear_all : List (ℕ × Batch) → List (ℕ × Batch)
clear_all m = map (λ (e : ℕ × Batch). (e.0, Batch.clear e.1)) m

unfoldable pub stop : Manager → Manager
stop m = record m {
  batches = [];
  pending_batches = [];
  detached = clear_all m.pending_batches ++ m.detached;
}
