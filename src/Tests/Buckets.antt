-- ===== src/Tests/Buckets.antt =====
-- Buckets in memory, with heaps that are lists with the latest first.
use logstore_node.Base.{
  ◌*◌, ◌+◌, length, pos, or_default, ℕ, ◌≤◌, ◌≡◌, refl, Bool, true, false, Option, none, some, List,
  [], ◌∷◌, Text, text_eq, text_number_eq, arith, any, leb, IsSorted,
}
use logstore_node.Base.Collections.{get, put, has_key, delete_key}
use logstore_node.Storage.Bucket
use logstore_node.Storage.Bucket.{Bucket}
use logstore_node.Storage.BucketManager.{
  Entry, BucketHeaps, IsLatestFirst, first, default_options, State, StreamPart, key_of, new_manager,
  get_bucket_id, find_bucket_id,
}
use logstore_node.Storage.BucketManager.Checks.{check_stream, insert_bucket}
use logstore_node.Storage.BucketManager.Registered.{entries_in}
use logstore_node.Storage.BucketManager.Runs.{IsWellFormed}
use logstore_node.Storage.BucketManager.Reachable.{
  IsReachable, started, asked, checked, IsReachable-IsWellFormed,
}
use logstore_node.Storage.Batch.{InsertRecord}
use logstore_node.Storage.PendingStores
use logstore_node.Storage.PendingStores.{
  Stores, stored, timed_out, held, handle_all, incoming, handle_all-held,
}
use logstore_node.Storage.BucketManager.Removal.{store_results}
use logstore_node.Storage.BucketManager.Created.{insert_bucket-found}
use logstore_node.Storage.BucketManager.Dropped.{IsKeptOrSaved, store_results-IsKeptOrSaved}
use logstore_node.Storage.BucketManager.Search.{is_before, get_bucket_id-key_of}
use logstore_node.Tests.Engines.{insert_sorted, count-insert_sorted, insert_sorted-IsSorted}
use logstore_node.Tests.Sample.{stream}

abbrev later : Entry → Entry → Bool
later a b = leb b.date_create a.date_create

latest_first : (es : List Entry) → IsSorted later es → IsLatestFirst es
latest_first [] h = tt
latest_first (e ∷ es) h = h.0

later_total : (a b : Entry) → later a b ≡ false → later b a ≡ true
later_total a b h = ground (arith, h)

later_trans : (a b c : Entry) → later a b ≡ true → later b c ≡ true → later a c ≡ true
later_trans a b c h k = ground (arith, h, k)

abbrev list_heaps : BucketHeaps
list_heaps = record {
  Heap = (es : List Entry) × IsSorted later es;
  empty = ([], tt);
  push = λ h e.
      (insert_sorted later e h.0, insert_sorted-IsSorted later later_total later_trans e h.0 h.1);
  peek = λ h. first h.0;
  to_array = λ h. h.0;
  to_array-empty = refl;
  to_array-push = λ h e p. count-insert_sorted later p e h.0;
  peek-to_array = λ h. refl;
  to_array-IsLatestFirst = λ h. latest_first h.0 h.1;
}

-- Two messages that come before there is a bucket.
abbrev waiting_state : State list_heaps
waiting_state =
    (get_bucket_id list_heaps
      (get_bucket_id list_heaps (new_manager list_heaps default_options) stream 0 20).0 stream 0
      10).0

abbrev nothing_stored : Text → ℕ → Option ℕ → List Bucket
nothing_stored stream_id partition timestamp = []

abbrev new_id : Text
new_id = 49 ∷ []

waiting-IsReachable : IsReachable list_heaps waiting_state
waiting-IsReachable =
    asked (get_bucket_id list_heaps (new_manager list_heaps default_options) stream 0 20).0 stream 0
      10 (asked (new_manager list_heaps default_options) stream 0 20 (started default_options))

-- The bucket that the check makes for them.
abbrev filled_state : State list_heaps
filled_state =
    or_default (check_stream list_heaps nothing_stored 0 new_id waiting_state (stream, 0))
      waiting_state

filled-IsReachable : IsReachable list_heaps filled_state
unfolding check_stream get_bucket_id has_key get new_manager put Bucket.new_bucket
filled-IsReachable =
    checked waiting_state filled_state (stream, 0) new_id nothing_stored 0 (λ t. tt) refl refl
      waiting-IsReachable

IsReachable-IsWellFormed_example : IsWellFormed list_heaps filled_state
IsReachable-IsWellFormed_example =
    IsReachable-IsWellFormed list_heaps filled_state filled-IsReachable

get_bucket_id-key_of_example :
    ((id : Text)
      → (get_bucket_id list_heaps filled_state stream 0 30).1 ≡ some id
      → ((b : Bucket) × (get filled_state.buckets id ≡ some b) × (key_of b ≡ (stream, 0)))
        × (any (is_before id 30) (entries_in list_heaps (get filled_state.stream_parts (stream, 0)))
            ≡ true))
    × ((get_bucket_id list_heaps filled_state stream 0 30).1 ≡ none
        → (part : StreamPart list_heaps) × (m : ℕ) × (get
              (get_bucket_id list_heaps filled_state stream 0 30).0.stream_parts
              (stream, 0)
            ≡ some part)
          × (part.min_timestamp ≡ some m)
          × (m ≤ 30))
get_bucket_id-key_of_example =
    get_bucket_id-key_of list_heaps filled_state stream 0 30
      (IsReachable-IsWellFormed list_heaps filled_state filled-IsReachable).0

abbrev new_bucket_row : Bucket
new_bucket_row = record {
  id = new_id;
  stream_id = stream;
  partition = pos 0;
  size = 0;
  records = 0;
  date_create = 10;
  max_size = 1024 * 1024 * 100;
  max_record_count = 500 * 1000;
  keep_alive_seconds = 60;
  ttl = 60000;
  stored = false;
}

new_bucket_found : get filled_state.buckets new_id ≡ some new_bucket_row
unfolding check_stream get_bucket_id has_key get new_manager put Bucket.new_bucket
new_bucket_found = refl

-- A minute later its upsert has settled.
store_results-IsKeptOrSaved_example :
    IsKeptOrSaved 70000 new_id new_bucket_row
      ((new_id, 0) ∷ [])
      (get (store_results list_heaps 70000 filled_state ((new_id, 0) ∷ [])).buckets new_id)
store_results-IsKeptOrSaved_example =
    store_results-IsKeptOrSaved list_heaps 70000 filled_state ((new_id, 0) ∷ []) new_id
      new_bucket_row (IsReachable-IsWellFormed list_heaps filled_state filled-IsReachable)
      new_bucket_found

-- Two messages that come before there is a bucket, one of which is tried again.
abbrev no_stores : Stores list_heaps
no_stores = record {
  manager = new_manager list_heaps default_options;
  pending_stores = [];
  handed = [];
}

abbrev message_at : ℕ → InsertRecord
message_at timestamp = record {
  stream_id = stream;
  partition = 0;
  timestamp = timestamp;
  sequence_no = 0;
  publisher_id = new_id;
  msg_chain_id = [];
  payload = 1 ∷ [];
}

abbrev store_events : List (PendingStores.Event list_heaps)
store_events = stored 1 (message_at 20) 0 ∷ stored 2 (message_at 10) 1 ∷ timed_out 1 3 500 ∷ []

abbrev payload_size : InsertRecord → ℕ
payload_size r = length r.payload

handle_all-held_example :
    held list_heaps payload_size (handle_all list_heaps no_stores store_events)
    ≡ held list_heaps payload_size no_stores + incoming list_heaps payload_size store_events
unfolding PendingStores.handle PendingStores.store PendingStores.on_timeout get put delete_key
    get_bucket_id new_manager
handle_all-held_example =
    handle_all-held list_heaps payload_size no_stores store_events (refl, (refl, (refl, tt))) tt

-- The part of the stream whose messages wait, with no bucket yet.
abbrev waiting_part : StreamPart list_heaps
waiting_part = record {
  stream_id = stream;
  partition = 0;
  buckets = list_heaps.empty;
  min_timestamp = some 10;
}

waiting_found : get waiting_state.stream_parts (stream, 0) ≡ some waiting_part
unfolding get_bucket_id get put new_manager
waiting_found = refl

insert_bucket-found_example :
    (s' : State list_heaps) × (id : Text) × (insert_bucket list_heaps nothing_stored 0
        (49 ∷ [])
        waiting_state
        (115 ∷ [], 0)
        10
      ≡ some s')
    × (find_bucket_id list_heaps s' (115 ∷ [], 0) 10 ≡ some id)
unfolding get_bucket_id get put new_manager
insert_bucket-found_example =
    insert_bucket-found list_heaps nothing_stored 0 waiting_state 115 49 0 10 [] [] waiting_part
      waiting_found refl (omega arith) (omega arith) (omega arith)
