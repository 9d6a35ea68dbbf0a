-- ===== src/Tests/Databases.antt =====
-- Queries of the two adapters.
use logstore_node.Base.{
  ◌⊎◌, ◌<◌, leb, ◌-◌, ℕ, ◌≤◌, ◌≡◌, refl, Bool, true, false, none, some, List, [], ◌∷◌, Text,
  text_eq, arith, filter, any, pos, take, drop, length, map, SameElements, IsSorted, All,
}
use logstore_node.Database.{RangeQuery, max_sequence_number_value}
use logstore_node.Database.Sql.{ts, sequence_no, in_order, limited}
use logstore_node.Database.Sqlite
use logstore_node.Database.Sqlite.{
  Row, row_columns, record_of, same_message_id, truthy_limit, query_first, query_last, store,
  query_by_message_refs,
}
use logstore_node.Database.Sqlite.Ranges
use logstore_node.Database.Sqlite.Ranges.{query_range_lem}
use logstore_node.Database.Sqlite.Takes.{IsListing, query_first-query_last}
use logstore_node.Database.Sqlite.Stored.{store-query_by_message_refs}
use logstore_node.Database.Cassandra.{
  StreamRow, BucketRow, stream_columns, bucket_columns, range_statements, answers, collect_buckets,
  get_buckets_by_timestamp,
}
use logstore_node.Database.Cassandra.Ranges.{answers-range_statements, is_asked}
use logstore_node.Database.Cassandra.Buckets.{is_dated, get_buckets_by_timestamp-is_dated}
use logstore_node.Database.Cassandra.Pages.{Collected, collect_buckets-Collected}
use logstore_node.Database.Cassandra.Connection.{Attempts, start-Attempts, start, nb_trials}
use logstore_node.Tests.Engines.{list_engine, list_inserts}
use logstore_node.Tests.Sample.{refs, ref, alice, stream}

abbrev row : ℕ → ℕ → Row
row timestamp sequence_number = record {
  stream_id = stream;
  partition = 0;
  ts = timestamp;
  sequence_no = sequence_number;
  publisher_id = alice;
  msg_chain_id = [];
  payload = timestamp ∷ [];
  content_bytes = 1;
}

abbrev table : List Row
table = row 30 0 ∷ row 10 5 ∷ row 20 0 ∷ row 10 2 ∷ row 20 7 ∷ []

-- From (10, 3) to (20, 5).
abbrev range : RangeQuery
range = record {
  stream_id = stream;
  partition = pos 0;
  from_timestamp = pos 10;
  from_sequence_no = pos 3;
  to_timestamp = pos 20;
  to_sequence_no = pos 5;
  publisher_id = none;
  msg_chain_id = none;
  limit = none;
}

abbrev small_numbers : All (λ (r : Row). r.sequence_no ≤ max_sequence_number_value) table
small_numbers = (omega arith, (omega arith, (omega arith, (omega arith, (omega arith, tt)))))

query_range_lem_example :
    (full : List Row) × IsSorted (in_order row_columns (ts ∷ sequence_no ∷ [])) full
    × SameElements full (filter (Ranges.is_asked range) table)
    × (Sqlite.query_range (list_engine row_columns) table range ≡ limited (truthy_limit none) full)
query_range_lem_example = query_range_lem (list_engine row_columns) table range refl small_numbers

query_first-query_last_example :
    ((full : List Row) × IsListing (list_engine row_columns) table stream (pos 0) full
      × (query_first (list_engine row_columns) table stream (pos 0) (pos 2) ≡ take 2 full))
    × ((full : List Row) × IsListing (list_engine row_columns) table stream (pos 0) full
        × (query_last (list_engine row_columns) table stream (pos 0) (pos 2)
            ≡ drop (length full - 2) full))
query_first-query_last_example =
    query_first-query_last (list_engine row_columns) table stream (pos 0) 2

-- The message (15, 0).
abbrev new_row : Row
new_row = record_of stream 0 15 0 alice [] (15 ∷ [])

store-query_by_message_refs_example :
    (any (same_message_id new_row) table ≡ false
      → (t' : List Row) × (store
            (list_engine row_columns)
            (list_inserts row_columns same_message_id)
            table
            new_row
          ≡ some (t', 15 ∷ []))
        × SameElements
            (query_by_message_refs (list_engine row_columns) refs t' stream (pos 0) (ref 15 ∷ []))
            (new_row
              ∷ query_by_message_refs
                  (list_engine row_columns)
                  refs
                  table
                  stream
                  (pos 0)
                  (ref 15 ∷ [])))
    × (any (same_message_id new_row) table ≡ true
        → store (list_engine row_columns) (list_inserts row_columns same_message_id) table new_row
          ≡ none)
store-query_by_message_refs_example =
    store-query_by_message_refs (list_engine row_columns) (list_inserts row_columns same_message_id)
      refs table stream 0 (ref 15) alice [] (15 ∷ [])

abbrev bucket_row : Text → ℕ → BucketRow
bucket_row id date = record {
  id = id;
  stream = stream;
  part = 0;
  date = date;
  records = 2;
  size = 2;
}

abbrev first_bucket : Text
first_bucket = 49 ∷ []

abbrev second_bucket : Text
second_bucket = 50 ∷ []

abbrev bucket_rows : List BucketRow
bucket_rows = bucket_row second_bucket 20 ∷ bucket_row first_bucket 5 ∷ []

abbrev stream_row : Text → ℕ → ℕ → StreamRow
stream_row id timestamp sequence_number = record {
  bucket = id;
  record_ = record {
    stream_id = stream;
    partition = 0;
    timestamp = timestamp;
    sequence_no = sequence_number;
    publisher_id = alice;
    msg_chain_id = [];
    payload = [];
  };
}

abbrev stream_rows : List StreamRow
stream_rows =
    stream_row first_bucket 10 2 ∷ stream_row first_bucket 10 5 ∷ stream_row second_bucket 20 0 ∷ []

abbrev small_stream_numbers :
    All (λ (r : StreamRow). r.record_.sequence_no ≤ max_sequence_number_value) stream_rows
small_stream_numbers = (omega arith, (omega arith, (omega arith, tt)))

answers-range_statements_example :
    SameElements
      (answers
        (list_engine bucket_columns)
        (list_engine stream_columns)
        stream_rows
        (range_statements range (first_bucket ∷ second_bucket ∷ [])))
      (filter (is_asked range (first_bucket ∷ second_bucket ∷ [])) stream_rows)
answers-range_statements_example =
    answers-range_statements (list_engine bucket_columns) (list_engine stream_columns) stream_rows
      range (first_bucket ∷ second_bucket ∷ []) refl small_stream_numbers refl

get_buckets_by_timestamp-is_dated_example :
    (found : List BucketRow) × (get_buckets_by_timestamp
        (list_engine bucket_columns)
        bucket_rows
        stream
        (pos 0)
        (some (pos 10))
        (some (pos 30))
      ≡ some found)
    × (any (is_dated stream (pos 0) 5) found ≡ true)
get_buckets_by_timestamp-is_dated_example =
    get_buckets_by_timestamp-is_dated (list_engine bucket_columns) bucket_rows stream (pos 0) 5 12
      10 30 (omega arith) (omega arith) (omega arith) refl refl

abbrev two_each : Text → ℕ
two_each id = 2

collect_buckets-Collected_example :
    (k : ℕ) × (collect_buckets two_each 3 0 []
        (map (λ id. id ∷ []) (second_bucket ∷ first_bucket ∷ first_bucket ∷ []))
      ≡ take k (second_bucket ∷ first_bucket ∷ first_bucket ∷ []))
    × ((0 < k) ⊎ (second_bucket ∷ first_bucket ∷ first_bucket ∷ [] ≡ []))
    × Collected two_each 3 0 (second_bucket ∷ first_bucket ∷ first_bucket ∷ []) k
collect_buckets-Collected_example =
    collect_buckets-Collected two_each 3 (second_bucket ∷ first_bucket ∷ first_bucket ∷ [])

-- The third attempt is the first that connects.
abbrev from_third : ℕ → Bool
from_third n = leb 2 n

start-Attempts_example : Attempts nb_trials from_third 0 (start from_third)
start-Attempts_example = start-Attempts from_third
