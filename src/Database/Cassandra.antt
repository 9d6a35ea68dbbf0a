-- ===== src/Database/Cassandra.antt =====
-- database/CassandraDBAdapter.ts: the statements on the tables stream_data and bucket. The rows of a
-- stream are read through the buckets that may hold them.
pub mod Ranges
pub mod Buckets
pub mod Pages
pub mod Connection
use logstore_node.Base.{
  ℕ, zero, suc, ◌+◌, ◌≡◌, Bool, true, false, ◌&&◌, ◌||◌, not, Option, none, some, List, [], ◌∷◌,
  ◌++◌, length, map, reverse, min, if◌then◌else◌, Text, ℤ, pos, negsuc, neg, eq_int, ltb,
  is_negative,
}
use logstore_node.Database.{RangeQuery, min_sequence_number_value, max_sequence_number_value}
use logstore_node.Database.Sql.{
  NumberColumn, partition, ts, sequence_no, date_create, TextColumn, stream_id, publisher_id,
  msg_chain_id, bucket_id, Columns, Condition, always, number_is, text_is, text_in, both, equal,
  greater, at_least, less, at_most, Direction, ascending, descending, Select, Engine,
}
use logstore_node.Database.Sqlite.{in_stream, text_if_truthy, truthy_limit, request_direction, abs}
use logstore_node.Storage.Batch.{InsertRecord}

abbrev pub max_resend_last : ℕ
max_resend_last = 10000

-- A row of stream_data.
pub record StreamRow : Type 0 where
  pub bucket : Text
  pub record_ : InsertRecord

-- A row of bucket.
pub record BucketRow : Type 0 where
  pub id : Text
  pub stream : Text
  pub part : ℕ
  pub date : ℕ
  pub records : ℕ
  pub size : ℕ

-- A table without one of the columns shows it as zero or empty.
abbrev pub stream_number : NumberColumn → StreamRow → ℕ
stream_number partition r = r.record_.partition
stream_number ts r = r.record_.timestamp
stream_number sequence_no r = r.record_.sequence_no
stream_number date_create r = 0

abbrev pub stream_text : TextColumn → StreamRow → Text
stream_text stream_id r = r.record_.stream_id
stream_text publisher_id r = r.record_.publisher_id
stream_text msg_chain_id r = r.record_.msg_chain_id
stream_text bucket_id r = r.bucket

abbrev pub stream_columns : Columns StreamRow
stream_columns = record { number = stream_number; text = stream_text }

abbrev pub bucket_number : NumberColumn → BucketRow → ℕ
bucket_number partition r = r.part
bucket_number date_create r = r.date
bucket_number ts r = 0
bucket_number sequence_no r = 0

abbrev pub bucket_text : TextColumn → BucketRow → Text
bucket_text stream_id r = r.stream
bucket_text bucket_id r = r.id
bucket_text publisher_id r = []
bucket_text msg_chain_id r = []

abbrev pub bucket_columns : Columns BucketRow
bucket_columns = record { number = bucket_number; text = bucket_text }

-- The conditions on time of the one or three statements of a range.
unfoldable pub range_conditions : (from_ts from_seq to_ts to_seq : ℤ) → List Condition
range_conditions from_ts from_seq to_ts to_seq =
    if eq_int from_seq (pos min_sequence_number_value)
      && eq_int to_seq (pos max_sequence_number_value)
    then both (number_is ts at_least from_ts) (number_is ts at_most to_ts) ∷ []
    else if eq_int from_ts to_ts
    then both (number_is ts equal from_ts)
        (both (number_is sequence_no at_least from_seq) (number_is sequence_no at_most to_seq))
      ∷ []
    else both (number_is ts equal from_ts) (number_is sequence_no at_least from_seq)
      ∷ both (number_is ts greater from_ts) (number_is ts less to_ts)
      ∷ both (number_is ts equal to_ts) (number_is sequence_no at_most to_seq)
      ∷ []

-- A statement of a range: the stream, the buckets, the time, the options and the limit. Its rows
-- come in the order of the table.
unfoldable pub range_statement : RangeQuery → List Text → Condition → Select
range_statement q bucket_ids time = record {
  condition = both (both (in_stream q.stream_id q.partition) (text_in bucket_id bucket_ids)) (
      both time (
        both (text_if_truthy publisher_id q.publisher_id)
          (text_if_truthy msg_chain_id q.msg_chain_id)));
  order_by = [];
  direction = ascending;
  limit = truthy_limit q.limit;
}

unfoldable pub range_statements : RangeQuery → List Text → List Select
unfolding range_conditions range_statement
range_statements q bucket_ids =
    map (range_statement q bucket_ids)
      (range_conditions q.from_timestamp q.from_sequence_no q.to_timestamp q.to_sequence_no)

abbrev pub buckets_to_ids : List BucketRow → List Text
buckets_to_ids buckets = map (λ (b : BucketRow). b.id) buckets

-- `getExplicitFirst`: the latest bucket that is not after a timestamp.
unfoldable pub explicit_first : Text → ℤ → ℤ → Select
explicit_first stream p from_ts = record {
  condition = both (in_stream stream p) (number_is date_create at_most from_ts);
  order_by = date_create ∷ [];
  direction = descending;
  limit = some 1;
}

-- The conditions on the date of `getRest`. `none` is the TypeError.
abbrev pub rest_dates : (from_ts to_ts : Option ℤ) → Option Condition
rest_dates (some from_ts) (some to_ts) =
    some (both (number_is date_create greater from_ts) (number_is date_create at_most to_ts))
rest_dates (some from_ts) none = some (number_is date_create greater from_ts)
rest_dates none (some to_ts) = some (number_is date_create at_most to_ts)
rest_dates none none = none

unfoldable pub rest_select : Text → ℤ → Condition → Select
rest_select stream p dates = record {
  condition = both (in_stream stream p) dates;
  order_by = date_create ∷ [];
  direction = descending;
  limit = none;
}

-- `if (timestamp)`
abbrev pub dates_to : Option ℤ → Condition
dates_to none = always
dates_to (some (pos zero)) = always
dates_to (some (pos (suc n))) = number_is date_create at_most (pos (suc n))
dates_to (some (negsuc n)) = number_is date_create at_most (negsuc n)

unfoldable pub last_buckets_select : Text → ℤ → ℕ → Option ℤ → Select
last_buckets_select stream p limit timestamp = record {
  condition = both (in_stream stream p) (dates_to timestamp);
  order_by = date_create ∷ [];
  direction = descending;
  limit = some limit;
}

-- `GET_N_MESSAGES`
unfoldable pub take_select : Text → ℤ → List Text → ℤ → Select
take_select stream p bucket_ids request_count = record {
  condition = both (in_stream stream p) (text_in bucket_id bucket_ids);
  order_by = ts ∷ sequence_no ∷ [];
  direction = request_direction request_count;
  limit = some (min (abs request_count) max_resend_last);
}

-- The pages of bucket ids are read until the counted messages are enough, or the pages are over. A
-- page is counted by the last bucket so far; without one the search ends.
unfoldable pub collect_buckets : (Text → ℕ) → ℕ → ℕ → List Text → List (List Text) → List Text
collect_buckets count_messages limit total ids [] = ids
collect_buckets count_messages limit total ids (page ∷ pages) = elim (reverse (ids ++ page)) [
  | [] ↦ []
  | id ∷ _ ↦
      let total' = total + count_messages id in
      let rest = collect_buckets count_messages limit total' (ids ++ page) pages in
      if ltb total' limit && ltb total' max_resend_last then rest else ids ++ page
]

module _ (buckets : Engine BucketRow bucket_columns) where
  unfoldable pub get_buckets_by_timestamp :
      buckets.Table → Text → ℤ → (from_ts to_ts : Option ℤ) → Option (List BucketRow)
  get_buckets_by_timestamp t stream p from_ts to_ts = elim (rest_dates from_ts to_ts) [
    | none ↦ none
    | some dates ↦ some (
        buckets.select t (rest_select stream p dates)
        ++ elim from_ts [ none ↦ [] | some from ↦ buckets.select t (explicit_first stream p from) ])
  ]

  unfoldable pub get_last_buckets : buckets.Table → Text → ℤ → ℕ → Option ℤ → List BucketRow
  get_last_buckets t stream p limit timestamp =
      buckets.select t (last_buckets_select stream p limit timestamp)

  module _ (messages : Engine StreamRow stream_columns) where
    -- The answers of the statements, one after the other (`merge2`).
    unfoldable pub answers : messages.Table → List Select → List StreamRow
    answers t [] = []
    answers t (q ∷ qs) = messages.select t q ++ answers t qs

    -- The timestamps are given, so the buckets are found without an error. Without buckets the
    -- stream ends at once.
    unfoldable pub query_range : buckets.Table → messages.Table → RangeQuery → List StreamRow
    unfolding range_statements answers
    query_range bt mt q =
        elim (get_buckets_by_timestamp bt q.stream_id q.partition (some q.from_timestamp)
          (some q.to_timestamp)) [
            | none ↦ []
            | some [] ↦ []
            | some (b ∷ bs) ↦ answers mt (range_statements q (buckets_to_ids (b ∷ bs)))
          ]

    -- The pages are those of the bucket table, in its order.
    unfoldable pub query_take : messages.Table → List (List Text) → Text → ℤ → ℤ → List StreamRow
    unfolding collect_buckets
    query_take mt pages stream p request_count =
        let counted = λ (id : Text). length (
          messages.select mt (record {
            condition = both (in_stream stream p) (text_is bucket_id id);
            order_by = [];
            direction = ascending;
            limit = none;
          })) in
        let ids = collect_buckets counted (min (abs request_count) max_resend_last) 0 [] pages in
        let found = messages.select mt (take_select stream p ids request_count) in
        elim ids [
          | [] ↦ []
          | _ ∷ _ ↦ elim (request_direction request_count) [
            | ascending ↦ found
            | descending ↦ reverse found
          ]
        ]

    -- `none` is the error of a negative count.
    unfoldable pub query_last :
        messages.Table → List (List Text) → Text → ℤ → ℤ → Option (List StreamRow)
    query_last mt pages stream p request_count =
        if is_negative request_count
        then none
        else some (query_take mt pages stream p (neg request_count))

    unfoldable pub query_first :
        messages.Table → List (List Text) → Text → ℤ → ℤ → Option (List StreamRow)
    query_first mt pages stream p request_count =
        if is_negative request_count
        then none
        else some (query_take mt pages stream p request_count)
