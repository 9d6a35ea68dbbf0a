-- ===== src/Database/Sqlite.antt =====
-- database/SQLiteDBAdapter.ts: one table of messages. The conversion of a message to its payload,
-- and of a row to its message, is left out: the answers are rows.
pub mod Ranges
pub mod Takes
pub mod Stored
use logstore_node.Base.{
  ℕ, zero, suc, ◌+◌, ◌≡◌, Bool, true, false, ◌&&◌, Option, none, some, List, [], ◌∷◌, ◌++◌, length,
  map, reverse, if◌then◌else◌, Text, ℤ, pos, negsuc, neg, eq_int, ◌==◌, ◌===◌, text_eq,
}
use logstore_node.Protocol.{MessageRefs}
use logstore_node.Database.{RangeQuery, min_sequence_number_value, max_sequence_number_value}
use logstore_node.Database.Sql.{
  NumberColumn, partition, ts, sequence_no, date_create, TextColumn, stream_id, publisher_id,
  msg_chain_id, bucket_id, Columns, Condition, always, number_is, text_is, both, either, equal,
  greater, at_least, less, at_most, Direction, ascending, descending, Select, Engine, Inserts,
}

-- The columns of stream_data.
pub record Row : Type 0 where
  pub stream_id : Text
  pub partition : ℕ
  pub ts : ℕ
  pub sequence_no : ℕ
  pub publisher_id : Text
  pub msg_chain_id : Text
  pub payload : List ℕ
  pub content_bytes : ℕ

-- A table without the columns of buckets shows them as zero and empty.
abbrev pub number_column : NumberColumn → Row → ℕ
number_column partition r = r.partition
number_column ts r = r.ts
number_column sequence_no r = r.sequence_no
number_column date_create r = 0

abbrev pub text_column : TextColumn → Row → Text
text_column stream_id r = r.stream_id
text_column publisher_id r = r.publisher_id
text_column msg_chain_id r = r.msg_chain_id
text_column bucket_id r = []

abbrev pub row_columns : Columns Row
row_columns = record { number = number_column; text = text_column }

abbrev pub between : NumberColumn → ℤ → ℤ → Condition
between c from to = both (number_is c at_least from) (number_is c at_most to)

-- `getTemporalConditionSlices`
unfoldable pub temporal_condition_slices : (from_ts from_seq to_ts to_seq : ℤ) → Condition
temporal_condition_slices from_ts from_seq to_ts to_seq =
    if eq_int from_seq (pos min_sequence_number_value)
      && eq_int to_seq (pos max_sequence_number_value)
    then between ts from_ts to_ts
    else if eq_int from_ts to_ts
    then both (number_is ts equal from_ts) (between sequence_no from_seq to_seq)
    else either (both (number_is ts equal from_ts) (number_is sequence_no at_least from_seq)) (
        either (both (number_is ts greater from_ts) (number_is ts less to_ts))
          (both (number_is ts equal to_ts) (number_is sequence_no at_most to_seq)))

-- `x ? eq(column, x) : undefined`
abbrev pub text_if_truthy : TextColumn → Option Text → Condition
text_if_truthy c none = always
text_if_truthy c (some []) = always
text_if_truthy c (some (x ∷ xs)) = text_is c (x ∷ xs)

-- `if (limit) { query = query.limit(limit); }`
abbrev pub truthy_limit : Option ℕ → Option ℕ
truthy_limit none = none
truthy_limit (some zero) = none
truthy_limit (some (suc n)) = some (suc n)

abbrev pub in_stream : Text → ℤ → Condition
in_stream stream p = both (text_is stream_id stream) (number_is partition equal p)

unfoldable pub range_select : RangeQuery → Select
unfolding temporal_condition_slices
range_select q = record {
  condition = both (in_stream q.stream_id q.partition) (
      both
        (temporal_condition_slices q.from_timestamp q.from_sequence_no q.to_timestamp
          q.to_sequence_no)
        (both (text_if_truthy publisher_id q.publisher_id)
          (text_if_truthy msg_chain_id q.msg_chain_id)));
  order_by = ts ∷ sequence_no ∷ [];
  direction = ascending;
  limit = truthy_limit q.limit;
}

-- `requestCount > 0 ? 'first' : 'last'`
abbrev pub request_direction : ℤ → Direction
request_direction (pos zero) = descending
request_direction (pos (suc n)) = ascending
request_direction (negsuc n) = descending

-- `Math.abs`
abbrev pub abs : ℤ → ℕ
abs (pos n) = n
abs (negsuc n) = suc n

-- The limit is passed on also where it is zero, as `LIMIT 0`.
unfoldable pub take_select : Text → ℤ → ℤ → Select
take_select stream p request_count = record {
  condition = in_stream stream p;
  order_by = ts ∷ sequence_no ∷ [];
  direction = request_direction request_count;
  limit = some (abs request_count);
}

-- `requestType === 'last' ? c.reverse() : c`
abbrev pub reverse_if_last : Direction → List Row → List Row
reverse_if_last ascending rows = rows
reverse_if_last descending rows = reverse rows

unfoldable pub ref_select : Text → ℤ → ℕ → ℕ → Select
ref_select stream p timestamp sequence_number = record {
  condition = both (in_stream stream p) (
      both (number_is ts equal (pos timestamp))
        (number_is sequence_no equal (pos sequence_number)));
  order_by = [];
  direction = ascending;
  limit = none;
}

module _ (engine : Engine Row row_columns) where
  open engine use {Table, select}

  unfoldable pub query_range : Table → RangeQuery → List Row
  query_range t q = select t (range_select q)

  unfoldable pub query_take : Table → Text → ℤ → ℤ → List Row
  query_take t stream p request_count =
      reverse_if_last (request_direction request_count)
        (select t (take_select stream p request_count))

  unfoldable pub query_last : Table → Text → ℤ → ℤ → List Row
  unfolding query_take
  query_last t stream p request_count = query_take t stream p (neg request_count)

  unfoldable pub query_first : Table → Text → ℤ → ℤ → List Row
  unfolding query_take
  query_first t stream p request_count = query_take t stream p request_count

  -- The answers to the references, in their order.
  unfoldable pub query_by_message_refs :
      (refs : MessageRefs) → Table → Text → ℤ → List refs.Ref → List Row
  query_by_message_refs refs t stream p [] = []
  query_by_message_refs refs t stream p (r ∷ rs) =
      select t (ref_select stream p (refs.timestamp r) (refs.sequence_number r))
      ++ query_by_message_refs refs t stream p rs

-- The record that `store` makes of a message with a payload.
unfoldable pub record_of : Text → ℕ → ℕ → ℕ → Text → Text → List ℕ → Row
record_of stream p timestamp sequence_number publisher chain payload = record {
  stream_id = stream;
  partition = p;
  ts = timestamp;
  sequence_no = sequence_number;
  publisher_id = publisher;
  msg_chain_id = chain;
  payload = payload;
  content_bytes = length payload;
}

-- The primary key `messageID` of the table.
abbrev pub same_message_id : Row → Row → Bool
same_message_id r s =
    r.stream_id === s.stream_id
    && (r.partition == s.partition
        && (r.ts == s.ts
            && (r.sequence_no == s.sequence_no
                && (r.publisher_id === s.publisher_id && r.msg_chain_id === s.msg_chain_id))))

module _ (engine : Engine Row row_columns) (inserts : Inserts engine same_message_id) where
  -- The table after a message, and the payload that the `write` event carries. `none`: the driver
  -- throws, and no event is emitted.
  unfoldable pub store : engine.Table → Row → Option (engine.Table × List ℕ)
  store t r = elim (inserts.insert t r) [ none ↦ none | some t' ↦ some (t', r.payload) ]
