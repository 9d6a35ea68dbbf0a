-- ===== src/LogStore.antt =====
-- packages/core/src/plugins/logStore/LogStore.ts and BaseQueryRequestManager.ts: how a query
-- request is read from the database, and the limit on what it reads; Registry, Listener: the streams of the
-- node and the messages that it stores.
pub mod Limit
pub mod Listener
pub mod Registry
use logstore_node.Base.{
  ℕ, ℤ, pos, negsuc, zero, suc, is_negative, neg, Bool, true, false, ◌&&◌, ◌||◌, not, Option, none,
  some, Text, if◌then◌else◌,
}
use logstore_node.Protocol.{
  MessageRefs, QueryOptions, QueryRequest, last_options, from_options, range_options,
}
use logstore_node.Database.{
  DatabaseQuery, query_last, query_first, query_range, min_sequence_number_value,
  max_sequence_number_value, max_timestamp_value,
}

-- A database query and the limit of the stream that it is piped through: none is `Infinity`, and
-- so is a query that is not piped.
pub record Reading (refs : MessageRefs) : Type 0 where
  pub query : DatabaseQuery refs
  pub message_limit : Option ℕ

-- `limit || Infinity`.
abbrev pub limit_or_infinity : Option ℕ → Option ℕ
limit_or_infinity none = none
limit_or_infinity (some zero) = none
limit_or_infinity (some (suc n)) = some (suc n)

-- `x || d` for a number that may be `undefined`.
abbrev pub number_or : Option ℤ → ℤ → ℤ
number_or none d = d
number_or (some (pos zero)) d = d
number_or (some (pos (suc n))) d = pos (suc n)
number_or (some (negsuc n)) d = negsuc n

-- `x !== undefined`.
abbrev pub is_defined : Option Text → Bool
is_defined none = false
is_defined (some _) = true

module _ (refs : MessageRefs) where
  unfoldable pub request_last : Text → ℤ → ℤ → Reading refs
  request_last stream_id partition count = record {
    query =
        if is_negative count
        then query_first stream_id partition (neg count)
        else query_last stream_id partition count;
    message_limit = none;
  }

  unfoldable pub request_from :
      Text → ℤ → (from_timestamp from_sequence_no : ℤ) → Option Text → Option ℕ → Reading refs
  request_from stream_id partition from_timestamp from_sequence_no publisher_id limit = record {
    query = query_range (record {
      stream_id = stream_id;
      partition = partition;
      from_timestamp = from_timestamp;
      from_sequence_no = from_sequence_no;
      to_timestamp = pos max_timestamp_value;
      to_sequence_no = pos max_sequence_number_value;
      publisher_id = publisher_id;
      msg_chain_id = none;
      limit = limit;
    });
    message_limit = limit_or_infinity limit;
  }

  -- None is the error that the method throws.
  unfoldable pub request_range :
      Text
      → ℤ
      → (from_timestamp from_sequence_no to_timestamp to_sequence_no : ℤ)
      → (publisher_id msg_chain_id : Option Text) → Option ℕ
      → Option (Reading refs)
  request_range stream_id partition from_timestamp from_sequence_no to_timestamp to_sequence_no
        publisher_id msg_chain_id limit =
      if not (
        is_defined publisher_id && is_defined msg_chain_id
        || not (is_defined publisher_id) && not (is_defined msg_chain_id))
      then none
      else some (record {
        query = query_range (record {
          stream_id = stream_id;
          partition = partition;
          from_timestamp = from_timestamp;
          from_sequence_no = from_sequence_no;
          to_timestamp = to_timestamp;
          to_sequence_no = to_sequence_no;
          publisher_id = publisher_id;
          msg_chain_id = msg_chain_id;
          limit = limit;
        });
        message_limit = limit_or_infinity limit;
      })

  read_options : Text → ℤ → QueryOptions → Option (Reading refs)
  unfolding request_last request_from request_range
  read_options stream_id partition (last_options last) =
      some (request_last stream_id partition last)
  read_options stream_id partition (from_options from publisher_id limit) = some (
      request_from stream_id partition from.timestamp
        (number_or from.sequence_number (pos min_sequence_number_value)) publisher_id limit)
  read_options stream_id partition (range_options from to publisher_id msg_chain_id limit) =
      request_range stream_id partition from.timestamp
        (number_or from.sequence_number (pos min_sequence_number_value)) to.timestamp
        (number_or to.sequence_number (pos max_sequence_number_value)) publisher_id msg_chain_id
        limit

  unfoldable pub get_data_for_query_request : QueryRequest → Option (Reading refs)
  unfolding read_options
  get_data_for_query_request r = read_options r.stream_id r.partition r.query_options
