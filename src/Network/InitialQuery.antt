-- ===== src/Network/InitialQuery.antt =====
-- The query with which an Aggregator and a Propagator read the local database (the `switch` in
-- the constructors of network/Aggregator.ts and network/Propagator.ts).
use logstore_node.Base.{ℤ, Option, none, Text, or_default, pos}
use logstore_node.Protocol.{
  MessageRefs, QueryOptions, QueryRequest, last_options, from_options, range_options,
}
use logstore_node.Database.{
  DatabaseQuery, query_last, query_range, min_sequence_number_value, max_sequence_number_value,
  max_timestamp_value,
}

module _ (refs : MessageRefs) where
  query_of_options : Text → ℤ → QueryOptions → DatabaseQuery refs
  query_of_options stream_id partition (last_options last) = query_last stream_id partition last
  query_of_options stream_id partition (from_options from publisher_id limit) =
      query_range (record {
        stream_id = stream_id;
        partition = partition;
        from_timestamp = from.timestamp;
        from_sequence_no = or_default from.sequence_number (pos min_sequence_number_value);
        to_timestamp = pos max_timestamp_value;
        to_sequence_no = pos max_sequence_number_value;
        publisher_id = publisher_id;
        msg_chain_id = none;
        limit = none;
      })
  query_of_options stream_id partition (range_options from to publisher_id msg_chain_id limit) =
      query_range (record {
        stream_id = stream_id;
        partition = partition;
        from_timestamp = from.timestamp;
        from_sequence_no = or_default from.sequence_number (pos min_sequence_number_value);
        to_timestamp = to.timestamp;
        to_sequence_no = or_default to.sequence_number (pos max_sequence_number_value);
        publisher_id = publisher_id;
        msg_chain_id = msg_chain_id;
        limit = none;
      })

  unfoldable pub initial_query : QueryRequest → DatabaseQuery refs
  unfolding query_of_options
  initial_query r = query_of_options r.stream_id r.partition r.query_options

-- `queryOptions.publisherId` and `queryOptions.msgChainId`, which only some options have.
abbrev pub publisher_of : QueryOptions → Option Text
publisher_of (last_options _) = none
publisher_of (from_options _ publisher_id _) = publisher_id
publisher_of (range_options _ _ publisher_id _ _) = publisher_id

abbrev pub msg_chain_of : QueryOptions → Option Text
msg_chain_of (last_options _) = none
msg_chain_of (from_options _ _ _) = none
msg_chain_of (range_options _ _ _ msg_chain_id _) = msg_chain_id
