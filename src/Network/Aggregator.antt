-- ===== src/Network/Aggregator.antt =====
-- network/Aggregator.ts: the primary node's answer to a query, completed by what other nodes know.
-- The streams that a query returns are numbered; their `data`, `end` and `error` are events, and
-- so is the completion of `database.store`. The queries issued and the messages stored are logged.
pub mod Ranges
pub mod Waiting
pub mod Ending
use logstore_node.Base.{
  ℕ, ◌+◌, Bool, true, false, not, ◌&&◌, ◌||◌, Option, none, some, List, [], ◌∷◌, ◌++◌, any, filter,
  ◌==◌, map, if◌then◌else◌, Text, Eq, text_eq, pos,
}
use logstore_node.Base.Collections.{get, put}
use logstore_node.Protocol.{MessageRefs, QueryRequest, QueryResponse}
use logstore_node.Database.{DatabaseQuery, RangeQuery, query_range}
use logstore_node.Network.InitialQuery.{initial_query, publisher_of, msg_chain_of}
use logstore_node.Network.AggregationList
use logstore_node.Network.AggregationList.{
  AggregationList, ready_from, ready_to, push_primary, push_foreign, push_propagation, shrink,
  is_empty,
}

-- The status of a foreign node.
pub record ForeignNode (refs : MessageRefs) : Type 0 where
  pub message_ref : Option refs.Ref
  pub is_finalized : Bool

pub record Aggregator (refs : MessageRefs) : Type 0 where
  pub query_request : QueryRequest
  pub foreign_node_responses : List (Text × ForeignNode refs)
  pub aggregation_list : AggregationList refs
  pub query_streams : List ℕ
  pub next_stream : ℕ
  pub first_query : DatabaseQuery refs
  pub issued : List (refs.Ref × refs.Ref)
  pub stored : List refs.Ref
  pub has_ended : Bool

module _ (refs : MessageRefs) where
  open refs use {Ref, timestamp, sequence_number}

  abbrev pub new_node : ForeignNode refs
  new_node = record { message_ref = none; is_finalized = false }

  -- The primary's own query is stream 0.
  unfoldable pub new_aggregator : QueryRequest → List Text → Aggregator refs
  new_aggregator request nodes = record {
    query_request = request;
    foreign_node_responses = map (λ node. (node, new_node)) nodes;
    aggregation_list = AggregationList.empty refs;
    query_streams = 0 ∷ [];
    next_stream = 1;
    first_query = initial_query refs request;
    issued = [];
    stored = [];
    has_ended = false;
  }

  abbrev pub is_silent : Text × ForeignNode refs → Bool
  is_silent (_, n) = not n.is_finalized && elim n.message_ref [ none ↦ true | some _ ↦ false ]

  unfoldable pub is_waiting_for_foreign_nodes : Aggregator refs → Bool
  is_waiting_for_foreign_nodes a = any is_silent a.foreign_node_responses

  abbrev pub has_no_streams : Aggregator refs → Bool
  has_no_streams a = elim a.query_streams [ [] ↦ true | _ ∷ _ ↦ false ]

  -- The query of a ready range.
  unfoldable pub range_query : QueryRequest → Ref → Ref → DatabaseQuery refs
  range_query r from to = query_range (record {
    stream_id = r.stream_id;
    partition = r.partition;
    from_timestamp = pos (timestamp from);
    from_sequence_no = pos (sequence_number from);
    to_timestamp = pos (timestamp to);
    to_sequence_no = pos (sequence_number to);
    publisher_id = publisher_of r.query_options;
    msg_chain_id = msg_chain_of r.query_options;
    limit = none;
  })

  -- A range is read by a new stream, and the list shrinks to its end.
  unfoldable pub issue : Aggregator refs → Ref → Ref → Aggregator refs
  issue a from to = record a {
    query_streams = a.query_streams ++ a.next_stream ∷ [];
    next_stream = a.next_stream + 1;
    issued = a.issued ++ (from, to) ∷ [];
    aggregation_list = shrink refs a.aggregation_list to;
  }

  unfoldable pub read_ready : Aggregator refs → Aggregator refs
  unfolding issue
  read_ready a = elim (ready_from refs a.aggregation_list) [
    | none ↦ a
    | some from ↦ elim (ready_to refs a.aggregation_list) [ none ↦ a | some to ↦ issue a from to ]
  ]

  unfoldable pub do_check : Aggregator refs → Aggregator refs
  unfolding is_waiting_for_foreign_nodes read_ready
  do_check a =
      if is_waiting_for_foreign_nodes a
      then a
      else if is_empty refs a.aggregation_list && has_no_streams a
      then record a { has_ended = true }
      else read_ready a

  -- `data` of the primary's query.
  unfoldable pub on_data : Aggregator refs → Ref → Aggregator refs
  unfolding do_check
  on_data a r = do_check (record a { aggregation_list = push_primary refs a.aggregation_list r })

  abbrev pub without_stream : Aggregator refs → ℕ → Aggregator refs
  without_stream a i = record a { query_streams = filter (λ j. not (j == i)) a.query_streams }

  -- `end` of the primary's query, or of the query of a range.
  unfoldable pub on_end : Aggregator refs → ℕ → Aggregator refs
  unfolding do_check
  on_end a i = do_check (without_stream a i)

  -- `error` of the primary's query.
  unfoldable pub on_error : Aggregator refs → Aggregator refs
  on_error a = without_stream a 0

  unfoldable pub get_or_create : Aggregator refs → Text → ForeignNode refs
  get_or_create a node = elim (get a.foreign_node_responses node) [ none ↦ new_node | some n ↦ n ]

  unfoldable pub push_all_foreign : AggregationList refs → List Ref → AggregationList refs
  push_all_foreign l [] = l
  push_all_foreign l (r ∷ rs) = push_all_foreign (push_foreign refs l r) rs

  -- The list and the node's status after a response, before the check.
  unfoldable pub take_response : Aggregator refs → Text → QueryResponse refs → Aggregator refs
  unfolding get_or_create push_all_foreign
  take_response a node response =
      let n = get_or_create a node in
      record a {
        foreign_node_responses =
            put a.foreign_node_responses node
              (record n { is_finalized = response.is_final || n.is_finalized });
        aggregation_list = push_all_foreign a.aggregation_list response.message_refs;
      }

  unfoldable pub on_foreign_response : Aggregator refs → Text → QueryResponse refs → Aggregator refs
  unfolding take_response do_check
  on_foreign_response a node response = do_check (take_response a node response)

  -- A propagation asks the database to store each message.
  unfoldable pub on_propagation : Aggregator refs → List Ref → Aggregator refs
  on_propagation a rs = record a { stored = a.stored ++ rs }

  -- `database.store` has stored one of them.
  unfoldable pub on_stored : Aggregator refs → Ref → Aggregator refs
  on_stored a r = record a { aggregation_list = push_propagation refs a.aggregation_list r }

  -- All messages of a propagation are stored.
  unfoldable pub on_all_stored : Aggregator refs → Aggregator refs
  unfolding do_check
  on_all_stored a = do_check a

  -- What the environment may do to an aggregator.
  pub data Event : Type 0 where
    primary_data : Ref → Event
    stream_end : ℕ → Event
    primary_error : Event
    foreign_response : Text → QueryResponse refs → Event
    propagation : List Ref → Event
    message_stored : Ref → Event
    propagation_stored : Event

  unfoldable pub handle : Aggregator refs → Event → Aggregator refs
  unfolding on_data on_end on_error on_foreign_response on_propagation on_stored on_all_stored
  handle a (primary_data r) = on_data a r
  handle a (stream_end i) = on_end a i
  handle a primary_error = on_error a
  handle a (foreign_response node response) = on_foreign_response a node response
  handle a (propagation rs) = on_propagation a rs
  handle a (message_stored r) = on_stored a r
  handle a propagation_stored = on_all_stored a

  unfoldable pub handle_all : Aggregator refs → List Event → Aggregator refs
  handle_all a [] = a
  handle_all a (e ∷ es) = handle_all (handle a e) es
