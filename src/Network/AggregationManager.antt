-- ===== src/Network/AggregationManager.antt =====
-- network/AggregationManager.ts: the aggregators of the node's own queries, by request id. A
-- message on the system stream is its sender and its content.
pub mod Routing
use logstore_node.Base.{
  Bool, true, Option, none, some, List, [], ◌∷◌, if◌then◌else◌, Text, ◌===◌, text_eq,
}
use logstore_node.Base.Collections.{get, put, delete_key}
use logstore_node.Protocol.{
  MessageRefs, QueryRequest, QueryResponse, QueryPropagate, SystemMessage, request_message,
  response_message, propagate_message, other_message,
}
use logstore_node.Network.Aggregator.{
  Aggregator, new_aggregator, on_foreign_response, on_propagation,
}

pub record AggregationManager (refs : MessageRefs) : Type 0 where
  pub client_id : Text
  pub aggregators : List (Text × Aggregator refs)

module _ (refs : MessageRefs) where
  open refs use {Ref}

  unfoldable pub new_manager : Text → AggregationManager refs
  new_manager client_id = record { client_id = client_id; aggregators = [] }

  -- The map after a change of the aggregator of a request, where there is one.
  unfoldable pub update :
      AggregationManager refs → Text → (Aggregator refs → Aggregator refs) → AggregationManager refs
  update m id f = elim (get m.aggregators id) [
    | none ↦ m
    | some a ↦ record m { aggregators = put m.aggregators id (f a) }
  ]

  unfoldable pub on_query_response :
      AggregationManager refs → Text → QueryResponse refs → AggregationManager refs
  unfolding update
  on_query_response m sender response =
      update m response.request_id (λ a. on_foreign_response refs a sender response)

  unfoldable pub on_query_propagate :
      AggregationManager refs → Text → QueryPropagate refs → AggregationManager refs
  unfolding update
  on_query_propagate m sender propagate =
      update m propagate.request_id (λ a. on_propagation refs a propagate.payload)

  -- `switch (systemMessage.messageType)`.
  unfoldable pub dispatch :
      AggregationManager refs → Text → SystemMessage refs → AggregationManager refs
  unfolding on_query_response on_query_propagate
  dispatch m sender (response_message response) = on_query_response m sender response
  dispatch m sender (propagate_message propagate) = on_query_propagate m sender propagate
  dispatch m sender (request_message _) = m
  dispatch m sender other_message = m

  unfoldable pub on_message :
      AggregationManager refs → Text × SystemMessage refs → AggregationManager refs
  unfolding dispatch
  on_message m (sender, message) = if sender === m.client_id then m else dispatch m sender message

  -- The node's own answer to a query, published as it reads.
  unfoldable pub response_of :
      AggregationManager refs → QueryRequest → List Ref → Bool → QueryResponse refs
  response_of m request message_refs is_final = record {
    request_id = request.request_id;
    request_publisher_id = m.client_id;
    message_refs = message_refs;
    is_final = is_final;
  }

  unfoldable pub aggregate :
      AggregationManager refs → QueryRequest → List Text → AggregationManager refs
  aggregate m request online_nodes = record m {
    aggregators = put m.aggregators request.request_id (new_aggregator refs request online_nodes);
  }

  -- `close` of an aggregator.
  unfoldable pub on_close : AggregationManager refs → Text → AggregationManager refs
  on_close m id = record m { aggregators = delete_key m.aggregators id }

  unfoldable pub on_messages :
      AggregationManager refs → List (Text × SystemMessage refs) → AggregationManager refs
  unfolding on_message
  on_messages m [] = m
  on_messages m (x ∷ xs) = on_messages (on_message m x) xs
