-- ===== src/Network/PropagationManager.antt =====
-- network/PropagationManager.ts: the propagators of other nodes' queries, by request id.
pub mod Authority
use logstore_node.Base.{
  Bool, true, Option, none, some, List, [], ◌∷◌, if◌then◌else◌, Text, ◌===◌, text_eq,
}
use logstore_node.Base.Collections.{get, put, delete_key}
use logstore_node.Protocol.{
  MessageRefs, QueryRequest, QueryResponse, QueryPropagate, SystemMessage, request_message,
  response_message, propagate_message, other_message,
}
use logstore_node.Network.Propagator.{Propagator, new_propagator, on_primary_response}

pub record PropagationManager (refs : MessageRefs) : Type 0 where
  pub client_id : Text
  pub propagators : List (Text × Propagator refs)

module _ (refs : MessageRefs) where
  open refs use {Ref}

  unfoldable pub new_manager : Text → PropagationManager refs
  new_manager client_id = record { client_id = client_id; propagators = [] }

  unfoldable pub on_query_request : PropagationManager refs → QueryRequest → PropagationManager refs
  on_query_request m request = record m {
    propagators = put m.propagators request.request_id (new_propagator refs request);
  }

  -- Only a response whose sender says that the query is its own is the primary's.
  unfoldable pub on_query_response :
      PropagationManager refs → Text → QueryResponse refs → PropagationManager refs
  on_query_response m sender response =
      if response.request_publisher_id === sender
      then elim (get m.propagators response.request_id) [
        | none ↦ m
        | some p ↦ record m {
          propagators = put m.propagators response.request_id (on_primary_response refs p response);
        }
      ]
      else m

  unfoldable pub dispatch :
      PropagationManager refs → Text → SystemMessage refs → PropagationManager refs
  unfolding on_query_request on_query_response
  dispatch m sender (request_message request) = on_query_request m request
  dispatch m sender (response_message response) = on_query_response m sender response
  dispatch m sender (propagate_message _) = m
  dispatch m sender other_message = m

  unfoldable pub on_message :
      PropagationManager refs → Text × SystemMessage refs → PropagationManager refs
  unfolding dispatch
  on_message m (sender, message) = if sender === m.client_id then m else dispatch m sender message

  -- The response published as the node reads, in the name of the request's publisher.
  unfoldable pub response_of : Text → QueryRequest → List Ref → Bool → QueryResponse refs
  response_of request_publisher request message_refs is_final = record {
    request_id = request.request_id;
    request_publisher_id = request_publisher;
    message_refs = message_refs;
    is_final = is_final;
  }

  -- The propagation of some messages, likewise.
  unfoldable pub propagate_of : Text → QueryRequest → List Ref → QueryPropagate refs
  propagate_of request_publisher request payload = record {
    request_id = request.request_id;
    request_publisher_id = request_publisher;
    payload = payload;
  }

  -- The close callback of a propagator.
  unfoldable pub on_close : PropagationManager refs → Text → PropagationManager refs
  on_close m id = record m { propagators = delete_key m.propagators id }
