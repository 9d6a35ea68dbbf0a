-- ===== src/Network/PropagationManager/Authority.antt =====
-- Whose responses a propagator takes for the primary's: the responses as the two managers publish
-- them, on their way through the system stream.
use logstore_node.Base.{
  ◌≡◌, ◌≢◌, refl, ◌∙◌, Bool, true, false, Option, none, some, List, if◌then◌else◌, Text, ◌===◌,
  text_eq, arith, Bool-cases, Option-cases, inl, inr, text_beq_iff,
}
use logstore_node.Base.Collections.{get, get-put}
use logstore_node.Protocol.{MessageRefs, QueryRequest, QueryResponse, response_message}
use logstore_node.Network.Propagator.{Propagator, on_primary_response}
use logstore_node.Network.AggregationManager
use logstore_node.Network.AggregationManager.{AggregationManager}
use logstore_node.Network.PropagationManager.{
  PropagationManager, on_message, dispatch, on_query_response, response_of,
}

module _ (refs : MessageRefs) where
  open refs use {Ref}

  ===-refuted : (a b : Text) → a ≢ b → (a === b) ≡ false
  ===-refuted a b h = ground (arith, text_beq_iff a b)

  ===-self : (a : Text) → (a === a) ≡ true
  ===-self a = (text_beq_iff a a).1 refl

  -- The propagator of a request after a response of the primary, where there is one.
  abbrev pub after_response :
      Option (Propagator refs) → QueryResponse refs → Option (Propagator refs)
  after_response none response = none
  after_response (some p) response = some (on_primary_response refs p response)

  get-accepted :
      (m : PropagationManager refs) (sender : Text) (r : QueryResponse refs) (id : Text)
      → (r.request_publisher_id === sender) ≡ true
      → get (on_query_response refs m sender r).propagators id ≡ (
          if r.request_id === id
          then after_response (get m.propagators id) r
          else get m.propagators id)
  unfolding on_query_response get
  get-accepted m sender r id s = elim (Option-cases (get m.propagators r.request_id)) [
    | inl e ↦ elim (Bool-cases (r.request_id === id)) [
      | inl h ↦
          rw (on_query_response, s, e, h) (ground (arith, (text_beq_iff r.request_id id).0 h, e))
      | inr h ↦ rw (on_query_response, s, e, h) refl
    ]
    | inr (p, e) ↦
        let f = on_primary_response refs p r in
        elim (Bool-cases (r.request_id === id)) [
          | inl h ↦
              rw (on_query_response, s, e, h)
                (get-put m.propagators r.request_id f id
                  ∙ ground (arith, (text_beq_iff r.request_id id).0 h, e))
          | inr h ↦
              rw (on_query_response, s, e, h)
                (get-put m.propagators r.request_id f id ∙ (rw h refl))
        ]
  ]

  -- A response that a node publishes to its own query reaches, in every other node, the propagator
  -- of that request where there is one, and no other propagator.
  pub primary_response-delivered :
      (a : AggregationManager refs) (m : PropagationManager refs) (request : QueryRequest)
      (message_refs : List Ref) (is_final : Bool) (id : Text)
      → a.client_id ≢ m.client_id
      → let response = AggregationManager.response_of refs a request message_refs is_final in
        get (on_message refs m (a.client_id, response_message response)).propagators id ≡ (
          if request.request_id === id
          then after_response (get m.propagators id) response
          else get m.propagators id)
  unfolding on_message dispatch AggregationManager.response_of
  primary_response-delivered a m request message_refs is_final id other =
      rw (===-refuted a.client_id m.client_id other) (
        get-accepted m a.client_id
          (AggregationManager.response_of refs a request message_refs is_final) id
          (===-self a.client_id))

  -- A response that a node publishes to the query of another node changes no propagator of any
  -- node.
  pub foreign_response-ignored :
      (m : PropagationManager refs) (sender primary : Text) (request : QueryRequest)
      (message_refs : List Ref) (is_final : Bool)
      → sender ≢ primary
      → on_message refs m
          (sender, response_message (response_of refs primary request message_refs is_final))
        ≡ m
  unfolding on_message dispatch on_query_response response_of
  foreign_response-ignored m sender primary request message_refs is_final other =
      ground (arith, text_beq_iff primary sender)
