-- ===== src/Network/AggregationManager/Routing.antt =====
-- The manager as a family of aggregators that do not see each other.
use logstore_node.Base.{
  ◌≡◌, refl, sym, ◌∙◌, Option, none, some, List, [], ◌∷◌, ◌++◌, if◌then◌else◌, Text, ◌===◌, text_eq,
  arith, Bool-cases, Option-cases, inl, inr, text_beq_iff,
}
use logstore_node.Base.Collections.{get, get-put}
use logstore_node.Protocol.{
  MessageRefs, SystemMessage, request_message, response_message, propagate_message, other_message,
}
use logstore_node.Network.Aggregator.{
  Aggregator, Event, foreign_response, propagation, handle, handle_all, on_foreign_response,
  on_propagation,
}
use logstore_node.Network.AggregationManager.{
  AggregationManager, update, on_message, on_messages, dispatch, on_query_response,
  on_query_propagate,
}

module _ (refs : MessageRefs) where
  -- The events that one message is for the aggregator of a request.
  abbrev pub events_of : Text → SystemMessage refs → Text → List (Event refs)
  events_of sender (response_message r) id =
      if r.request_id === id then foreign_response sender r ∷ [] else []
  events_of sender (propagate_message p) id =
      if p.request_id === id then propagation p.payload ∷ [] else []
  events_of sender (request_message _) id = []
  events_of sender other_message id = []

  -- Those of a sequence of messages, the node's own left out.
  unfoldable pub delivered : Text → List (Text × SystemMessage refs) → Text → List (Event refs)
  delivered client [] id = []
  delivered client ((sender, message) ∷ xs) id =
      (if sender === client then [] else events_of sender message id) ++ delivered client xs id

  -- The aggregator after some events, where there is one.
  abbrev pub after_events : Option (Aggregator refs) → List (Event refs) → Option (Aggregator refs)
  after_events none es = none
  after_events (some a) es = some (handle_all refs a es)

  get-update :
      (m : AggregationManager refs) (k id : Text) (f : Aggregator refs → Aggregator refs)
      → get (update refs m k f).aggregators id ≡ (
          if k === id
          then elim (get m.aggregators id) [ none ↦ none | some a ↦ some (f a) ]
          else get m.aggregators id)
  unfolding update
  get-update m k id f = elim (Option-cases (get m.aggregators k)) [
    | inl e ↦ elim (Bool-cases (k === id)) [
      | inl h ↦ rw (update, e, h) (ground (arith, (text_beq_iff k id).0 h, e))
      | inr h ↦ rw (update, e, h) refl
    ]
    | inr (a, e) ↦ elim (Bool-cases (k === id)) [
      | inl h ↦
          rw (update, e, h)
            (get-put m.aggregators k (f a) id ∙ ground (arith, (text_beq_iff k id).0 h, e))
      | inr h ↦ rw (update, e, h) (get-put m.aggregators k (f a) id ∙ (rw h refl))
    ]
  ]

  after_events-nil : (o : Option (Aggregator refs)) → after_events o [] ≡ o
  unfolding handle_all
  after_events-nil none = refl
  after_events-nil (some a) = refl

  get-dispatch :
      (m : AggregationManager refs) (sender : Text) (message : SystemMessage refs) (id : Text)
      → get (dispatch refs m sender message).aggregators id
        ≡ after_events (get m.aggregators id) (events_of sender message id)
  unfolding dispatch on_query_response on_query_propagate handle handle_all
  get-dispatch m sender (request_message _) id = sym (after_events-nil (get m.aggregators id))
  get-dispatch m sender other_message id = sym (after_events-nil (get m.aggregators id))
  get-dispatch m sender (response_message r) id =
      get-update m r.request_id id (λ a. on_foreign_response refs a sender r) ∙ ground arith
  get-dispatch m sender (propagate_message p) id =
      get-update m p.request_id id (λ a. on_propagation refs a p.payload) ∙ ground arith

  get-on_message :
      (m : AggregationManager refs) (sender : Text) (message : SystemMessage refs) (id : Text)
      → get (on_message refs m (sender, message)).aggregators id
        ≡ after_events
            (get m.aggregators id)
            (if sender === m.client_id then [] else events_of sender message id)
  unfolding on_message
  get-on_message m sender message id = elim (Bool-cases (sender === m.client_id)) [
    | inl h ↦ rw h (sym (after_events-nil (get m.aggregators id)))
    | inr h ↦ rw h (get-dispatch m sender message id)
  ]

  client_id-on_message :
      (m : AggregationManager refs) (x : Text × SystemMessage refs)
      → (on_message refs m x).client_id ≡ m.client_id
  unfolding on_message dispatch on_query_response on_query_propagate update
  client_id-on_message m (sender, request_message _) = ground arith
  client_id-on_message m (sender, other_message) = ground arith
  client_id-on_message m (sender, response_message r) = ground arith
  client_id-on_message m (sender, propagate_message p) = ground arith

  after_events-append :
      (o : Option (Aggregator refs)) (xs ys : List (Event refs))
      → after_events (after_events o xs) ys ≡ after_events o (xs ++ ys)
  unfolding handle_all
  after_events-append none xs ys = refl
  after_events-append (some a) [] ys = refl
  after_events-append (some a) (x ∷ xs) ys = after_events-append (some (handle refs a x)) xs ys

  -- After any sequence of messages, the aggregator of a request is what it would be alone, with
  -- the events that the messages from other nodes with its request id are for it, in their order;
  -- and a request without an aggregator stays without one.
  pub get-on_messages :
      (m : AggregationManager refs) (xs : List (Text × SystemMessage refs)) (id : Text)
      → get (on_messages refs m xs).aggregators id
        ≡ after_events (get m.aggregators id) (delivered m.client_id xs id)
  unfolding on_messages delivered
  get-on_messages m [] id = sym (after_events-nil (get m.aggregators id))
  get-on_messages m ((sender, message) ∷ xs) id =
      get-on_messages (on_message refs m (sender, message)) xs id
      ∙ rw (client_id-on_message m (sender, message), get-on_message m sender message id)
          (after_events-append (get m.aggregators id) _ (delivered m.client_id xs id))
