-- ===== src/Tests/Managers.antt =====
-- The two managers of network queries.
use logstore_node.Base.{◌≡◌, ◌≢◌, arith, true, List, [], ◌∷◌, if◌then◌else◌, Text, ◌===◌, text_eq}
use logstore_node.Base.Collections.{get}
use logstore_node.Protocol.{SystemMessage, response_message}
use logstore_node.Network.AggregationManager
use logstore_node.Network.AggregationManager.{AggregationManager, aggregate, on_messages}
use logstore_node.Network.AggregationManager.Routing.{after_events, delivered, get-on_messages}
use logstore_node.Network.PropagationManager
use logstore_node.Network.PropagationManager.{PropagationManager, on_query_request, on_message}
use logstore_node.Network.PropagationManager.Authority.{after_response, primary_response-delivered}
use logstore_node.Tests.Sample.{refs, ref, request, response, alice, bob}

-- Alice asks, Bob answers.
abbrev asking : AggregationManager refs
asking = aggregate refs (AggregationManager.new_manager refs alice) request (bob ∷ [])

abbrev messages : List (Text × SystemMessage refs)
messages = (bob, response_message (response (ref 1 ∷ []))) ∷ []

get-on_messages_example :
    get (on_messages refs asking messages).aggregators request.request_id
    ≡ after_events refs
        (get asking.aggregators request.request_id)
        (delivered refs asking.client_id messages request.request_id)
get-on_messages_example = get-on_messages refs asking messages request.request_id

abbrev helping : PropagationManager refs
helping = on_query_request refs (PropagationManager.new_manager refs bob) request

alice_is_not_bob : asking.client_id ≢ helping.client_id
unfolding aggregate AggregationManager.new_manager on_query_request PropagationManager.new_manager
alice_is_not_bob = ground arith

primary_response-delivered_example :
    let r = AggregationManager.response_of refs asking request (ref 1 ∷ []) true in
    get
      (on_message refs helping (asking.client_id, response_message r)).propagators
      request.request_id
    ≡ (if request.request_id === request.request_id
        then after_response refs (get helping.propagators request.request_id) r
        else get helping.propagators request.request_id)
primary_response-delivered_example =
    primary_response-delivered refs asking helping request (ref 1 ∷ []) true request.request_id
      alice_is_not_bob

bob_is_not_alice : bob ≢ alice
bob_is_not_alice = ground arith
