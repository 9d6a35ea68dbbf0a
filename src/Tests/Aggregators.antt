-- ===== src/Tests/Aggregators.antt =====
-- Aggregators.
use logstore_node.Base.{◌≡◌, ◌⊎◌, refl, arith, true, false, none, List, [], ◌∷◌, text_eq}
use logstore_node.Base.Collections.{has}
use logstore_node.Network.Aggregator.{
  Aggregator, Event, primary_data, stream_end, foreign_response, new_aggregator, handle_all, on_end,
  on_error, do_check, is_waiting_for_foreign_nodes,
}
use logstore_node.Network.Aggregator.Ranges.{AreRanges, handle_all-AreRanges}
use logstore_node.Network.Aggregator.Waiting.{handle_all-waits}
use logstore_node.Network.Aggregator.Ending.{IsFinishing, on_end-ends, on_error_stuck}
use logstore_node.Tests.Sample.{refs, ref, request, response, bob, carol}

-- Bob answers, Carol does not.
abbrev events : List (Event refs)
events =
    primary_data (ref 1)
    ∷ primary_data (ref 2)
    ∷ foreign_response bob (response (ref 1 ∷ []))
    ∷ stream_end 0
    ∷ []

abbrev answered : Aggregator refs
answered = handle_all refs (new_aggregator refs request (bob ∷ [])) events

handle_all-AreRanges_example :
    AreRanges refs none answered.issued answered.aggregation_list.threshold
handle_all-AreRanges_example = handle_all-AreRanges refs request (bob ∷ []) events

abbrev unanswered : Aggregator refs
unanswered = handle_all refs (new_aggregator refs request (bob ∷ carol ∷ [])) events

handle_all-waits_example : (unanswered.issued ≡ []) × (unanswered.has_ended ≡ false)
unfolding has
handle_all-waits_example =
    handle_all-waits refs request (bob ∷ carol ∷ []) carol events refl (tt, (tt, (refl, (tt, tt))))

-- No foreign node is online, and the primary has found two messages.
abbrev ready : Aggregator refs
ready = record (new_aggregator refs request []) {
  aggregation_list = record {
    items =
        record { message_ref = ref 1; is_ready = true }
        ∷ record { message_ref = ref 2; is_ready = true }
        ∷ [];
    threshold = none;
  };
}

on_end-ends_example :
    ((on_end refs ready 0).has_ended ≡ true) ⊎ IsFinishing refs ready (on_end refs ready 0)
unfolding new_aggregator is_waiting_for_foreign_nodes
on_end-ends_example = on_end-ends refs ready 0 (ground arith) refl (refl, (refl, tt)) refl

abbrev fresh : Aggregator refs
fresh = new_aggregator refs request []

on_error_stuck_example :
    let b = on_error refs fresh in
    (b.query_streams ≡ []) × (b.has_ended ≡ false) × ((do_check refs b).has_ended ≡ true)
unfolding new_aggregator is_waiting_for_foreign_nodes
on_error_stuck_example = on_error_stuck refs fresh refl refl refl refl
