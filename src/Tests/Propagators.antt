-- ===== src/Tests/Propagators.antt =====
-- Propagators.
use logstore_node.Base.{◌≡◌, refl, arith, true, any, some, [], ◌∷◌, ◌==◌}
use logstore_node.Network.PropagationList.Increasing.{minus}
use logstore_node.Network.PropagationList.{
  push_primary, push_foreign, finalize_primary, get_diff_and_shrink,
}
use logstore_node.Network.Propagator.{
  Propagator, new_propagator, on_data, on_sent, do_check, on_primary_response, push_all_primary,
  send_diff,
}
use logstore_node.Network.Propagator.Sending.{asked}
use logstore_node.Network.Propagator.Asked
use logstore_node.Network.Propagator.Asked.{Events, Events-asked}
use logstore_node.Network.Propagator.Premature.{IsEarly, on_sent_early}
use logstore_node.Tests.Sample.{refs, ref, request, response}

-- This node finds 1 and 2, and the primary's final response names 2.
abbrev found : Propagator refs
found = on_data refs (on_data refs (new_propagator refs request) (ref 1)) (ref 2)

abbrev answered : Propagator refs
answered = on_primary_response refs found (response (ref 2 ∷ []))

-- This node finds 2, 1 and 2 again, and the primary's final response names 3 and 1.
abbrev mixed : Propagator refs
mixed =
    on_primary_response refs
      (on_data refs (on_data refs (on_data refs (new_propagator refs request) (ref 2)) (ref 1))
        (ref 2))
      (response (ref 3 ∷ ref 1 ∷ []))

mixed-Events : Events refs mixed (ref 3 ∷ ref 1 ∷ []) (ref 2 ∷ ref 1 ∷ ref 2 ∷ [])
mixed-Events = Asked.primary_response (response (ref 3 ∷ ref 1 ∷ [])) (
    Asked.data_found (ref 2)
      (Asked.data_found (ref 1) (Asked.data_found (ref 2) (Asked.created request))))

mixed-final : mixed.propagation_list.is_primary_finalized ≡ true
unfolding on_data do_check send_diff new_propagator push_foreign get_diff_and_shrink
    on_primary_response push_all_primary push_primary finalize_primary
mixed-final = refl

Events-asked_example :
    minus refs (asked refs mixed.sent) (ref 3 ∷ ref 1 ∷ [])
    ≡ minus refs (ref 2 ∷ ref 1 ∷ ref 2 ∷ []) (ref 3 ∷ ref 1 ∷ [])
Events-asked_example = Events-asked refs mixed-Events mixed-final

mixed-asked : asked refs mixed.sent ≡ ref 2 ∷ ref 2 ∷ []
unfolding on_data do_check send_diff new_propagator push_foreign get_diff_and_shrink
    on_primary_response push_all_primary push_primary finalize_primary asked
mixed-asked = refl

-- The primary names 2 and 1, and this node finds 1 and 2: it asks for 2 all the same.
abbrev unsorted : Propagator refs
unsorted =
    on_data refs
      (on_data refs
        (on_primary_response refs (new_propagator refs request) (response (ref 2 ∷ ref 1 ∷ [])))
        (ref 1))
      (ref 2)

unsorted-asked : asked refs unsorted.sent ≡ ref 2 ∷ []
unfolding on_data do_check send_diff new_propagator push_foreign get_diff_and_shrink
    on_primary_response push_all_primary push_primary finalize_primary asked
unsorted-asked = refl

-- The query of 1 is still open when this node's own query ends and 3 is left.
abbrev early : Propagator refs
early = record answered {
  propagation_list = record {
    primary_items = [];
    foreign_items = ref 3 ∷ [];
    latest_primary = some (ref 2);
    is_primary_finalized = true;
    is_foreign_finalized = true;
  };
  query_streams = 0 ∷ [];
  next_stream = 1;
}

early-IsEarly : IsEarly refs early 0 (ref 3) []
early-IsEarly = record {
  primary_done = refl;
  foreign_done = refl;
  left = refl;
  open_stream = refl;
  older = omega arith;
}

on_sent_early_example :
    let q = on_sent refs (do_check refs early) 1 in
    (q.has_ended ≡ true) × (any (λ j. j == 0) q.query_streams ≡ true)
on_sent_early_example = on_sent_early refs early 0 (ref 3) [] early-IsEarly
