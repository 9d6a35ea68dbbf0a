-- ===== src/Tests/Lists.antt =====
-- Aggregation lists and propagation lists.
use logstore_node.Base.{
  ◌≡◌, refl, arith, true, false, none, some, [], ◌∷◌, ◌++◌, take, count_while, All,
}
use logstore_node.Network.AggregationList.{
  AggregationList, Item, push, shrink, ready_from, ready_to,
}
use logstore_node.Network.AggregationList.Order.{IsOrdered}
use logstore_node.Network.AggregationList.Status.{status, status-push}
use logstore_node.Network.AggregationList.Ready.{is_ready_item, shrink-ready_to}
use logstore_node.Network.PropagationList
use logstore_node.Network.PropagationList.{PropagationList, get_diff_and_shrink}
use logstore_node.Network.PropagationList.Increasing.{minus}
use logstore_node.Network.PropagationList.History.{Run, start, primary, foreign, primary_end}
use logstore_node.Network.PropagationList.Difference.{Run-difference}
use logstore_node.Tests.Sample.{refs, ref}

abbrev pub waiting : AggregationList refs
waiting = record {
  items =
      record { message_ref = ref 2; is_ready = true }
      ∷ record { message_ref = ref 3; is_ready = true }
      ∷ record { message_ref = ref 5; is_ready = false }
      ∷ [];
  threshold = some (ref 1);
}

waiting-IsOrdered : IsOrdered refs waiting
waiting-IsOrdered = ground arith

status-push_example : status refs (push refs waiting (ref 5) true).items (ref 5) ≡ some true
unfolding status
status-push_example = status-push refs waiting (ref 5) true (ref 5) waiting-IsOrdered

ready_to-waiting : ready_to refs waiting ≡ some (ref 3)
unfolding ready_to
ready_to-waiting = refl

shrink-ready_to_example :
    let n = count_while (is_ready_item refs) waiting.items in
    (waiting.items ≡ take n waiting.items ++ (shrink refs waiting (ref 3)).items)
    × All (λ (x : Item refs). x.is_ready ≡ true) (take n waiting.items)
    × (ready_from refs (shrink refs waiting (ref 3)) ≡ none)
shrink-ready_to_example = shrink-ready_to refs waiting (ref 3) waiting-IsOrdered ready_to-waiting

-- This node has 1, 2 and 3; the primary names 2 and ends.
abbrev found : PropagationList refs
found =
    PropagationList.push_foreign refs
      (PropagationList.push_foreign refs
        (PropagationList.push_foreign refs (PropagationList.empty refs) (ref 1)) (ref 2))
      (ref 3)

abbrev named : PropagationList refs
named = PropagationList.finalize_primary refs (PropagationList.push_primary refs found (ref 2))

found-Run : Run refs found [] (ref 1 ∷ ref 2 ∷ ref 3 ∷ []) []
found-Run =
    foreign (ref 3) (foreign (ref 2) (foreign (ref 1) start tt) (ground arith)) (ground arith)

named-Run : Run refs named (ref 2 ∷ []) (ref 1 ∷ ref 2 ∷ ref 3 ∷ []) []
unfolding PropagationList.push_foreign
named-Run = primary_end (primary (ref 2) found-Run refl tt)

Run-difference_example :
    [] ++ named.foreign_items ≡ minus refs (ref 1 ∷ ref 2 ∷ ref 3 ∷ []) (ref 2 ∷ [])
Run-difference_example = Run-difference refs named-Run

named-diff : (get_diff_and_shrink refs named).0 ≡ ref 1 ∷ ref 3 ∷ []
unfolding get_diff_and_shrink PropagationList.push_foreign PropagationList.push_primary
    PropagationList.finalize_primary
named-diff = refl
