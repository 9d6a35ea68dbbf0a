-- ===== src/Network/PropagationList/Finish.antt =====
-- Finalisation, and the removal of a prefix, keep the relation to the history.
use logstore_node.Base.{
  ℕ, ◌≡◌, ap, ◌∙◌, false, List, ◌++◌, take, drop, append_assoc, All-append, take-append-drop,
}
use mathlib.Core.Bool.{true≢false}
use logstore_node.Protocol.{MessageRefs, Precedes}
use logstore_node.Network.PropagationList.{
  PropagationList, finalize_primary, finalize_foreign, splice_front,
}
use logstore_node.Network.PropagationList.Increasing.{Ends}
use logstore_node.Network.PropagationList.History.{Inv}

module _ (refs : MessageRefs) where
  open refs use {Ref, compare_to}

  module _ {l : PropagationList refs} {ps fs sent : List Ref} (v : Inv refs l ps fs sent) where
    pub finalize_primary-Inv : Inv refs (finalize_primary refs l) ps fs sent
    unfolding finalize_primary
    finalize_primary-Inv = record {
      difference = v.difference;
      foreign_increasing = v.foreign_increasing;
      primary_increasing = v.primary_increasing;
      known = v.known;
      pending = v.pending;
      passed = λ h. absurd (true≢false h);
      latest = v.latest;
    }

    pub finalize_foreign-Inv : Inv refs (finalize_foreign refs l) ps fs sent
    unfolding finalize_foreign
    finalize_foreign-Inv = record {
      difference = v.difference;
      foreign_increasing = v.foreign_increasing;
      primary_increasing = v.primary_increasing;
      known = v.known;
      pending = v.pending;
      passed = v.passed;
      latest = v.latest;
    }

    pub splice-Inv :
        (k : ℕ)
        → (l.is_primary_finalized ≡ false
            → (r : Ref) → Ends refs ps r
            → Ends refs (take k l.foreign_items) r)
        → Inv refs (splice_front refs l k).1 ps fs (sent ++ (splice_front refs l k).0)
    splice-Inv k early = record {
      difference =
          append_assoc sent (take k l.foreign_items) (drop k l.foreign_items)
          ∙ ap (◌++◌ sent) (take-append-drop k l.foreign_items)
          ∙ v.difference;
      foreign_increasing = v.foreign_increasing;
      primary_increasing = v.primary_increasing;
      known = v.known;
      pending = v.pending;
      passed = λ h r e.
          All-append (λ x. Precedes refs x r) sent (take k l.foreign_items) (v.passed h r e)
            (early h r e);
      latest = v.latest;
    }
