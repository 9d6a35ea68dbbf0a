-- ===== src/Network/PropagationList/Foreign.antt =====
-- `pushForeign` keeps the relation of a PropagationList to its history.
use logstore_node.Base.{
  ◌+◌, ◌≡◌, sym, ap, ◌∙◌, true, not, none, List, [], ◌∷◌, ◌++◌, Option-cases, inl, inr, arith,
  filter-append, append-nil, append_assoc,
}
use native.Mathlib.Numerals.{add-one}
use logstore_node.Protocol.{MessageRefs, Precedes}
use logstore_node.Network.PropagationList.{PropagationList, push_foreign, index_of}
use logstore_node.Network.PropagationList.Increasing.{
  holds, minus, IsIncreasing, Ends, All-append_right, All-append_left, snoc-IsIncreasing,
  holds-index, index-holds, holds-drop, drop-IsIncreasing, holds-drop_after,
}
use logstore_node.Network.PropagationList.History.{Inv}

module _ (refs : MessageRefs) where
  open refs use {Ref, compare_to}

  module _ {l : PropagationList refs} {ps fs sent : List Ref} (v : Inv refs l ps fs sent) where
    push_foreign-difference :
        (r : Ref)
        → Ends refs fs r
        → sent ++ (push_foreign refs l r).foreign_items ≡ minus refs (fs ++ r ∷ []) ps
    unfolding push_foreign
    push_foreign-difference r e = elim (Option-cases (index_of refs r l.primary_items)) [
      | inl miss ↦
          rw
            (
              miss,
              push_foreign,
              filter-append (λ f. not (holds refs ps f)) fs (r ∷ []),
              ← v.difference,
              ← append_assoc sent l.foreign_items (r ∷ []),
            )
            (ap (◌++◌ (sent ++ l.foreign_items)) (unseen miss))
      | inr (i, hit) ↦
          rw
            (
              hit,
              push_foreign,
              filter-append (λ f. not (holds refs ps f)) fs (r ∷ []),
              v.difference,
            )
            (ground (
              arith,
              v.known r (index-holds refs l.primary_items r i hit),
              append-nil (minus refs fs ps),
            ))
    ]
      where
        unseen : index_of refs r l.primary_items ≡ none → r ∷ [] ≡ minus refs (r ∷ []) ps
        unseen miss = ground (arith, v.pending r e, holds-index refs l.primary_items r miss)

    foreign_increases : (r : Ref) → IsIncreasing refs (push_foreign refs l r).primary_items
    unfolding push_foreign
    foreign_increases r = elim (Option-cases (index_of refs r l.primary_items)) [
      | inl miss ↦ rw (miss, push_foreign) v.primary_increasing
      | inr (i, hit) ↦
          rw (hit, push_foreign)
            (drop-IsIncreasing refs (i + 1) l.primary_items v.primary_increasing)
    ]

    foreign_known :
        (r q : Ref)
        → holds refs (push_foreign refs l r).primary_items q ≡ true
        → holds refs ps q ≡ true
    unfolding push_foreign
    foreign_known r q h = elim (Option-cases (index_of refs r l.primary_items)) [
      | inl miss ↦ ground (arith, miss, v.known q)
      | inr (i, hit) ↦
          v.known q (holds-drop refs (i + 1) l.primary_items q (ground (arith, hit, h)))
    ]

    foreign_pending :
        (r q : Ref)
        → Ends refs (fs ++ r ∷ []) q
        → holds refs ps q ≡ true
        → holds refs (push_foreign refs l r).primary_items q ≡ true
    unfolding push_foreign
    foreign_pending r q e h =
        let before_r = All-append_right refs (λ x. Precedes refs x q) fs (r ∷ []) e in
        let held = v.pending q (All-append_left refs (λ x. Precedes refs x q) fs (r ∷ []) e) h in
        elim (Option-cases (index_of refs r l.primary_items)) [
          | inl miss ↦ rw (miss, push_foreign) held
          | inr (i, hit) ↦
              rw (hit, push_foreign, add-one)
                (holds-drop_after refs l.primary_items r q i hit before_r.0 v.primary_increasing
                  held)
        ]

    push_foreign-kept :
        (r : Ref)
        → ((push_foreign refs l r).latest_primary ≡ l.latest_primary)
          × ((push_foreign refs l r).is_primary_finalized ≡ l.is_primary_finalized)
    unfolding push_foreign
    push_foreign-kept r = ground arith

    pub push_foreign-Inv :
        (r : Ref) → Ends refs fs r → Inv refs (push_foreign refs l r) ps (fs ++ r ∷ []) sent
    push_foreign-Inv r e = record {
      difference = push_foreign-difference r e;
      foreign_increasing = snoc-IsIncreasing refs fs r v.foreign_increasing e;
      primary_increasing = foreign_increases r;
      known = λ q h. foreign_known r q h;
      pending = λ q e' h. foreign_pending r q e' h;
      passed = λ h. v.passed (sym (push_foreign-kept r).1 ∙ h);
      latest = λ t h. v.latest t (sym (push_foreign-kept r).0 ∙ h);
    }
