-- ===== src/Network/PropagationList/Primary.antt =====
-- `pushPrimary` keeps the relation of a PropagationList to its history.
use logstore_node.Base.{
  ◌≡◌, true, false, none, some, List, [], ◌∷◌, ◌++◌, remove_at, Option-cases, inl, inr, arith,
  filter-append, any-append,
}
use logstore_node.Protocol.{MessageRefs, Precedes, compare_to_cases}
use logstore_node.Network.AggregationList.{is_zero}
use logstore_node.Network.PropagationList.{PropagationList, push_primary, index_of}
use logstore_node.Network.PropagationList.Increasing.{
  holds, minus, IsIncreasing, Ends, Ends-holds, Ends-of_holds, All-filter, All-append_right,
  All-append_left, filter-IsIncreasing, append-IsIncreasing_right, snoc-IsIncreasing,
  remove_at-filter, filter-minus, filter-Ends, index-holds,
}
use logstore_node.Network.PropagationList.History.{Inv}

module _ (refs : MessageRefs) where
  open refs use {Ref, compare_to}

  module _ {l : PropagationList refs} {ps fs sent : List Ref} (v : Inv refs l ps fs sent) where
    foreign_items-IsIncreasing : IsIncreasing refs l.foreign_items
    foreign_items-IsIncreasing =
        append-IsIncreasing_right refs sent l.foreign_items
          (rw v.difference (filter-IsIncreasing refs _ fs v.foreign_increasing))

    foreign_items-Ends : (q : Ref) → Ends refs fs q → Ends refs l.foreign_items q
    foreign_items-Ends q e =
        All-append_right refs (λ x. Precedes refs x q) sent l.foreign_items
          (rw v.difference (All-filter refs (λ x. Precedes refs x q) _ fs e))

    push_primary-foreign_items :
        (r : Ref)
        → (push_primary refs l r).foreign_items ≡ elim (index_of refs r l.foreign_items) [
          | none ↦ l.foreign_items
          | some i ↦ remove_at i l.foreign_items
        ]
    unfolding push_primary
    push_primary-foreign_items r = elim (Option-cases (index_of refs r l.foreign_items)) [
      | inl miss ↦ rw (miss, push_primary)
      | inr (i, hit) ↦ rw (hit, push_primary)
    ]

    push_primary-difference :
        (r : Ref)
        → l.is_primary_finalized ≡ false
        → Ends refs ps r
        → sent ++ (push_primary refs l r).foreign_items ≡ minus refs fs (ps ++ r ∷ [])
    push_primary-difference r unfinished e = rw (
      push_primary-foreign_items r,
      ← remove_at-filter refs l.foreign_items r foreign_items-IsIncreasing,
      filter-minus refs fs ps r,
      ← v.difference,
      filter-append _ sent l.foreign_items,
      filter-Ends refs sent r (v.passed unfinished r e),
    )

    primary_pending :
        (r q : Ref)
        → Ends refs fs q
        → holds refs (ps ++ r ∷ []) q ≡ true
        → holds refs (push_primary refs l r).primary_items q ≡ true
    unfolding push_primary
    primary_pending r q e h = elim (Option-cases (index_of refs r l.foreign_items)) [
      | inl miss ↦
          rw (miss, push_primary)
            (ground (
              arith,
              any-append (λ x. is_zero (compare_to x q)) ps (r ∷ []),
              any-append (λ x. is_zero (compare_to x q)) l.primary_items (r ∷ []),
              v.pending q e,
            ))
      | inr (i, hit) ↦
          rw (hit, push_primary)
            (ground (
              arith,
              any-append (λ x. is_zero (compare_to x q)) ps (r ∷ []),
              v.pending q e,
              compare_to_cases refs r q,
              Ends-holds refs l.foreign_items r q (foreign_items-Ends q e)
                  (index-holds refs l.foreign_items r i hit),
            ))
    ]

    primary_increases :
        (r : Ref) → Ends refs ps r → IsIncreasing refs (push_primary refs l r).primary_items
    unfolding push_primary
    primary_increases r e = elim (Option-cases (index_of refs r l.foreign_items)) [
      | inl miss ↦
          rw (miss, push_primary)
            (snoc-IsIncreasing refs l.primary_items r v.primary_increasing
              (Ends-of_holds refs l.primary_items ps r v.known e))
      | inr (i, hit) ↦ rw (hit, push_primary) v.primary_increasing
    ]

    primary_known :
        (r q : Ref)
        → holds refs (push_primary refs l r).primary_items q ≡ true
        → holds refs (ps ++ r ∷ []) q ≡ true
    unfolding push_primary
    primary_known r q h = elim (Option-cases (index_of refs r l.foreign_items)) [
      | inl miss ↦ ground (
        arith,
        miss,
        any-append (λ x. is_zero (compare_to x q)) ps (r ∷ []),
        any-append (λ x. is_zero (compare_to x q)) l.primary_items (r ∷ []),
        v.known q,
      )
      | inr (i, hit) ↦
          ground (arith, hit, any-append (λ x. is_zero (compare_to x q)) ps (r ∷ []), v.known q)
    ]

    primary_latest :
        (r t : Ref)
        → (push_primary refs l r).latest_primary ≡ some t
        → holds refs (ps ++ r ∷ []) t ≡ true
    unfolding push_primary
    primary_latest r t h =
        ground
          (arith, any-append (λ x. is_zero (compare_to x t)) ps (r ∷ []), compare_to_cases refs t t)

    pub push_primary-Inv :
        (r : Ref)
        → l.is_primary_finalized ≡ false
        → Ends refs ps r
        → Inv refs (push_primary refs l r) (ps ++ r ∷ []) fs sent
    unfolding push_primary
    push_primary-Inv r unfinished e = record {
      difference = push_primary-difference r unfinished e;
      foreign_increasing = v.foreign_increasing;
      primary_increasing = primary_increases r e;
      known = λ q h. primary_known r q h;
      pending = λ q e' h. primary_pending r q e' h;
      passed = λ _ q e'. v.passed unfinished q (All-append_left refs _ ps (r ∷ []) e');
      latest = λ t h. primary_latest r t h;
    }
