-- ===== src/Network/PropagationList/Kept.antt =====
-- What a PropagationList keeps for references in any order, also where some compare as equal.
use logstore_node.Base.{
  ℕ, ◌+◌, ◌≡◌, refl, sym, subst, ap, ◌∙◌, true, not, some, List, [], ◌∷◌, ◌++◌, remove_at,
  Option-cases, inl, inr, arith, Bool-cases, filter, filter-append, append_assoc, append-nil,
  any-append, take-append-drop,
}
use logstore_node.Protocol.{MessageRefs, compare_to_cases}
use logstore_node.Network.AggregationList.{is_zero}
use logstore_node.Network.PropagationList.{
  PropagationList, push_primary, push_foreign, get_diff_and_shrink, splice_front, index_of,
}
use logstore_node.Network.PropagationList.Increasing.{
  holds, minus, filter-minus, index-holds, holds-drop,
}
use logstore_node.Network.PropagationList.Difference.{
  collect_finalized, collect_unknown, collect_latest,
}

module _ (refs : MessageRefs) where
  open refs use {Ref, compare_to}

  -- The references pushed by the primary and by this node, and those returned so far: of those that
  -- the primary has not named, the returned and the kept ones are just this node's.
  pub record IsKept (l : PropagationList refs) (ps fs sent : List Ref) : Type 0 where
    pub known : (q : Ref) → holds refs l.primary_items q ≡ true → holds refs ps q ≡ true
    pub left : minus refs (sent ++ l.foreign_items) ps ≡ minus refs fs ps

  -- A removed reference is one that the primary names.
  minus-remove_at :
      (xs ps : List Ref) (r : Ref) (i : ℕ)
      → index_of refs r xs ≡ some i
      → minus refs (remove_at i xs) (ps ++ r ∷ []) ≡ minus refs xs (ps ++ r ∷ [])
  minus-remove_at [] ps r i h = cc
  minus-remove_at (x ∷ xs) ps r i h = elim (Option-cases (index_of refs r xs)) [
    | inl e ↦ ground (
      arith,
      e,
      compare_to_cases refs x r,
      compare_to_cases refs r x,
      any-append (λ y. is_zero (compare_to y x)) ps (r ∷ []),
    )
    | inr (j, e) ↦ ground (
      arith,
      e,
      compare_to_cases refs x r,
      compare_to_cases refs r x,
      any-append (λ y. is_zero (compare_to y x)) ps (r ∷ []),
      minus-remove_at xs ps r j e,
    )
  ]

  -- What is returned and what stays are together the foreign items before.
  abbrev IsSplit : PropagationList refs → List Ref × PropagationList refs → Type 0
  IsSplit l c = (c.1.primary_items ≡ l.primary_items) × (c.0 ++ c.1.foreign_items ≡ l.foreign_items)

  splice_front-IsSplit : (l : PropagationList refs) (k : ℕ) → IsSplit l (splice_front refs l k)
  splice_front-IsSplit l k = (refl, take-append-drop k l.foreign_items)

  get_diff_and_shrink-IsSplit : (l : PropagationList refs) → IsSplit l (get_diff_and_shrink refs l)
  get_diff_and_shrink-IsSplit l = elim (Bool-cases l.is_primary_finalized) [
    | inl done ↦ subst (IsSplit l) (sym (collect_finalized refs l done)) (splice_front-IsSplit l _)
    | inr running ↦ elim (Option-cases l.latest_primary) [
      | inl unknown ↦ subst (IsSplit l) (sym (collect_unknown refs l running unknown)) (refl, refl)
      | inr (t, reached) ↦
          subst (IsSplit l) (sym (collect_latest refs l t running reached))
            (splice_front-IsSplit l _)
    ]
  ]

  module _ {l : PropagationList refs} {ps fs sent : List Ref} (v : IsKept l ps fs sent) where
    named_more :
        (r : Ref)
        → minus refs (sent ++ l.foreign_items) (ps ++ r ∷ []) ≡ minus refs fs (ps ++ r ∷ [])
    named_more r =
        filter-minus refs (sent ++ l.foreign_items) ps r
        ∙ ap (filter (λ f. not (is_zero (compare_to r f)))) v.left
        ∙ sym (filter-minus refs fs ps r)

    primary_known :
        (r q : Ref)
        → holds refs (l.primary_items ++ r ∷ []) q ≡ true
        → holds refs (ps ++ r ∷ []) q ≡ true
    primary_known r q h = ground (
      arith,
      v.known q,
      any-append (λ x. is_zero (compare_to x q)) l.primary_items (r ∷ []),
      any-append (λ x. is_zero (compare_to x q)) ps (r ∷ []),
      h,
    )

    still_known :
        (r q : Ref) → holds refs l.primary_items q ≡ true → holds refs (ps ++ r ∷ []) q ≡ true
    still_known r q h =
        ground (arith, v.known q h, any-append (λ x. is_zero (compare_to x q)) ps (r ∷ []))

    without_match :
        (r : Ref) (i : ℕ)
        → index_of refs r l.foreign_items ≡ some i
        → minus refs (sent ++ remove_at i l.foreign_items) (ps ++ r ∷ [])
          ≡ minus refs (sent ++ l.foreign_items) (ps ++ r ∷ [])
    without_match r i hit =
        filter-append _ sent (remove_at i l.foreign_items)
        ∙ ap (◌++◌ (minus refs sent (ps ++ r ∷ []))) (minus-remove_at l.foreign_items ps r i hit)
        ∙ sym (filter-append _ sent l.foreign_items)

    pub push_primary-IsKept : (r : Ref) → IsKept (push_primary refs l r) (ps ++ r ∷ []) fs sent
    unfolding push_primary
    push_primary-IsKept r = elim (Option-cases (index_of refs r l.foreign_items)) [
      | inl miss ↦ rw (push_primary, miss) (record { known = primary_known r; left = named_more r })
      | inr (i, hit) ↦
          rw (push_primary, hit)
            (record { known = still_known r; left = without_match r i hit ∙ named_more r })
    ]

    pub push_foreign-IsKept : (r : Ref) → IsKept (push_foreign refs l r) ps (fs ++ r ∷ []) sent
    unfolding push_foreign
    push_foreign-IsKept r = elim (Option-cases (index_of refs r l.primary_items)) [
      | inl miss ↦
          rw (push_foreign, miss)
            (record {
              known = v.known;
              left =
                  ap (filter (λ f. not (holds refs ps f)))
                    (sym (append_assoc sent l.foreign_items (r ∷ [])))
                  ∙ filter-append _ (sent ++ l.foreign_items) (r ∷ [])
                  ∙ ap (λ t. t ++ minus refs (r ∷ []) ps) v.left
                  ∙ sym (filter-append _ fs (r ∷ []));
            })
      | inr (i, hit) ↦
          rw (push_foreign, hit)
            (record {
              known = λ q h. v.known q (holds-drop refs (i + 1) l.primary_items q h);
              left =
                  v.left
                  ∙ sym (
                      filter-append _ fs (r ∷ [])
                      ∙ ap (◌++◌ (minus refs fs ps))
                          (named r (v.known r (index-holds refs l.primary_items r i hit)))
                      ∙ append-nil (minus refs fs ps));
            })
    ]
      where
        named : (r : Ref) → holds refs ps r ≡ true → minus refs (r ∷ []) ps ≡ []
        named r h = ground (arith, h)

    -- A collection moves references from the list to what was returned.
    pub collect-IsKept :
        IsKept (get_diff_and_shrink refs l).1 ps fs (sent ++ (get_diff_and_shrink refs l).0)
    collect-IsKept =
        let (diff, list) = get_diff_and_shrink refs l in
        let (same, parts) = get_diff_and_shrink-IsSplit l in
        record {
          known = λ q h. v.known q (rw (← same) h);
          left =
              ap (λ t. minus refs t ps)
                (append_assoc sent diff list.foreign_items ∙ ap (◌++◌ sent) parts)
              ∙ v.left;
        }
