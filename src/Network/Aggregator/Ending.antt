-- ===== src/Network/Aggregator/Ending.antt =====
-- When an Aggregator ends.
use logstore_node.Base.{
  ℕ, ◌≡◌, ◌⊎◌, refl, sym, subst, ap, ◌∙◌, inl, inr, true, false, not, ◌&&◌, List, [], ◌∷◌, ◌++◌,
  arith, Bool-cases, any, All, filter, ◌==◌, text_eq,
}
use logstore_node.Protocol.{MessageRefs}
use logstore_node.Network.AggregationList.{AggregationList, Item, shrink, is_empty}
use logstore_node.Network.AggregationList.Order.{IsOrdered}
use logstore_node.Network.AggregationList.Ready.{front-IsRange, shrink-All}
use logstore_node.Network.Aggregator.{
  Aggregator, issue, read_ready, do_check, without_stream, on_end, on_error,
  is_waiting_for_foreign_nodes, has_no_streams,
}
use logstore_node.Network.Aggregator.{is_silent}

module _ (refs : MessageRefs) where
  open refs use {Ref, compare_to}

  filter_self : (i : ℕ) → filter (λ j. not (j == i)) (i ∷ []) ≡ []
  filter_self i = ground arith

  is_empty_items : (l : AggregationList refs) → l.items ≡ [] → is_empty refs l ≡ true
  unfolding is_empty
  is_empty_items l e = ground arith

  do_check_over :
      (a : Aggregator refs)
      → is_waiting_for_foreign_nodes refs a ≡ false
      → a.aggregation_list.items ≡ []
      → a.query_streams ≡ []
      → (do_check refs a).has_ended ≡ true
  unfolding do_check
  do_check_over a h e k = ground (arith, h, is_empty_items a.aggregation_list e)

  -- After the last stream of an answered aggregator has ended, with all items ready, one of two
  -- things holds.
  pub record IsFinishing (a b : Aggregator refs) : Type 0 where
    pub one_stream : b.query_streams ≡ a.next_stream ∷ []
    pub then_ends : (on_end refs b a.next_stream).has_ended ≡ true

  -- Only the answers of the foreign nodes decide on waiting.
  waiting_kept :
      (a b : Aggregator refs)
      → a.foreign_node_responses ≡ b.foreign_node_responses
      → is_waiting_for_foreign_nodes refs a ≡ is_waiting_for_foreign_nodes refs b
  unfolding is_waiting_for_foreign_nodes
  waiting_kept a b e = ap (any (is_silent refs)) e

  issue_then_ends :
      (a : Aggregator refs) (from to : Ref)
      → is_waiting_for_foreign_nodes refs a ≡ false
      → a.query_streams ≡ []
      → (shrink refs a.aggregation_list to).items ≡ []
      → IsFinishing a (issue refs a from to)
  unfolding issue on_end
  issue_then_ends a from to h e k = record {
    one_stream = ap (λ (s : List ℕ). s ++ a.next_stream ∷ []) e;
    then_ends =
        do_check_over (without_stream refs (issue refs a from to) a.next_stream)
          (waiting_kept (without_stream refs (issue refs a from to) a.next_stream) a refl ∙ h) k
          (ap (λ (s : List ℕ). filter (λ j. not (j == a.next_stream)) (s ++ a.next_stream ∷ [])) e
            ∙ filter_self a.next_stream);
  }

  check_then_ends :
      (a : Aggregator refs)
      → IsOrdered refs a.aggregation_list
      → is_waiting_for_foreign_nodes refs a ≡ false
      → All (λ (x : Item refs). x.is_ready ≡ true) a.aggregation_list.items
      → a.query_streams ≡ []
      → ((do_check refs a).has_ended ≡ true) ⊎ IsFinishing a (do_check refs a)
  unfolding do_check read_ready
  check_then_ends a c h r e = elim (front-IsRange refs a.aggregation_list c r) [
    | inl none_left ↦ inl (do_check_over a h none_left e)
    | inr (f, t, from, to) ↦
        elim (Bool-cases (is_empty refs a.aggregation_list && has_no_streams refs a)) [
          | inl over ↦ inl (rw (h, over, do_check))
          | inr more ↦ inr (
              subst (IsFinishing a) (sym (ground (arith, h, more, from, to)))
                (issue_then_ends a f t h e (shrink-All refs a.aggregation_list t c r to)))
        ]
  ]

  -- When every foreign node has answered and every reference is ready, the end of the last stream
  -- either ends the aggregator, or starts one more stream, whose end ends it.
  pub on_end-ends :
      (a : Aggregator refs) (i : ℕ)
      → IsOrdered refs a.aggregation_list
      → is_waiting_for_foreign_nodes refs a ≡ false
      → All (λ (x : Item refs). x.is_ready ≡ true) a.aggregation_list.items
      → a.query_streams ≡ i ∷ []
      → ((on_end refs a i).has_ended ≡ true) ⊎ IsFinishing a (on_end refs a i)
  unfolding on_end
  on_end-ends a i c h r e =
      elim (check_then_ends (without_stream refs a i) c
        (waiting_kept (without_stream refs a i) a refl ∙ h) r
        (ap (filter (λ j. not (j == i))) e ∙ filter_self i)) [
          | inl over ↦ inl over
          | inr more ↦ inr (record { one_stream = more.one_stream; then_ends = more.then_ends })
        ]

  -- The handler of an error of the primary's query does not check: where nothing else is left to
  -- wait for, no stream is left that could end, and the aggregator has not ended, although the
  -- check that is left out would end it.
  pub on_error_stuck :
      (a : Aggregator refs)
      → is_waiting_for_foreign_nodes refs a ≡ false
      → a.aggregation_list.items ≡ []
      → a.query_streams ≡ 0 ∷ []
      → a.has_ended ≡ false
      → let b = on_error refs a in
        (b.query_streams ≡ []) × (b.has_ended ≡ false) × ((do_check refs b).has_ended ≡ true)
  unfolding on_error
  on_error_stuck a h k e r =
      let quiet = ap (filter (λ j. not (j == 0))) e ∙ filter_self 0 in
      (
        quiet,
        r,
        do_check_over (without_stream refs a 0) (waiting_kept (without_stream refs a 0) a refl ∙ h)
            k quiet,
      )
