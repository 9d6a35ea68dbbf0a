-- ===== src/Network/Aggregator/Ranges.antt =====
-- The ranges that an Aggregator reads from the database.
use logstore_node.Base.{
  ◌≡◌, refl, subst, ◌∙◌, inl, inr, Bool, true, false, ◌&&◌, Option, none, some, List, [], ◌∷◌, ◌++◌,
  Bool-cases, Text,
}
use logstore_node.Protocol.{MessageRefs, QueryRequest, QueryResponse}
use logstore_node.Network.AggregationList.{
  AggregationList, push, push_primary, push_foreign, push_propagation, is_empty, at_most_zero,
}
use logstore_node.Network.AggregationList.Order.{
  Above, IsOrdered, push-IsOrdered, shrink-IsOrdered, push-threshold, ready_from-Above,
  shrink-threshold,
}
use logstore_node.Network.AggregationList.Ready.{ready_from-ready_to}
use logstore_node.Network.Aggregator.{
  Aggregator, Event, primary_data, stream_end, primary_error, foreign_response, propagation,
  message_stored, propagation_stored, new_aggregator, issue, read_ready, do_check, without_stream,
  push_all_foreign, take_response, handle, handle_all, is_waiting_for_foreign_nodes, has_no_streams,
}

module _ (refs : MessageRefs) where
  open refs use {Ref, compare_to}

  -- Each range starts above the end of the one before it and does not end before its start. The
  -- first starts above the first bound, and the second bound is the end of the last.
  abbrev pub AreRanges : Option Ref → List (Ref × Ref) → Option Ref → Type 0
  AreRanges b [] t = t ≡ b
  AreRanges b ((from, to) ∷ rs) t =
      Above refs b from × (at_most_zero (compare_to from to) ≡ true) × AreRanges (some to) rs t

  snoc-AreRanges :
      (b t : Option Ref) (rs : List (Ref × Ref)) (from to : Ref)
      → AreRanges b rs t
      → Above refs t from
      → at_most_zero (compare_to from to) ≡ true
      → AreRanges b (rs ++ (from, to) ∷ []) (some to)
  snoc-AreRanges b t [] from to h a k = (subst (λ c. Above refs c from) h a, k, refl)
  snoc-AreRanges b t ((f, u) ∷ rs) from to h a k =
      (h.0, h.1, snoc-AreRanges (some u) t rs from to h.2 a k)

  -- The list is in order, and its threshold is the end of the last range.
  pub record IsSound (a : Aggregator refs) : Type 0 where
    pub ordered : IsOrdered refs a.aggregation_list
    pub ranges : AreRanges none a.issued a.aggregation_list.threshold

  read_ready-IsSound : (a : Aggregator refs) → IsSound a → IsSound (read_ready refs a)
  unfolding read_ready issue
  read_ready-IsSound a v = elim (ready_from-ready_to refs a.aggregation_list v.ordered) [
    | inl e ↦ rw (e.0, read_ready) v
    | inr (from, to, e, k, le) ↦
        rw (e, k, read_ready, issue)
          (record {
            ordered = shrink-IsOrdered refs a.aggregation_list to v.ordered;
            ranges = rw (shrink-threshold refs a.aggregation_list to) (
                snoc-AreRanges none a.aggregation_list.threshold a.issued from to v.ranges
                  (ready_from-Above refs a.aggregation_list from v.ordered e) le);
          })
  ]

  do_check-IsSound : (a : Aggregator refs) → IsSound a → IsSound (do_check refs a)
  unfolding do_check
  do_check-IsSound a v = elim (Bool-cases (is_waiting_for_foreign_nodes refs a)) [
    | inl waiting ↦ rw (waiting, do_check) v
    | inr answered ↦ elim (Bool-cases (is_empty refs a.aggregation_list && has_no_streams refs a)) [
      | inl over ↦ rw (answered, over, do_check) (record { ordered = v.ordered; ranges = v.ranges })
      | inr more ↦ rw (answered, more, do_check) (read_ready-IsSound a v)
    ]
  ]

  push-IsSound :
      (a : Aggregator refs) (r : Ref) (ready : Bool)
      → IsSound a
      → IsSound (record a { aggregation_list = push refs a.aggregation_list r ready })
  push-IsSound a r ready v = record {
    ordered = push-IsOrdered refs a.aggregation_list r ready v.ordered;
    ranges = rw (push-threshold refs a.aggregation_list r ready) v.ranges;
  }

  push_all_foreign-IsOrdered :
      (l : AggregationList refs) (rs : List Ref)
      → IsOrdered refs l
      → IsOrdered refs (push_all_foreign refs l rs)
        × ((push_all_foreign refs l rs).threshold ≡ l.threshold)
  unfolding push_all_foreign push_foreign
  push_all_foreign-IsOrdered l [] c = (c, refl)
  push_all_foreign-IsOrdered l (r ∷ rs) c =
      let (d, e) =
        push_all_foreign-IsOrdered (push refs l r false) rs (push-IsOrdered refs l r false c) in
      (d, e ∙ push-threshold refs l r false)

  take_response-IsSound :
      (a : Aggregator refs) (node : Text) (response : QueryResponse refs)
      → IsSound a
      → IsSound (take_response refs a node response)
  unfolding take_response
  take_response-IsSound a node response v =
      let (c, e) = push_all_foreign-IsOrdered a.aggregation_list response.message_refs v.ordered in
      record { ordered = c; ranges = rw e v.ranges }

  -- Every event keeps the ranges disjoint and increasing.
  pub handle-IsSound :
      (a : Aggregator refs) (e : Event refs) → IsSound a → IsSound (handle refs a e)
  unfolding handle push_primary push_propagation
  handle-IsSound a (primary_data r) v =
      do_check-IsSound (record a { aggregation_list = push refs a.aggregation_list r true })
        (push-IsSound a r true v)
  handle-IsSound a (stream_end i) v =
      do_check-IsSound (without_stream refs a i) (record { ordered = v.ordered; ranges = v.ranges })
  handle-IsSound a primary_error v = record { ordered = v.ordered; ranges = v.ranges }
  handle-IsSound a (foreign_response node response) v =
      do_check-IsSound (take_response refs a node response)
        (take_response-IsSound a node response v)
  handle-IsSound a (propagation rs) v = record { ordered = v.ordered; ranges = v.ranges }
  handle-IsSound a (message_stored r) v = push-IsSound a r true v
  handle-IsSound a propagation_stored v = do_check-IsSound a v

  handle_all-IsSound :
      (a : Aggregator refs) (es : List (Event refs)) → IsSound a → IsSound (handle_all refs a es)
  unfolding handle_all
  handle_all-IsSound a [] v = v
  handle_all-IsSound a (e ∷ es) v = handle_all-IsSound (handle refs a e) es (handle-IsSound a e v)

  -- Whatever happens to a new aggregator, none of the ranges that it reads from the database ends
  -- before its start, each starts above the end of the one before it, and the threshold of the
  -- list is the end of the last.
  pub handle_all-AreRanges :
      (request : QueryRequest) (nodes : List Text) (es : List (Event refs))
      → let a = handle_all refs (new_aggregator refs request nodes) es in
        AreRanges none a.issued a.aggregation_list.threshold
  unfolding new_aggregator
  handle_all-AreRanges request nodes es =
      (handle_all-IsSound (new_aggregator refs request nodes) es
        (record { ordered = tt; ranges = refl })).ranges
