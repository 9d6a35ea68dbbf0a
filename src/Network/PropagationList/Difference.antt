-- ===== src/Network/PropagationList/Difference.antt =====
-- What is sent and what is kept of the foreign references, where the references of each side come
-- in strictly increasing order.
use logstore_node.Base.{
  ◌≡◌, refl, sym, subst, ◌∙◌, true, false, none, some, List, [], ◌∷◌, ◌++◌, length, count_while,
  take, Option-cases, inl, inr, arith, append-nil, Bool-cases, take-length,
}
use mathlib.Core.Bool.{true≢false}
use logstore_node.Protocol.{MessageRefs, Precedes, compare_to_cases}
use logstore_node.Network.AggregationList.{at_most_zero}
use logstore_node.Network.PropagationList.{PropagationList, get_diff_and_shrink, splice_front}
use logstore_node.Network.PropagationList.Increasing.{minus, Ends, Ends-holds}
use logstore_node.Network.PropagationList.History.{
  Run, start, primary, foreign, primary_end, foreign_end, collect, Inv,
}
use logstore_node.Network.PropagationList.Primary.{push_primary-Inv}
use logstore_node.Network.PropagationList.Foreign.{push_foreign-Inv}
use logstore_node.Network.PropagationList.Finish.{
  finalize_primary-Inv, finalize_foreign-Inv, splice-Inv,
}

module _ (refs : MessageRefs) where
  open refs use {Ref, compare_to}

  take-Ends :
      (t r : Ref) (xs : List Ref)
      → Precedes refs t r
      → Ends refs (take (count_while (λ item. at_most_zero (compare_to item t)) xs) xs) r
  take-Ends t r [] h = tt
  take-Ends t r (x ∷ xs) h = ground (arith, compare_to_cases refs x t, take-Ends t r xs h)

  pub collect_finalized :
      (l : PropagationList refs)
      → l.is_primary_finalized ≡ true
      → get_diff_and_shrink refs l ≡ splice_front refs l (length l.foreign_items)
  unfolding get_diff_and_shrink
  collect_finalized l h = ground arith

  pub collect_unknown :
      (l : PropagationList refs)
      → l.is_primary_finalized ≡ false
      → l.latest_primary ≡ none
      → get_diff_and_shrink refs l ≡ ([], l)
  unfolding get_diff_and_shrink
  collect_unknown l h k = ground arith

  pub collect_latest :
      (l : PropagationList refs) (t : Ref)
      → l.is_primary_finalized ≡ false
      → l.latest_primary ≡ some t
      → get_diff_and_shrink refs l
        ≡ splice_front refs l
            (count_while (λ item. at_most_zero (compare_to item t)) l.foreign_items)
  unfolding get_diff_and_shrink
  collect_latest l t h k = ground arith

  collect-Inv :
      {l : PropagationList refs} {ps fs sent : List Ref}
      → Inv refs l ps fs sent
      → Inv refs (get_diff_and_shrink refs l).1 ps fs (sent ++ (get_diff_and_shrink refs l).0)
  collect-Inv {l} {ps} {fs} {sent} v = elim (Bool-cases l.is_primary_finalized) [
    | inl done ↦
        after_call (collect_finalized l done)
          (splice-Inv refs v (length l.foreign_items) (λ h. absurd (true≢false (sym done ∙ h))))
    | inr running ↦ elim (Option-cases l.latest_primary) [
      | inl unknown ↦
          after_call (collect_unknown l running unknown)
            (subst (λ xs. Inv refs l ps fs xs) (sym (append-nil sent)) v)
      | inr (t, reached) ↦ after_call (collect_latest l t running reached) (
          splice-Inv refs v _ (λ _ r e.
            take-Ends t r l.foreign_items (Ends-holds refs ps t r e (v.latest t reached))))
    ]
  ]
    where
      after_call :
          {c : List Ref × PropagationList refs}
          → get_diff_and_shrink refs l ≡ c
          → Inv refs c.1 ps fs (sent ++ c.0)
          → Inv refs (get_diff_and_shrink refs l).1 ps fs (sent ++ (get_diff_and_shrink refs l).0)
      after_call e =
          subst (λ (c : List Ref × PropagationList refs). Inv refs c.1 ps fs (sent ++ c.0)) (sym e)

  Run-Inv :
      {l : PropagationList refs} {ps fs sent : List Ref}
      → Run refs l ps fs sent
      → Inv refs l ps fs sent
  Run-Inv start = record {
    difference = refl;
    foreign_increasing = tt;
    primary_increasing = tt;
    known = λ q h. h;
    pending = λ q e h. h;
    passed = λ h r e. tt;
    latest = λ t h. cc;
  }
  Run-Inv (primary r run unfinished e) = push_primary-Inv refs (Run-Inv run) r unfinished e
  Run-Inv (foreign r run e) = push_foreign-Inv refs (Run-Inv run) r e
  Run-Inv (primary_end run) = finalize_primary-Inv refs (Run-Inv run)
  Run-Inv (foreign_end run) = finalize_foreign-Inv refs (Run-Inv run)
  Run-Inv (collect run) = collect-Inv (Run-Inv run)

  -- Where the references of the primary and those of this node each come in strictly increasing
  -- order, and the primary names none after its end, then however the two, their ends and the
  -- collections interleave, the references returned so far, followed by those that the list still
  -- keeps, are exactly the references of this node that the primary has not named so far, in their
  -- order.
  pub Run-difference :
      {l : PropagationList refs} {ps fs sent : List Ref}
      → Run refs l ps fs sent
      → sent ++ l.foreign_items ≡ minus refs fs ps
  Run-difference run = (Run-Inv run).difference

  -- Under the same conditions, once the primary has ended, the next collection completes the difference: nothing of it is
  -- missing and nothing else was returned.
  pub Run-complete :
      {l : PropagationList refs} {ps fs sent : List Ref}
      → Run refs l ps fs sent
      → l.is_primary_finalized ≡ true
      → sent ++ (get_diff_and_shrink refs l).0 ≡ minus refs fs ps
  Run-complete {l} {sent = sent} run done =
      rw (collect_finalized l done, take-length l.foreign_items) (Run-difference run)
