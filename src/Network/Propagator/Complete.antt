-- ===== src/Network/Propagator/Complete.antt =====
-- What a Propagator has asked its database for.
use logstore_node.Base.{
  ◌≡◌, refl, sym, ap, ◌∙◌, true, List, [], ◌∷◌, ◌++◌, arith, append-nil, length, drop,
}
use logstore_node.Protocol.{MessageRefs}
use logstore_node.Network.PropagationList.{PropagationList, get_diff_and_shrink}
use logstore_node.Network.PropagationList.Increasing.{minus}
use logstore_node.Network.PropagationList.Difference.{Run-difference}
use logstore_node.Network.Propagator.{
  Propagator, new_propagator, do_check, on_data, on_end, on_sent, on_primary_response,
}
use logstore_node.Network.Propagator.Sending.{
  asked, History, created, data_found, data_ended, diff_sent, primary_response, History-Run,
  send_diff-parts,
}

module _ (refs : MessageRefs) where
  open refs use {Ref}

  drop-length : (xs : List Ref) → drop (length xs) xs ≡ []
  drop-length [] = refl
  drop-length (x ∷ xs) = drop-length xs

  do_check-list :
      (p : Propagator refs)
      → (do_check refs p).propagation_list ≡ (get_diff_and_shrink refs p.propagation_list).1
  unfolding do_check
  do_check-list p =
      let (diff, list) = get_diff_and_shrink refs p.propagation_list in
      (send_diff-parts refs p diff list).0

  shrink-finalized :
      (l : PropagationList refs)
      → (get_diff_and_shrink refs l).1.is_primary_finalized ≡ true
      → (get_diff_and_shrink refs l).1.foreign_items ≡ []
  unfolding get_diff_and_shrink
  shrink-finalized l h = ground (arith, drop-length l.foreign_items)

  pub checked-finalized :
      (p : Propagator refs)
      → (do_check refs p).propagation_list.is_primary_finalized ≡ true
      → (do_check refs p).propagation_list.foreign_items ≡ []
  checked-finalized p h = rw (do_check-list p) (
      shrink-finalized p.propagation_list
        (ap (λ (l : PropagationList refs). l.is_primary_finalized) (sym (do_check-list p)) ∙ h))

  History-finalized :
      {p : Propagator refs} {ps fs : List Ref}
      → History refs p ps fs
      → p.propagation_list.is_primary_finalized ≡ true
      → p.propagation_list.foreign_items ≡ []
  unfolding on_data on_end on_sent on_primary_response new_propagator
  History-finalized (created request) e = refl
  History-finalized (data_found r h _) e = checked-finalized _ e
  History-finalized (data_ended h) e = checked-finalized _ e
  History-finalized (diff_sent i h) e = checked-finalized _ e
  History-finalized (primary_response response h _ _) e = checked-finalized _ e

  -- Where the references of the primary and those of this node each come in strictly increasing
  -- order, and no response of the primary follows its final one, then however the events interleave,
  -- from that final response on the node has asked its database for exactly those of its references
  -- that the primary has not named, in their order.
  pub History-asked :
      {p : Propagator refs} {ps fs : List Ref}
      → History refs p ps fs
      → p.propagation_list.is_primary_finalized ≡ true
      → asked refs p.sent ≡ minus refs fs ps
  History-asked {p} h e =
      sym (append-nil (asked refs p.sent))
      ∙ ap (◌++◌ (asked refs p.sent)) (sym (History-finalized h e))
      ∙ Run-difference refs (History-Run refs h)
