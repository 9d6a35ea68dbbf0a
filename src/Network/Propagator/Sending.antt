-- ===== src/Network/Propagator/Sending.antt =====
-- All that a Propagator sends, and when.
use logstore_node.Base.{
  ℕ, ◌≡◌, refl, sym, subst, ◌∙◌, Bool, true, false, List, [], ◌∷◌, ◌++◌, arith, append-nil,
  append_assoc,
}
use logstore_node.Protocol.{MessageRefs, QueryRequest, QueryResponse}
use logstore_node.Network.PropagationList.{
  PropagationList, push_primary, push_foreign, finalize_foreign, is_finalized, get_diff_and_shrink,
}
use logstore_node.Network.PropagationList.Increasing.{Ends}
use logstore_node.Network.PropagationList.History.{
  Run, start, primary, foreign, primary_end, foreign_end, collect,
}
use logstore_node.Network.Propagator.{
  Sent, Propagator, new_propagator, send_diff, do_check, on_data, on_end, on_sent, push_all_primary,
  finalize_if, on_primary_response,
}

module _ (refs : MessageRefs) where
  open refs use {Ref}

  -- All the references that were asked for, in order.
  unfoldable pub asked : List (Sent refs) → List Ref
  asked [] = []
  asked (s ∷ ss) = s.message_refs ++ asked ss

  -- The references continue the list in strictly increasing order.
  abbrev pub Increases : List Ref → List Ref → Type 0
  Increases ps [] = Unit
  Increases ps (r ∷ rs) = Ends refs ps r × Increases (ps ++ r ∷ []) rs

  push_primary-kept :
      (l : PropagationList refs) (r : Ref)
      → (push_primary refs l r).is_primary_finalized ≡ l.is_primary_finalized
  unfolding push_primary
  push_primary-kept l r = ground arith

  asked-snoc :
      (ss : List (Sent refs)) (s : Sent refs) → asked (ss ++ s ∷ []) ≡ asked ss ++ s.message_refs
  unfolding asked
  asked-snoc [] s = append-nil s.message_refs
  asked-snoc (t ∷ ts) s =
      rw (asked-snoc ts s) (sym (append_assoc t.message_refs (asked ts) s.message_refs))

  pub send_diff-parts :
      (p : Propagator refs) (diff : List Ref) (list : PropagationList refs)
      → ((send_diff refs p diff list).propagation_list ≡ list)
        × (asked (send_diff refs p diff list).sent ≡ asked p.sent ++ diff)
  unfolding send_diff
  send_diff-parts p [] list = (ground arith, ground (arith, append-nil (asked p.sent)))
  send_diff-parts p (r ∷ rs) list = (
    refl,
    asked-snoc p.sent
        (record { stream = p.next_stream; message_refs = r ∷ rs; ends = is_finalized refs list }),
  )

  -- A check is one collection of the list.
  do_check-Run :
      (p : Propagator refs) (ps fs : List Ref)
      → Run refs p.propagation_list ps fs (asked p.sent)
      → Run refs (do_check refs p).propagation_list ps fs (asked (do_check refs p).sent)
  unfolding do_check
  do_check-Run p ps fs run =
      let (diff, list) = get_diff_and_shrink refs p.propagation_list in
      let (kept, added) = send_diff-parts p diff list in rw (kept, added) (collect run)

  push_all_primary-Run :
      (l : PropagationList refs) (rs ps fs sent : List Ref)
      → Run refs l ps fs sent
      → l.is_primary_finalized ≡ false
      → Increases ps rs
      → Run refs (push_all_primary refs l rs) (ps ++ rs) fs sent
        × ((push_all_primary refs l rs).is_primary_finalized ≡ false)
  unfolding push_all_primary
  push_all_primary-Run l [] ps fs sent run open_end inc =
      (subst (λ qs. Run refs l qs fs sent) (sym (append-nil ps)) run, open_end)
  push_all_primary-Run l (r ∷ rs) ps fs sent run open_end inc =
      let (more, still) =
        push_all_primary-Run (push_primary refs l r) rs (ps ++ r ∷ []) fs sent
          (primary r run open_end inc.0) (push_primary-kept l r ∙ open_end) inc.1 in
      (
        subst (λ qs. Run refs (push_all_primary refs (push_primary refs l r) rs) qs fs sent)
            (append_assoc ps (r ∷ []) rs) more,
        still,
      )

  finalize_if-Run :
      (b : Bool) (l : PropagationList refs) (ps fs sent : List Ref)
      → Run refs l ps fs sent
      → Run refs (finalize_if refs b l) ps fs sent
  finalize_if-Run true l ps fs sent run = primary_end run
  finalize_if-Run false l ps fs sent run = run

  -- A history of a propagator: the references that the primary has named and those that this node
  -- has found so far. Both come in increasing order, and the primary's end with its final response.
  pub data History : Propagator refs → List Ref → List Ref → Type 0 where
    created : (request : QueryRequest) → History (new_propagator refs request) [] []
    data_found :
        {p : Propagator refs} {ps fs : List Ref} (r : Ref)
        → History p ps fs
        → Ends refs fs r
        → History (on_data refs p r) ps (fs ++ r ∷ [])
    data_ended :
        {p : Propagator refs} {ps fs : List Ref} → History p ps fs → History (on_end refs p) ps fs
    diff_sent :
        {p : Propagator refs} {ps fs : List Ref} (i : ℕ)
        → History p ps fs
        → History (on_sent refs p i) ps fs
    primary_response :
        {p : Propagator refs} {ps fs : List Ref} (response : QueryResponse refs)
        → History p ps fs
        → p.propagation_list.is_primary_finalized ≡ false
        → Increases ps response.message_refs
        → History (on_primary_response refs p response) (ps ++ response.message_refs) fs

  pub History-Run :
      {p : Propagator refs} {ps fs : List Ref}
      → History p ps fs
      → Run refs p.propagation_list ps fs (asked p.sent)
  unfolding on_data on_end on_sent on_primary_response new_propagator asked
  History-Run (created request) = start
  History-Run (data_found {p} {ps} {fs} r h e) =
      do_check-Run (record p { propagation_list = push_foreign refs p.propagation_list r }) ps
        (fs ++ r ∷ []) (foreign r (History-Run h) e)
  History-Run (data_ended {p} {ps} {fs} h) =
      do_check-Run (record p { propagation_list = finalize_foreign refs p.propagation_list }) ps fs
        (foreign_end (History-Run h))
  History-Run (diff_sent {p} {ps} {fs} i h) = do_check-Run _ ps fs (History-Run h)
  History-Run (primary_response {p} {ps} {fs} response h open_end inc) =
      do_check-Run _ (ps ++ response.message_refs) fs (
        finalize_if-Run response.is_final
          (push_all_primary refs p.propagation_list response.message_refs)
          (ps ++ response.message_refs) fs (asked p.sent)
          (push_all_primary-Run p.propagation_list response.message_refs ps fs (asked p.sent)
            (History-Run h) open_end inc).0)
