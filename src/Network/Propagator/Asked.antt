-- ===== src/Network/Propagator/Asked.antt =====
-- What a Propagator has asked its database for, whatever the order of the references.
use logstore_node.Base.{
  ℕ, ◌≡◌, refl, sym, subst, ap, ◌∙◌, Bool, true, false, List, [], ◌∷◌, ◌++◌, append-nil,
  append_assoc,
}
use logstore_node.Protocol.{MessageRefs, QueryRequest, QueryResponse}
use logstore_node.Network.PropagationList.{
  PropagationList, push_primary, push_foreign, finalize_foreign, finalize_primary,
  get_diff_and_shrink,
}
use logstore_node.Network.PropagationList.Increasing.{minus}
use logstore_node.Network.PropagationList.Kept.{
  IsKept, push_primary-IsKept, push_foreign-IsKept, collect-IsKept,
}
use logstore_node.Network.Propagator.{
  Propagator, new_propagator, do_check, on_data, on_end, on_sent, push_all_primary, finalize_if,
  on_primary_response,
}
use logstore_node.Network.Propagator.Sending.{asked, send_diff-parts}
use logstore_node.Network.Propagator.Complete.{checked-finalized}

module _ (refs : MessageRefs) where
  open refs use {Ref}

  -- Any events of a propagator, and the references that the primary has named and that this node
  -- has found so far, each in the order of the events.
  pub data Events : Propagator refs → List Ref → List Ref → Type 0 where
    created : (request : QueryRequest) → Events (new_propagator refs request) [] []
    data_found :
        {p : Propagator refs} {ps fs : List Ref} (r : Ref)
        → Events p ps fs
        → Events (on_data refs p r) ps (fs ++ r ∷ [])
    data_ended :
        {p : Propagator refs} {ps fs : List Ref} → Events p ps fs → Events (on_end refs p) ps fs
    diff_sent :
        {p : Propagator refs} {ps fs : List Ref} (i : ℕ)
        → Events p ps fs
        → Events (on_sent refs p i) ps fs
    primary_response :
        {p : Propagator refs} {ps fs : List Ref} (response : QueryResponse refs)
        → Events p ps fs
        → Events (on_primary_response refs p response) (ps ++ response.message_refs) fs

  -- The list of a propagator, and what was asked for.
  abbrev Keeps : Propagator refs → List Ref → List Ref → Type 0
  Keeps p ps fs = IsKept refs p.propagation_list ps fs (asked refs p.sent)

  do_check-Keeps :
      (p : Propagator refs) (ps fs : List Ref) → Keeps p ps fs → Keeps (do_check refs p) ps fs
  unfolding do_check
  do_check-Keeps p ps fs v =
      let (diff, list) = get_diff_and_shrink refs p.propagation_list in
      let (kept, added) = send_diff-parts refs p diff list in
      rw (kept, added) (collect-IsKept refs v)

  push_all_primary-IsKept :
      (l : PropagationList refs) (rs ps fs sent : List Ref)
      → IsKept refs l ps fs sent
      → IsKept refs (push_all_primary refs l rs) (ps ++ rs) fs sent
  unfolding push_all_primary
  push_all_primary-IsKept l [] ps fs sent v =
      subst (λ qs. IsKept refs l qs fs sent) (sym (append-nil ps)) v
  push_all_primary-IsKept l (r ∷ rs) ps fs sent v =
      subst (λ qs. IsKept refs (push_all_primary refs (push_primary refs l r) rs) qs fs sent)
        (append_assoc ps (r ∷ []) rs)
        (push_all_primary-IsKept (push_primary refs l r) rs (ps ++ r ∷ []) fs sent
          (push_primary-IsKept refs v r))

  finalize_if-IsKept :
      (b : Bool) (l : PropagationList refs) (ps fs sent : List Ref)
      → IsKept refs l ps fs sent
      → IsKept refs (finalize_if refs b l) ps fs sent
  unfolding finalize_primary
  finalize_if-IsKept true l ps fs sent v = record { known = v.known; left = v.left }
  finalize_if-IsKept false l ps fs sent v = v

  Events-Keeps : {p : Propagator refs} {ps fs : List Ref} → Events p ps fs → Keeps p ps fs
  unfolding on_data on_end on_sent on_primary_response new_propagator asked finalize_foreign
  Events-Keeps (created request) = record { known = λ q h. h; left = refl }
  Events-Keeps (data_found {p} {ps} {fs} r h) =
      do_check-Keeps (record p { propagation_list = push_foreign refs p.propagation_list r }) ps
        (fs ++ r ∷ []) (push_foreign-IsKept refs (Events-Keeps h) r)
  Events-Keeps (data_ended {p} {ps} {fs} h) =
      let v = Events-Keeps h in
      do_check-Keeps (record p { propagation_list = finalize_foreign refs p.propagation_list }) ps
        fs (record { known = v.known; left = v.left })
  Events-Keeps (diff_sent {p} {ps} {fs} i h) =
      let v = Events-Keeps h in do_check-Keeps _ ps fs (record { known = v.known; left = v.left })
  Events-Keeps (primary_response {p} {ps} {fs} response h) =
      do_check-Keeps _ (ps ++ response.message_refs) fs (
        finalize_if-IsKept response.is_final
          (push_all_primary refs p.propagation_list response.message_refs)
          (ps ++ response.message_refs) fs (asked refs p.sent)
          (push_all_primary-IsKept p.propagation_list response.message_refs ps fs
            (asked refs p.sent) (Events-Keeps h)))

  Events-finalized :
      {p : Propagator refs} {ps fs : List Ref}
      → Events p ps fs
      → p.propagation_list.is_primary_finalized ≡ true
      → p.propagation_list.foreign_items ≡ []
  unfolding on_data on_end on_sent on_primary_response new_propagator
  Events-finalized (created request) e = refl
  Events-finalized (data_found r h) e = checked-finalized refs _ e
  Events-finalized (data_ended h) e = checked-finalized refs _ e
  Events-finalized (diff_sent i h) e = checked-finalized refs _ e
  Events-finalized (primary_response response h) e = checked-finalized refs _ e

  -- Whatever the references, their order and the interleaving of the events: once a response of the
  -- primary was final, of the references that the primary has not named the node has asked its
  -- database for each one that it has found, in the order in which it found them and as often.
  -- References of the primary that it has asked for as well are left out on both sides.
  pub Events-asked :
      {p : Propagator refs} {ps fs : List Ref}
      → Events p ps fs
      → p.propagation_list.is_primary_finalized ≡ true
      → minus refs (asked refs p.sent) ps ≡ minus refs fs ps
  Events-asked {p} {ps} h e =
      ap (λ t. minus refs t ps)
        (sym (append-nil (asked refs p.sent))
          ∙ ap (◌++◌ (asked refs p.sent)) (sym (Events-finalized h e)))
      ∙ (Events-Keeps h).left
