-- ===== src/Network/Propagator/Premature.antt =====
-- The propagation stream may end before all of its sources.
use logstore_node.Base.{
  ℕ, ◌≡◌, ap, ◌∙◌, Bool, true, not, ◌&&◌, ◌||◌, List, [], ◌∷◌, ◌++◌, arith, filter, ◌==◌, length,
  take-length, any, ◌<◌,
}
use logstore_node.Protocol.{MessageRefs}
use logstore_node.Network.PropagationList.{PropagationList, get_diff_and_shrink, splice_front}
use logstore_node.Network.PropagationList.Difference.{collect_finalized}
use logstore_node.Network.Propagator.{Sent, Propagator, send_diff, do_check, on_sent}

module _ (refs : MessageRefs) where
  open refs use {Ref}

  -- A finalised propagator with a reference to send and the stream of an earlier query still open:
  -- the new query's stream is piped so that its end ends the propagation stream.
  pub record IsEarly (p : Propagator refs) (i : ℕ) (r : Ref) (rs : List Ref) : Type 0 where
    pub primary_done : p.propagation_list.is_primary_finalized ≡ true
    pub foreign_done : p.propagation_list.is_foreign_finalized ≡ true
    pub left : p.propagation_list.foreign_items ≡ r ∷ rs
    pub open_stream : p.query_streams ≡ i ∷ []
    pub older : i < p.next_stream

  any-snoc :
      (f : Sent refs → Bool) (xs : List (Sent refs)) (x : Sent refs)
      → f x ≡ true
      → any f (xs ++ x ∷ []) ≡ true
  any-snoc f [] x h = rw h
  any-snoc f (y ∷ ys) x h = ground (arith, any-snoc f ys x h)

  any-append_left : (f : ℕ → Bool) (xs ys : List ℕ) → any f xs ≡ true → any f (xs ++ ys) ≡ true
  any-append_left f [] ys h = cc
  any-append_left f (x ∷ xs) ys h = ground (arith, any-append_left f xs ys)

  send_diff-kept :
      (p : Propagator refs) (diff : List Ref) (list : PropagationList refs) (i : ℕ)
      → p.has_ended ≡ true
      → any (λ j. j == i) p.query_streams ≡ true
      → ((send_diff refs p diff list).has_ended ≡ true)
        × (any (λ j. j == i) (send_diff refs p diff list).query_streams ≡ true)
  unfolding send_diff
  send_diff-kept p [] list i h k = ground arith
  send_diff-kept p (r ∷ rs) list i h k =
      (h, any-append_left (λ j. j == i) p.query_streams (p.next_stream ∷ []) k)

  -- A check neither reopens the stream nor forgets a query.
  do_check-kept :
      (p : Propagator refs) (i : ℕ)
      → p.has_ended ≡ true
      → any (λ j. j == i) p.query_streams ≡ true
      → ((do_check refs p).has_ended ≡ true)
        × (any (λ j. j == i) (do_check refs p).query_streams ≡ true)
  unfolding do_check
  do_check-kept p i h k =
      let (diff, list) = get_diff_and_shrink refs p.propagation_list in
      send_diff-kept p diff list i h k

  check_early :
      (p : Propagator refs) (i : ℕ) (r : Ref) (rs : List Ref)
      → IsEarly p i r rs
      → do_check refs p
        ≡ send_diff refs p
            (r ∷ rs)
            (splice_front refs p.propagation_list (length p.propagation_list.foreign_items)).1
  unfolding do_check
  check_early p i r rs v =
      let l = p.propagation_list in
      ap (λ (c : List Ref × PropagationList refs). send_diff refs p c.0 c.1)
        (collect_finalized refs l v.primary_done)
      ∙ ap (λ (xs : List Ref). send_diff refs p xs (splice_front refs l (length l.foreign_items)).1)
          (take-length l.foreign_items ∙ v.left)

  -- The pipe of the new query is set to end the propagation stream.
  Finalized-ends :
      (p : Propagator refs)
      → p.propagation_list.is_primary_finalized ≡ true
      → p.propagation_list.is_foreign_finalized ≡ true
      → (p.propagation_list.is_primary_finalized && p.propagation_list.is_foreign_finalized) ≡ true
  Finalized-ends p h k = ground arith

  ended_after :
      (p : Propagator refs) (r : Ref) (rs : List Ref)
      → (p.propagation_list.is_primary_finalized && p.propagation_list.is_foreign_finalized) ≡ true
      → (p.has_ended
          || any
              (λ (s : Sent refs). s.stream == p.next_stream && s.ends)
              (p.sent
                ++ record {
                  stream = p.next_stream;
                  message_refs = r ∷ rs;
                  ends =
                      p.propagation_list.is_primary_finalized
                      && p.propagation_list.is_foreign_finalized;
                }
                  ∷ []))
        ≡ true
  ended_after p r rs h =
      rw
        (any-snoc (λ (s : Sent refs). s.stream == p.next_stream && s.ends) p.sent
          (record {
            stream = p.next_stream;
            message_refs = r ∷ rs;
            ends =
                p.propagation_list.is_primary_finalized && p.propagation_list.is_foreign_finalized;
          })
          (ground arith))
        (ground arith)

  still_open :
      (p : Propagator refs) (i : ℕ)
      → p.query_streams ≡ i ∷ []
      → i < p.next_stream
      → any
          (λ j. j == i)
          (filter (λ j. not (j == p.next_stream)) (p.query_streams ++ p.next_stream ∷ []))
        ≡ true
  still_open p i h k = rw h (ground arith)

  -- Where both sides have ended, a difference is left to send and the stream of an earlier query is
  -- open, a check starts a newer stream; when the newer stream ends first, the propagation stream
  -- has ended while the older query is still open.
  pub on_sent_early :
      (p : Propagator refs) (i : ℕ) (r : Ref) (rs : List Ref)
      → IsEarly p i r rs
      → let q = on_sent refs (do_check refs p) p.next_stream in
        (q.has_ended ≡ true) × (any (λ j. j == i) q.query_streams ≡ true)
  unfolding on_sent send_diff
  on_sent_early p i r rs v =
      let ends = Finalized-ends p v.primary_done v.foreign_done in
      rw (check_early p i r rs v)
        (do_check-kept _ i (ended_after p r rs ends) (still_open p i v.open_stream v.older))
