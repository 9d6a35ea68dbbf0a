-- ===== src/Network/AggregationList/Status.antt =====
-- An AggregationList as a finite map from references to their readiness.
use logstore_node.Base.{
  ◌≡◌, refl, Bool, true, ◌||◌, Option, none, some, List, [], ◌∷◌, arith, drop, Option-cases, inl,
  inr, count_while, if◌then◌else◌,
}
use logstore_node.Protocol.{MessageRefs, compare_to_cases}
use logstore_node.Network.AggregationList.{
  Item, AggregationList, at_most_zero, is_zero, is_stale, insert_sorted, mark_ready, push, shrink,
}
use logstore_node.Network.AggregationList.Order.{
  IsChain, IsOrdered, find_ref, new_item, sort-append,
}

module _ (refs : MessageRefs) where
  open refs use {Ref, compare_to}

  -- `none`: the list does not hold the reference.
  unfoldable pub status : List (Item refs) → Ref → Option Bool
  status [] q = none
  status (x ∷ xs) q = if is_zero (compare_to x.message_ref q) then some x.is_ready else status xs q

  -- What a push writes at its reference.
  abbrev pub joined : Option Bool → Bool → Bool
  joined none ready = ready
  joined (some old) ready = old || ready

  status-find : (xs : List (Item refs)) (q : Ref) → find_ref refs q xs ≡ none → status xs q ≡ none
  unfolding status
  status-find [] q h = refl
  status-find (x ∷ xs) q h = ground (arith, status-find xs q)

  status-insert :
      (b : Option Ref) (xs : List (Item refs)) (x : Item refs) (q : Ref)
      → IsChain refs b xs
      → status xs x.message_ref ≡ none
      → status (insert_sorted refs x xs) q
        ≡ (if is_zero (compare_to x.message_ref q) then some x.is_ready else status xs q)
  unfolding status insert_sorted
  status-insert b [] x q c h = refl
  status-insert b (y ∷ ys) x q c h = ground (
    arith,
    compare_to_cases refs y.message_ref x.message_ref,
    compare_to_cases refs x.message_ref q,
    compare_to_cases refs y.message_ref q,
    status-insert (some y.message_ref) ys x q c.1,
  )

  status-mark :
      (xs : List (Item refs)) (r : Ref) (ready : Bool) (q : Ref) (old : Item refs)
      → find_ref refs r xs ≡ some old
      → status (mark_ready refs r ready xs) q
        ≡ (if is_zero (compare_to r q) then some (joined (status xs r) ready) else status xs q)
  unfolding status mark_ready
  status-mark [] r ready q old h = ground arith
  status-mark (x ∷ xs) r ready q old h = ground (
    arith,
    compare_to_cases refs x.message_ref r,
    compare_to_cases refs r q,
    compare_to_cases refs x.message_ref q,
    status-mark xs r ready q old,
  )

  -- A push above the threshold joins the readiness into the entry of its reference, and leaves
  -- every other reference alone; a push at or below the threshold changes nothing.
  pub status-push :
      (l : AggregationList refs) (r : Ref) (ready : Bool) (q : Ref)
      → IsOrdered refs l
      → status (push refs l r ready).items q ≡ (
          if is_stale refs l.threshold r
          then status l.items q
          else if is_zero (compare_to r q)
          then some (joined (status l.items r) ready)
          else status l.items q)
  unfolding push
  status-push l r ready q c = elim (Option-cases (find_ref refs r l.items)) [
    | inl absent ↦ ground (
      arith,
      status-find l.items r absent,
      sort-append refs l.threshold l.items (new_item refs r ready) c absent,
      status-insert l.threshold l.items (new_item refs r ready) q c,
    )
    | inr (old, found) ↦ ground (arith, status-mark l.items r ready q old found)
  ]

  status_above :
      (b : Option Ref) (t q : Ref) (xs : List (Item refs))
      → IsChain refs (some t) xs
      → at_most_zero (compare_to q t) ≡ true
      → status xs q ≡ none
  unfolding status
  status_above b t q [] c h = refl
  status_above b t q (x ∷ xs) c h = ground (
    arith,
    compare_to_cases refs q t,
    compare_to_cases refs x.message_ref q,
    status_above b x.message_ref q xs c.1,
    compare_to_cases refs q x.message_ref,
  )

  status-drop :
      (b : Option Ref) (t q : Ref) (xs : List (Item refs))
      → IsChain refs b xs
      → status
          (drop (count_while (λ (x : Item refs). at_most_zero (compare_to x.message_ref t)) xs) xs)
          q
        ≡ (if at_most_zero (compare_to q t) then none else status xs q)
  unfolding status
  status-drop b t q [] c = ground arith
  status-drop b t q (x ∷ xs) c = ground (
    arith,
    compare_to_cases refs x.message_ref t,
    compare_to_cases refs x.message_ref q,
    compare_to_cases refs q t,
    status_above b x.message_ref q xs c.1,
    compare_to_cases refs q x.message_ref,
    status-drop (some x.message_ref) t q xs c.1,
  )

  -- A shrink forgets exactly the references up to the threshold.
  pub status-shrink :
      (l : AggregationList refs) (t q : Ref)
      → IsOrdered refs l
      → status (shrink refs l t).items q
        ≡ (if at_most_zero (compare_to q t) then none else status l.items q)
  unfolding shrink
  status-shrink l t q c = status-drop l.threshold t q l.items c
