-- ===== src/Network/AggregationList/Ready.antt =====
-- The range of an AggregationList that is ready to be read.
use logstore_node.Base.{
  suc, ◌-◌, ◌≡◌, refl, ◌⊎◌, inl, inr, Bool, true, Option, none, some, List, [], ◌∷◌, ◌++◌, arith,
  drop, count_while, if◌then◌else◌, All, length, ◌≤◌, take, take-append-drop, sym, Bool-cases,
}
use logstore_node.Protocol.{MessageRefs, compare_to_cases}
use logstore_node.Network.AggregationList.{
  Item, AggregationList, at_most_zero, ready_from, ready_to, ref_at, shrink,
}
use logstore_node.Network.AggregationList.Order.{IsChain, IsOrdered}

module _ (refs : MessageRefs) where
  open refs use {Ref, compare_to}

  abbrev pub is_ready_item : Item refs → Bool
  is_ready_item x = x.is_ready

  abbrev pub is_up_to : Ref → Item refs → Bool
  is_up_to t x = at_most_zero (compare_to x.message_ref t)

  -- The last of the ready items at the front, with the first item given apart.
  abbrev last_ready : Item refs → List (Item refs) → Ref
  last_ready x [] = x.message_ref
  last_ready x (y ∷ ys) = if y.is_ready then last_ready y ys else x.message_ref

  ref_at-count_while :
      (x : Item refs) (xs : List (Item refs))
      → ref_at refs (x ∷ xs) (count_while is_ready_item xs) ≡ some (last_ready x xs)
  unfolding ref_at
  ref_at-count_while x [] = refl
  ref_at-count_while x (y ∷ ys) = ground (arith, ref_at-count_while y ys)

  count_while-le-length : (xs : List (Item refs)) → count_while is_ready_item xs ≤ length xs
  count_while-le-length [] = omega arith
  count_while-le-length (x ∷ xs) = ground (arith, count_while-le-length xs)

  ready_to-last :
      (x : Item refs) (xs : List (Item refs)) (b : Option Ref)
      → ready_to refs (record { items = x ∷ xs; threshold = b })
        ≡ (if x.is_ready then some (last_ready x xs) else none)
  unfolding ready_to
  ready_to-last x xs b =
      let e : suc (count_while is_ready_item xs) - 1 ≡ count_while is_ready_item xs = omega arith in
      rw e (ground (arith, ref_at-count_while x xs, count_while-le-length xs))

  last_ready-bound :
      (b : Option Ref) (x : Item refs) (xs : List (Item refs))
      → IsChain refs b (x ∷ xs)
      → at_most_zero (compare_to x.message_ref (last_ready x xs)) ≡ true
  last_ready-bound b x [] c = ground (arith, compare_to_cases refs x.message_ref x.message_ref)
  last_ready-bound b x (y ∷ ys) c = ground (
    arith,
    compare_to_cases refs x.message_ref x.message_ref,
    compare_to_cases refs x.message_ref (last_ready y ys),
    compare_to_cases refs y.message_ref (last_ready y ys),
    last_ready-bound (some x.message_ref) y ys c.1,
  )

  count_while-last_ready :
      (b : Option Ref) (x : Item refs) (xs : List (Item refs))
      → IsChain refs b (x ∷ xs)
      → count_while (is_up_to (last_ready x xs)) (x ∷ xs) ≡ suc (count_while is_ready_item xs)
  count_while-last_ready b x [] c =
      ground (arith, compare_to_cases refs x.message_ref x.message_ref)
  count_while-last_ready b x (y ∷ ys) c = ground (
    arith,
    last_ready-bound b x (y ∷ ys) c,
    compare_to_cases refs y.message_ref x.message_ref,
    count_while-last_ready (some x.message_ref) y ys c.1,
  )

  ready_block :
      (xs : List (Item refs))
      → All (λ (x : Item refs). x.is_ready ≡ true) (take (count_while is_ready_item xs) xs)
  ready_block [] = tt
  ready_block (x ∷ xs) = ground (arith, ready_block xs)

  rest_not_ready :
      (xs : List (Item refs)) (b : Option Ref)
      → ready_from refs (record { items = drop (count_while is_ready_item xs) xs; threshold = b })
        ≡ none
  unfolding ready_from
  rest_not_ready [] b = refl
  rest_not_ready (x ∷ xs) b = ground (arith, rest_not_ready xs b)

  shrink_block :
      (b : Option Ref) (xs : List (Item refs)) (t : Ref)
      → IsChain refs b xs
      → ready_to refs (record { items = xs; threshold = b }) ≡ some t
      → count_while (is_up_to t) xs ≡ count_while is_ready_item xs
  shrink_block b [] t c h = refl
  shrink_block b (x ∷ xs) t c h =
      ground (arith, ready_to-last x xs b, count_while-last_ready b x xs c)

  -- Once the list reports a range of ready references, shrinking to its end removes exactly the
  -- maximal block of ready items at the front: the removed items are all ready, and the first
  -- item that stays, if any, is not.
  pub shrink-ready_to :
      (l : AggregationList refs) (t : Ref)
      → IsOrdered refs l
      → ready_to refs l ≡ some t
      → let n = count_while is_ready_item l.items in
        (l.items ≡ take n l.items ++ (shrink refs l t).items)
        × All (λ (x : Item refs). x.is_ready ≡ true) (take n l.items)
        × (ready_from refs (shrink refs l t) ≡ none)
  unfolding shrink
  shrink-ready_to l t c h =
      let n = count_while is_ready_item l.items in
      let e = shrink_block l.threshold l.items t c h in
      (
        rw e (sym (take-append-drop n l.items)),
        ready_block l.items,
        rw e (rest_not_ready l.items (some t)),
      )

  -- Both ends of the ready range are there, in order, or neither is.
  abbrev pub IsRange : Option Ref → Option Ref → Type 0
  IsRange from to =
      ((from ≡ none) × (to ≡ none))
      ⊎ ((f : Ref) × (t : Ref) × (from ≡ some f)
          × (to ≡ some t)
          × (at_most_zero (compare_to f t) ≡ true))

  ready_cases :
      (b : Option Ref) (xs : List (Item refs))
      → IsChain refs b xs
      → let l : AggregationList refs = record { items = xs; threshold = b } in
        IsRange (ready_from refs l) (ready_to refs l)
  unfolding ready_from ready_to
  ready_cases b [] c = inl (refl, refl)
  ready_cases b (x ∷ xs) c = elim (Bool-cases x.is_ready) [
    | inl ready ↦ inr (
      x.message_ref,
      last_ready x xs,
      rw ready,
      ground (arith, ready_to-last x xs b),
      last_ready-bound b x xs c,
    )
    | inr waiting ↦ inl (rw waiting, ground (arith, ready_to-last x xs b))
  ]

  -- The list reports a start and an end of the ready range together, and the start does not come
  -- after the end.
  pub ready_from-ready_to :
      (l : AggregationList refs) → IsOrdered refs l → IsRange (ready_from refs l) (ready_to refs l)
  ready_from-ready_to l c = ready_cases l.threshold l.items c

  count_while-All :
      (xs : List (Item refs))
      → All (λ (x : Item refs). x.is_ready ≡ true) xs
      → drop (count_while is_ready_item xs) xs ≡ []
  count_while-All [] h = refl
  count_while-All (x ∷ xs) h = ground (arith, h.0, count_while-All xs h.1)

  -- Where every item is ready, shrinking to the end of the ready range empties the list.
  pub shrink-All :
      (l : AggregationList refs) (t : Ref)
      → IsOrdered refs l
      → All (λ (x : Item refs). x.is_ready ≡ true) l.items
      → ready_to refs l ≡ some t
      → (shrink refs l t).items ≡ []
  unfolding shrink
  shrink-All l t c h k = rw (shrink_block l.threshold l.items t c k) (count_while-All l.items h)

  front_cases :
      (b : Option Ref) (xs : List (Item refs))
      → All (λ (x : Item refs). x.is_ready ≡ true) xs
      → (xs ≡ []) ⊎ ((f : Ref) × (ready_from refs (record { items = xs; threshold = b }) ≡ some f))
  unfolding ready_from
  front_cases b [] h = inl refl
  front_cases b (x ∷ xs) h = inr (x.message_ref, rw h.0)

  -- A list of ready items is empty, or has a ready range.
  pub front-IsRange :
      (l : AggregationList refs)
      → IsOrdered refs l
      → All (λ (x : Item refs). x.is_ready ≡ true) l.items
      → (l.items ≡ [])
        ⊎ ((f : Ref) × (t : Ref) × (ready_from refs l ≡ some f) × (ready_to refs l ≡ some t))
  front-IsRange l c h = elim (front_cases l.threshold l.items h) [
    | inl e ↦ inl e
    | inr (f, e) ↦ elim (ready_from-ready_to l c) [
      | inl k ↦ cc
      | inr (f', t, e', k, _) ↦ inr (f, t, e, k)
    ]
  ]
