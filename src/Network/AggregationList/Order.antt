-- ===== src/Network/AggregationList/Order.antt =====
-- The order of an AggregationList: strictly increasing, and above the threshold.
use logstore_node.Base.{
  ◌≡◌, refl, subst, inl, inr, Bool, false, Option, none, some, List, [], ◌∷◌, ◌++◌, arith, find,
  drop, count_while, Bool-cases,
}
use logstore_node.Protocol.{MessageRefs, Precedes, compare_to_cases}
use logstore_node.Network.AggregationList.{
  Item, AggregationList, is_zero, is_stale, insert_sorted, sort_items, mark_ready, push, ready_from,
  shrink, at_most_zero,
}

module _ (refs : MessageRefs) where
  open refs use {Ref, compare_to}

  -- Strictly increasing, and above the bound where there is one.
  abbrev pub Above : Option Ref → Ref → Type 0
  Above none r = Unit
  Above (some t) r = Precedes refs t r

  abbrev pub IsChain : Option Ref → List (Item refs) → Type 0
  IsChain b [] = Unit
  IsChain b (x ∷ xs) = Above b x.message_ref × IsChain (some x.message_ref) xs

  abbrev pub IsOrdered : AggregationList refs → Type 0
  IsOrdered l = IsChain l.threshold l.items

  pub Above-trans : (b : Option Ref) (x y : Ref) → Above b x → Precedes refs x y → Above b y
  Above-trans none x y h k = tt
  Above-trans (some t) x y h k = ground arith

  pub IsChain-weaken :
      (b : Option Ref) (x : Ref) (xs : List (Item refs))
      → Above b x
      → IsChain (some x) xs
      → IsChain b xs
  IsChain-weaken b x [] h c = tt
  IsChain-weaken b x (y ∷ ys) h c = (Above-trans b x y.message_ref h c.0, c.1)

  insert_before :
      (x : Item refs) (xs : List (Item refs))
      → IsChain (some x.message_ref) xs
      → insert_sorted refs x xs ≡ x ∷ xs
  unfolding insert_sorted
  insert_before x [] c = refl
  insert_before x (y ∷ ys) c = ground (arith, compare_to_cases refs y.message_ref x.message_ref)

  -- The find of `push` at a reference.
  abbrev pub find_ref : Ref → List (Item refs) → Option (Item refs)
  find_ref r = find (λ (y : Item refs). is_zero (compare_to y.message_ref r))

  insert-IsChain :
      (b : Option Ref) (xs : List (Item refs)) (x : Item refs)
      → IsChain b xs
      → Above b x.message_ref
      → find_ref x.message_ref xs ≡ none
      → IsChain b (insert_sorted refs x xs)
  unfolding insert_sorted
  insert-IsChain b [] x c a h = (a, tt)
  insert-IsChain b (y ∷ ys) x c a h = ground (
    arith,
    compare_to_cases refs y.message_ref x.message_ref,
    insert-IsChain (some y.message_ref) ys x c.1,
  )

  pub sort-append :
      (b : Option Ref) (xs : List (Item refs)) (x : Item refs)
      → IsChain b xs
      → find_ref x.message_ref xs ≡ none
      → sort_items refs (xs ++ x ∷ []) ≡ insert_sorted refs x xs
  unfolding sort_items insert_sorted
  sort-append b [] x c h = refl
  sort-append b (y ∷ ys) x c h = ground (
    arith,
    compare_to_cases refs y.message_ref x.message_ref,
    compare_to_cases refs x.message_ref y.message_ref,
    sort-append (some y.message_ref) ys x c.1,
    insert-IsChain (some y.message_ref) ys x c.1,
    insert_before x ys,
    insert_before y ys,
    insert_before y (insert_sorted refs x ys),
    IsChain-weaken (some x.message_ref) y.message_ref ys,
  )

  mark-IsChain :
      (b : Option Ref) (r : Ref) (ready : Bool) (xs : List (Item refs))
      → IsChain b xs
      → IsChain b (mark_ready refs r ready xs)
  unfolding mark_ready
  mark-IsChain b r ready [] c = tt
  mark-IsChain b r ready (x ∷ xs) c =
      ground (arith, mark-IsChain (some x.message_ref) r ready xs c.1)

  pub fresh-Above : (b : Option Ref) (r : Ref) → is_stale refs b r ≡ false → Above b r
  fresh-Above none r h = tt
  fresh-Above (some t) r h = ground (arith, compare_to_cases refs t r)

  -- What a call of `push` with this reference adds.
  abbrev pub new_item : Ref → Bool → Item refs
  new_item r ready = record { message_ref = r; is_ready = ready }

  -- Every push keeps a list that is in strict order above its threshold in that order.
  pub push-IsOrdered :
      (l : AggregationList refs) (r : Ref) (ready : Bool)
      → IsOrdered l
      → IsOrdered (push refs l r ready)
  unfolding push
  push-IsOrdered l r ready c = ground (
    arith,
    fresh-Above l.threshold r,
    mark-IsChain l.threshold r ready l.items c,
    sort-append l.threshold l.items (new_item r ready) c,
    insert-IsChain l.threshold l.items (new_item r ready) c,
  )

  drop-IsChain :
      (b : Option Ref) (t : Ref) (xs : List (Item refs))
      → IsChain b xs
      → IsChain
          (some t)
          (drop (count_while (λ (x : Item refs). at_most_zero (compare_to x.message_ref t)) xs) xs)
  drop-IsChain b t [] c = tt
  drop-IsChain b t (x ∷ xs) c =
      ground
        (arith, compare_to_cases refs x.message_ref t, drop-IsChain (some x.message_ref) t xs c.1)

  -- Shrinking a list that is in strict order above its threshold leaves it in strict order above the
  -- new threshold.
  pub shrink-IsOrdered :
      (l : AggregationList refs) (t : Ref) → IsOrdered l → IsOrdered (shrink refs l t)
  unfolding shrink
  shrink-IsOrdered l t c = drop-IsChain l.threshold t l.items c

  -- A push leaves the threshold alone.
  pub push-threshold :
      (l : AggregationList refs) (r : Ref) (ready : Bool)
      → (push refs l r ready).threshold ≡ l.threshold
  unfolding push
  push-threshold l r ready = ground arith

  ready_from_chain :
      (b : Option Ref) (xs : List (Item refs)) (f : Ref)
      → IsChain b xs
      → ready_from refs (record { items = xs; threshold = b }) ≡ some f
      → Above b f
  unfolding ready_from
  ready_from_chain b [] f c h = cc
  ready_from_chain b (x ∷ xs) f c h = elim (Bool-cases x.is_ready) [
    | inl ready ↦ subst (Above b) (ref-injective (ground (arith, ready, h))) c.0
    | inr waiting ↦ cc (rw waiting at h)
  ]
    where
      ref-injective : {r : Ref} → some x.message_ref ≡ some r → x.message_ref ≡ r
      ref-injective e = cc

  -- The start of the ready range lies above the threshold.
  pub ready_from-Above :
      (l : AggregationList refs) (f : Ref)
      → IsOrdered l
      → ready_from refs l ≡ some f
      → Above l.threshold f
  ready_from-Above l f c h = ready_from_chain l.threshold l.items f c h

  pub shrink-threshold : (l : AggregationList refs) (t : Ref) → (shrink refs l t).threshold ≡ some t
  unfolding shrink
  shrink-threshold l t = refl
