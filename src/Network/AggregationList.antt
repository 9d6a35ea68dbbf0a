-- ===== src/Network/AggregationList.antt =====
-- network/AggregationList.ts: the references that a query still waits for, with their readiness.
pub mod Order
pub mod Status
pub mod Ready
use logstore_node.Base.{
  ℕ, suc, ◌+◌, ◌-◌, Bool, true, false, ◌||◌, Option, none, some, List, [], ◌∷◌, ◌++◌, leb, length,
  count_while, get_elem?, find, drop, if◌then◌else◌,
}
use logstore_node.Protocol.{MessageRefs, Sign, before, same, after}

-- `a >= 0`, `a <= 0` and `a === 0` on the result of a comparison.
abbrev pub at_least_zero : Sign → Bool
at_least_zero before = false
at_least_zero same = true
at_least_zero after = true

abbrev pub at_most_zero : Sign → Bool
at_most_zero before = true
at_most_zero same = true
at_most_zero after = false

abbrev pub is_zero : Sign → Bool
is_zero before = false
is_zero same = true
is_zero after = false

pub record Item (refs : MessageRefs) : Type 0 where
  pub message_ref : refs.Ref
  pub is_ready : Bool

pub record AggregationList (refs : MessageRefs) : Type 0 where
  pub items : List (Item refs)
  pub threshold : Option refs.Ref

module _ (refs : MessageRefs) where
  open refs use {Ref, compare_to}

  abbrev pub empty : AggregationList refs
  empty = record { items = []; threshold = none }

  unfoldable pub is_empty : AggregationList refs → Bool
  is_empty l = elim l.items [ [] ↦ true | _ ∷ _ ↦ false ]

  -- The first item, if it is ready.
  unfoldable pub ready_from : AggregationList refs → Option Ref
  ready_from l = elim l.items [
    | [] ↦ none
    | item ∷ _ ↦ if item.is_ready then some item.message_ref else none
  ]

  ref_at : List (Item refs) → ℕ → Option Ref
  ref_at items i = elim (get_elem? items i) [ none ↦ none | some item ↦ some item.message_ref ]

  -- The last item of the ready items at the front.
  unfoldable pub ready_to : AggregationList refs → Option Ref
  unfolding ref_at
  ready_to l = elim l.items [
    | [] ↦ none
    | item ∷ rest ↦
        if item.is_ready
        then (let i = suc (count_while (λ (x : Item refs). x.is_ready) rest) in
            if leb i (length (item ∷ rest)) then ref_at (item ∷ rest) (i - 1) else none)
        else none
  ]

  -- `sort` with `compareTo`: stable, so an item stays before the later ones that it equals.
  unfoldable pub insert_sorted : Item refs → List (Item refs) → List (Item refs)
  insert_sorted x [] = x ∷ []
  insert_sorted x (y ∷ ys) = elim (compare_to y.message_ref x.message_ref) [
    | before ↦ y ∷ insert_sorted x ys
    | _ ↦ x ∷ y ∷ ys
  ]

  unfoldable pub sort_items : List (Item refs) → List (Item refs)
  sort_items [] = []
  sort_items (x ∷ xs) = insert_sorted x (sort_items xs)

  -- `item.isReady ||= isReady` on the item that `find` returns.
  unfoldable pub mark_ready : Ref → Bool → List (Item refs) → List (Item refs)
  mark_ready r ready [] = []
  mark_ready r ready (x ∷ xs) =
      if is_zero (compare_to x.message_ref r)
      then record x { is_ready = x.is_ready || ready } ∷ xs
      else x ∷ mark_ready r ready xs

  abbrev pub is_stale : Option Ref → Ref → Bool
  is_stale none r = false
  is_stale (some t) r = at_least_zero (compare_to t r)

  -- The branch of `push` below its guard.
  unfoldable pub push_fresh : AggregationList refs → Ref → Bool → AggregationList refs
  unfolding sort_items mark_ready
  push_fresh l r ready =
      elim (find (λ (x : Item refs). is_zero (compare_to x.message_ref r)) l.items) [
        | some _ ↦ record l { items = mark_ready r ready l.items }
        | none ↦ record l {
          items = sort_items (l.items ++ record { message_ref = r; is_ready = ready } ∷ []);
        }
      ]

  unfoldable pub push : AggregationList refs → Ref → Bool → AggregationList refs
  unfolding push_fresh
  push l r ready = if is_stale l.threshold r then l else push_fresh l r ready

  unfoldable pub push_primary : AggregationList refs → Ref → AggregationList refs
  unfolding push
  push_primary l r = push l r true

  unfoldable pub push_foreign : AggregationList refs → Ref → AggregationList refs
  unfolding push
  push_foreign l r = push l r false

  unfoldable pub push_propagation : AggregationList refs → Ref → AggregationList refs
  unfolding push
  push_propagation l r = push l r true

  unfoldable pub shrink : AggregationList refs → Ref → AggregationList refs
  shrink l t = record {
    items =
        drop (count_while (λ (x : Item refs). at_most_zero (compare_to x.message_ref t)) l.items)
          l.items;
    threshold = some t;
  }
