-- ===== src/Network/PropagationList.antt =====
-- network/PropagationList.ts: what the primary node lacks of what this node has.
pub mod Increasing
pub mod History
pub mod Primary
pub mod Foreign
pub mod Finish
pub mod Difference
pub mod Kept
use logstore_node.Base.{
  ℕ, suc, ◌+◌, Bool, true, false, ◌&&◌, Option, none, some, List, [], ◌∷◌, ◌++◌, length,
  count_while, find_index, remove_at, take, drop, if◌then◌else◌,
}
use logstore_node.Protocol.{MessageRefs}
use logstore_node.Network.AggregationList.{at_most_zero, is_zero}

pub record PropagationList (refs : MessageRefs) : Type 0 where
  pub primary_items : List refs.Ref
  pub latest_primary : Option refs.Ref
  pub is_primary_finalized : Bool
  pub foreign_items : List refs.Ref
  pub is_foreign_finalized : Bool

module _ (refs : MessageRefs) where
  open refs use {Ref, compare_to}

  abbrev pub empty : PropagationList refs
  empty = record {
    primary_items = [];
    latest_primary = none;
    is_primary_finalized = false;
    foreign_items = [];
    is_foreign_finalized = false;
  }

  abbrev pub index_of : Ref → List Ref → Option ℕ
  index_of r = find_index (λ item. is_zero (compare_to item r))

  unfoldable pub push_primary : PropagationList refs → Ref → PropagationList refs
  push_primary l r = elim (index_of r l.foreign_items) [
    | some i ↦ record l { latest_primary = some r; foreign_items = remove_at i l.foreign_items }
    | none ↦ record l { latest_primary = some r; primary_items = l.primary_items ++ r ∷ [] }
  ]

  -- A match drops the primary items up to it.
  unfoldable pub push_foreign : PropagationList refs → Ref → PropagationList refs
  push_foreign l r = elim (index_of r l.primary_items) [
    | some i ↦ record l { primary_items = drop (i + 1) l.primary_items }
    | none ↦ record l { foreign_items = l.foreign_items ++ r ∷ [] }
  ]

  unfoldable pub finalize_primary : PropagationList refs → PropagationList refs
  finalize_primary l = record l { is_primary_finalized = true }

  unfoldable pub finalize_foreign : PropagationList refs → PropagationList refs
  finalize_foreign l = record l { is_foreign_finalized = true }

  abbrev pub is_finalized : PropagationList refs → Bool
  is_finalized l = l.is_primary_finalized && l.is_foreign_finalized

  -- `splice(0, i)`: the removed items, and the list without them.
  abbrev pub splice_front : PropagationList refs → ℕ → List Ref × PropagationList refs
  splice_front l i = (take i l.foreign_items, record l { foreign_items = drop i l.foreign_items })

  -- The references that the call returns, beside the list without them.
  unfoldable pub get_diff_and_shrink : PropagationList refs → List Ref × PropagationList refs
  get_diff_and_shrink l =
      if l.is_primary_finalized
      then splice_front l (length l.foreign_items)
      else elim l.latest_primary [
        | none ↦ ([], l)
        | some latest ↦
            splice_front l
              (count_while (λ item. at_most_zero (compare_to item latest)) l.foreign_items)
      ]
