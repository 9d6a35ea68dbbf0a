-- ===== src/Network/PropagationList/History.antt =====
-- Histories of a PropagationList, and the relation of the list to its history.
use logstore_node.Base.{◌≡◌, true, false, some, List, [], ◌∷◌, ◌++◌}
use logstore_node.Protocol.{MessageRefs}
use logstore_node.Network.PropagationList.{
  PropagationList, push_primary, push_foreign, get_diff_and_shrink, finalize_primary,
  finalize_foreign, empty,
}
use logstore_node.Network.PropagationList.Increasing.{holds, minus, IsIncreasing, Ends}

module _ (refs : MessageRefs) where
  open refs use {Ref, compare_to}

  -- A history of a list: the references pushed by the primary and by this node so far, each in
  -- strictly increasing order, and the references that `getDiffAndShrink` has returned so far. No primary
  -- reference comes after the primary's end.
  pub data Run : PropagationList refs → List Ref → List Ref → List Ref → Type 0 where
    start : Run (empty refs) [] [] []
    primary :
        {l : PropagationList refs} {ps fs sent : List Ref} (r : Ref)
        → Run l ps fs sent
        → l.is_primary_finalized ≡ false
        → Ends refs ps r
        → Run (push_primary refs l r) (ps ++ r ∷ []) fs sent
    foreign :
        {l : PropagationList refs} {ps fs sent : List Ref} (r : Ref)
        → Run l ps fs sent
        → Ends refs fs r
        → Run (push_foreign refs l r) ps (fs ++ r ∷ []) sent
    primary_end :
        {l : PropagationList refs} {ps fs sent : List Ref}
        → Run l ps fs sent
        → Run (finalize_primary refs l) ps fs sent
    foreign_end :
        {l : PropagationList refs} {ps fs sent : List Ref}
        → Run l ps fs sent
        → Run (finalize_foreign refs l) ps fs sent
    collect :
        {l : PropagationList refs} {ps fs sent : List Ref}
        → Run l ps fs sent
        → Run (get_diff_and_shrink refs l).1 ps fs (sent ++ (get_diff_and_shrink refs l).0)

  -- What relates the list to its history.
  pub record Inv (l : PropagationList refs) (ps fs sent : List Ref) : Type 0 where
    pub difference : sent ++ l.foreign_items ≡ minus refs fs ps
    pub foreign_increasing : IsIncreasing refs fs
    pub primary_increasing : IsIncreasing refs l.primary_items
    pub known : (q : Ref) → holds refs l.primary_items q ≡ true → holds refs ps q ≡ true
    pub pending :
        (q : Ref) → Ends refs fs q → holds refs ps q ≡ true → holds refs l.primary_items q ≡ true
    pub passed : l.is_primary_finalized ≡ false → (r : Ref) → Ends refs ps r → Ends refs sent r
    pub latest : (t : Ref) → l.latest_primary ≡ some t → holds refs ps t ≡ true
