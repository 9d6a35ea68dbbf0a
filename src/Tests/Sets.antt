-- ===== src/Tests/Sets.antt =====
-- The synchronizer of a set of names.
use logstore_node.Base.{ℕ, ◌≡◌, refl, arith, List, [], ◌∷◌, nat_eq}
use logstore_node.Base.Collections.{get}
use logstore_node.Sync.{Synchronizer, added, removed}
use logstore_node.Sync.Register.{IsWellFormed, view}
use logstore_node.Sync.Convergence.{
  Update, snapshot, patch, ingest, ingest_all, write_all, stamp_of, ingest_comm, view-ingest_all,
}

-- Element 7 was added by a patch of block 5, after a snapshot of block 3.
abbrev members : Synchronizer ℕ
members = record {
  last_snapshot_sequence_no = 3;
  state = 4 ∷ 7 ∷ [];
  last_sequence_no_by_element = (7, 5) ∷ [];
}

members-IsWellFormed : IsWellFormed members
unfolding get
members-IsWellFormed = (refl, tt)

ingest_comm_example :
    view (ingest (ingest members (snapshot (8 ∷ []) 6)) (patch (7 ∷ []) removed 6)) 7
    ≡ view (ingest (ingest members (patch (7 ∷ []) removed 6)) (snapshot (8 ∷ []) 6)) 7
unfolding stamp_of
ingest_comm_example =
    ingest_comm members (snapshot (8 ∷ []) 6) (patch (7 ∷ []) removed 6) 7 members-IsWellFormed
      (ground arith)

abbrev updates : List (Update ℕ)
updates = patch (9 ∷ []) added 6 ∷ snapshot (7 ∷ []) 5 ∷ patch (7 ∷ []) removed 4 ∷ []

view-ingest_all_example : view (ingest_all members updates) 7 ≡ write_all (view members 7) updates 7
view-ingest_all_example = view-ingest_all members updates 7 members-IsWellFormed
