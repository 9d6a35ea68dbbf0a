-- ===== src/Sync/Register.antt =====
-- The synchronizer against its specification: for each element a register with a stamp, where a
-- write takes effect when its stamp is larger. A patch of block n is stamped 2 * n, a snapshot of
-- block n comes just after it, at 2 * n + 1.
use logstore_node.Base.{
  ℕ, ◌+◌, ◌*◌, max, ◌≡◌, Bool, true, false, ◌&&◌, List, ltb, if◌then◌else◌, Eq, arith,
}
use logstore_node.Base.Collections.{has, has-filter, IsMap}
use logstore_node.Sync.{
  Synchronizer, Operation, added, removed, drop_stale, ingest_snapshot, non_stale, ingest_patch,
}
use logstore_node.Sync.Lookups.{
  last_no, set_all-IsMap, drop_stale-IsMap, get-drop_stale, has-apply_patches, get-set_all,
  has-add_all, has-delete_all,
}

pub record Register : Type 0 where
  pub stamp : ℕ
  pub is_member : Bool

unfoldable pub write : Register → ℕ → Bool → Register
write r n b = if ltb r.stamp n then record { stamp = n; is_member = b } else r

abbrev pub is_added : Operation → Bool
is_added added = true
is_added removed = false

module _ {ℓ} {E : Type ℓ} ⦃e : Eq E⦄ where
  abbrev pub IsWellFormed : Synchronizer E → Type 0
  IsWellFormed s = IsMap s.last_sequence_no_by_element

  -- What the synchronizer knows of an element.
  unfoldable pub view : Synchronizer E → E → Register
  view s q = record {
    stamp = max (2 * s.last_snapshot_sequence_no + 1) (2 * last_no s.last_sequence_no_by_element q);
    is_member = has s.state q;
  }

  pub ingest_snapshot-IsWellFormed :
      (s : Synchronizer E) (els : List E) (n : ℕ)
      → IsWellFormed s
      → IsWellFormed (ingest_snapshot s els n).0
  unfolding ingest_snapshot
  ingest_snapshot-IsWellFormed s els n w =
      ground (arith, drop_stale-IsMap n s.last_sequence_no_by_element w)

  pub ingest_patch-IsWellFormed :
      (s : Synchronizer E) (els : List E) (op : Operation) (n : ℕ)
      → IsWellFormed s
      → IsWellFormed (ingest_patch s els op n).0
  unfolding ingest_patch
  ingest_patch-IsWellFormed s els op n w =
      ground (arith, set_all-IsMap (non_stale s els n) n s.last_sequence_no_by_element w)

  has-non_stale :
      (s : Synchronizer E) (els : List E) (n : ℕ) (q : E)
      → has (non_stale s els n) q ≡ (has els q && ltb (last_no s.last_sequence_no_by_element q) n)
  unfolding non_stale
  has-non_stale s els n q = has-filter _ els q

  -- A snapshot writes every element's register, a member or not, with the snapshot's stamp.
  pub view-ingest_snapshot :
      (s : Synchronizer E) (els : List E) (n : ℕ) (q : E)
      → IsWellFormed s
      → view (ingest_snapshot s els n).0 q ≡ write (view s q) (2 * n + 1) (has els q)
  unfolding view write ingest_snapshot
  view-ingest_snapshot s els n q w = ground (
    arith,
    get-drop_stale n s.last_sequence_no_by_element q w,
    has-apply_patches s.state (drop_stale n s.last_sequence_no_by_element) els q,
  )

  -- A patch writes the registers of its elements, with the patch's stamp, and no other.
  pub view-ingest_patch :
      (s : Synchronizer E) (els : List E) (op : Operation) (n : ℕ) (q : E)
      → view (ingest_patch s els op n).0 q
        ≡ (if has els q then write (view s q) (2 * n) (is_added op) else view s q)
  unfolding view write ingest_patch
  view-ingest_patch s els op n q = ground (
    arith,
    has-non_stale s els n q,
    get-set_all (non_stale s els n) n s.last_sequence_no_by_element q,
    has-add_all (non_stale s els n) s.state q,
    has-delete_all (non_stale s els n) s.state q,
  )
