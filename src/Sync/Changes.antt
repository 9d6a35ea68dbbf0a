-- ===== src/Sync/Changes.antt =====
-- The changes that the synchronizer reports, and the order in which updates arrive.
use logstore_node.Base.{
  ℕ, ◌≡◌, refl, inl, inr, not, ◌&&◌, List, [], ◌∷◌, Eq, ◌===◌, arith, Bool-cases,
}
use logstore_node.Base.Collections.{has, add, delete, has-add, has-delete, has-filter}
use logstore_node.Sync.{
  Synchronizer, Operation, Diff, set_difference, drop_stale, apply_patches, ingest_snapshot,
  add_all, delete_all, non_stale, ingest_patch,
}
use logstore_node.Sync.Lookups.{has-add_all, has-delete_all}

module _ {ℓ} {E : Type ℓ} ⦃e : Eq E⦄ where
  -- The added elements are the new members, and the removed ones the lost members.
  abbrev pub Describes : Diff E → List E → List E → E → Type 0
  Describes d old new q =
      (has d.added q ≡ (has new q && not (has old q)))
      × (has d.removed q ≡ (has old q && not (has new q)))

  has-added_all :
      (els state : List E) (q : E) → has (add_all els state).0 q ≡ (has els q && not (has state q))
  unfolding add_all has
  has-added_all [] state q = refl
  has-added_all (el ∷ els) state q = elim (Bool-cases (el === q)) [
    | inl eq ↦
        ground
          (arith, eq, (e.beq_iff el q).0 eq, has-added_all els (add state el) q, has-add state el q)
    | inr ne ↦ ground (arith, ne, has-added_all els (add state el) q, has-add state el q)
  ]

  has-deleted_all :
      (els state : List E) (q : E) → has (delete_all els state).0 q ≡ (has els q && has state q)
  unfolding delete_all has
  has-deleted_all [] state q = refl
  has-deleted_all (el ∷ els) state q = elim (Bool-cases (el === q)) [
    | inl eq ↦ ground (
      arith,
      eq,
      (e.beq_iff el q).0 eq,
      has-deleted_all els (delete state el) q,
      has-delete state el q,
    )
    | inr ne ↦ ground (arith, ne, has-deleted_all els (delete state el) q, has-delete state el q)
  ]

  has-set_difference :
      (a b : List E) (q : E) → has (set_difference a b) q ≡ (has a q && not (has b q))
  unfolding set_difference
  has-set_difference a b q = has-filter _ a q

  -- The changes that a snapshot reports are exactly the difference of the states before and after.
  pub ingest_snapshot-Describes :
      (s : Synchronizer E) (els : List E) (n : ℕ) (q : E)
      → let (s', d) = ingest_snapshot s els n in Describes d s.state s'.state q
  unfolding ingest_snapshot has
  ingest_snapshot-Describes s els n q =
      let state = apply_patches s.state (drop_stale n s.last_sequence_no_by_element) els in
      ground (arith, has-set_difference state s.state q, has-set_difference s.state state q)

  -- The changes that a patch reports are exactly the difference of the states before and after.
  pub ingest_patch-Describes :
      (s : Synchronizer E) (els : List E) (op : Operation) (n : ℕ) (q : E)
      → let (s', d) = ingest_patch s els op n in Describes d s.state s'.state q
  unfolding ingest_patch has
  ingest_patch-Describes s els op n q = ground (
    arith,
    has-added_all (non_stale s els n) s.state q,
    has-add_all (non_stale s els n) s.state q,
    has-deleted_all (non_stale s els n) s.state q,
    has-delete_all (non_stale s els n) s.state q,
  )
