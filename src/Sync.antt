-- ===== src/Sync.antt =====
-- packages/core/src/utils/SetMembershipSynchronizer.ts: a set that is kept up to date from
-- snapshots and patches, both numbered by blocks. A set is a list of its elements in the order of
-- insertion, a map an association list.
pub mod Lookups
pub mod Register
pub mod Changes
pub mod Convergence
use logstore_node.Base.{
  ℕ, Bool, true, false, not, ◌&&◌, Option, none, some, List, [], ◌∷◌, leb, ltb, filter, map,
  if◌then◌else◌, Eq, or_default,
}
use logstore_node.Base.Collections.{has, add, delete, get, put, delete_key, has_key}

pub record Diff {ℓ} (E : Type ℓ) : Type ℓ where
  pub added : List E
  pub removed : List E

abbrev pub empty_diff {ℓ} : {E : Type ℓ} → Diff E
empty_diff = record { added = []; removed = [] }

pub record Synchronizer {ℓ} (E : Type ℓ) : Type ℓ where
  pub last_snapshot_sequence_no : ℕ
  pub state : List E
  pub last_sequence_no_by_element : List (E × ℕ)

pub data Operation : Type 0 where
  added removed : Operation

module _ {ℓ} {E : Type ℓ} ⦃e : Eq E⦄ where
  abbrev pub initial : Synchronizer E
  initial = record { last_snapshot_sequence_no = 0; state = []; last_sequence_no_by_element = [] }

  unfoldable pub set_difference : List E → List E → List E
  set_difference a b = filter (λ el. not (has b el)) a

  -- `forEach` with a deletion of the current entry.
  unfoldable pub drop_stale : ℕ → List (E × ℕ) → List (E × ℕ)
  drop_stale n [] = []
  drop_stale n ((el, m) ∷ rest) = if leb m n then drop_stale n rest else (el, m) ∷ drop_stale n rest

  -- The elements with a later patch keep the membership that they had.
  unfoldable pub apply_patches : List E → List (E × ℕ) → List E → List E
  apply_patches previous [] state = state
  apply_patches previous ((el, m) ∷ rest) state =
      apply_patches previous rest (if has previous el then add state el else delete state el)

  unfoldable pub ingest_snapshot : Synchronizer E → List E → ℕ → Synchronizer E × Diff E
  unfolding drop_stale apply_patches set_difference
  ingest_snapshot s elements n =
      if leb n s.last_snapshot_sequence_no
      then (s, empty_diff)
      else (let patches = drop_stale n s.last_sequence_no_by_element in
          let state = apply_patches s.state patches elements in
          (
            record {
              last_snapshot_sequence_no = n;
              state = state;
              last_sequence_no_by_element = patches;
            },
            record { added = set_difference state s.state; removed = set_difference s.state state },
          ))

  unfoldable pub set_all : List E → ℕ → List (E × ℕ) → List (E × ℕ)
  set_all [] n m = m
  set_all (el ∷ els) n m = set_all els n (put m el n)

  -- The filter that adds each element, and keeps those that were not there; beside it the state.
  unfoldable pub add_all : List E → List E → List E × List E
  add_all [] state = ([], state)
  add_all (el ∷ els) state =
      let (changed, final) = add_all els (add state el) in
      (if has state el then changed else el ∷ changed, final)

  unfoldable pub delete_all : List E → List E → List E × List E
  delete_all [] state = ([], state)
  delete_all (el ∷ els) state =
      let (changed, final) = delete_all els (delete state el) in
      (if has state el then el ∷ changed else changed, final)

  unfoldable pub non_stale : Synchronizer E → List E → ℕ → List E
  non_stale s elements n =
      filter (λ el. ltb (or_default (get s.last_sequence_no_by_element el) 0) n) elements

  unfoldable pub ingest_patch : Synchronizer E → List E → Operation → ℕ → Synchronizer E × Diff E
  unfolding non_stale set_all add_all delete_all
  ingest_patch s elements op n =
      if leb n s.last_snapshot_sequence_no
      then (s, empty_diff)
      else (let fresh = non_stale s elements n in
          let seen = set_all fresh n s.last_sequence_no_by_element in
          elim op [
            | added ↦
                let (changed, state) = add_all fresh s.state in
                (
                  record s { state = state; last_sequence_no_by_element = seen },
                  record { added = changed; removed = [] },
                )
            | removed ↦
                let (changed, state) = delete_all fresh s.state in
                (
                  record s { state = state; last_sequence_no_by_element = seen },
                  record { added = []; removed = changed },
                )
          ])
