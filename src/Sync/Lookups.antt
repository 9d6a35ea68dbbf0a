-- ===== src/Sync/Lookups.antt =====
-- What the synchronizer's loops leave in its set and in its map of patch numbers.
use logstore_node.Base.{
  ℕ, ◌≡◌, refl, not, ◌&&◌, ◌||◌, none, some, List, [], ◌∷◌, leb, if◌then◌else◌, Eq, arith,
  or_default,
}
use logstore_node.Base.Collections.{
  has, add, delete, get, put, has-add, has-delete, get-put, IsMap, put-IsMap,
}
use logstore_node.Sync.{drop_stale, apply_patches, set_all, add_all, delete_all}

module _ {ℓ} {E : Type ℓ} ⦃e : Eq E⦄ where
  pub set_all-IsMap : (els : List E) (n : ℕ) (m : List (E × ℕ)) → IsMap m → IsMap (set_all els n m)
  unfolding set_all
  set_all-IsMap [] n m h = h
  set_all-IsMap (el ∷ els) n m h = set_all-IsMap els n (put m el n) (put-IsMap m el n h)

  pub get-drop_stale-none :
      (n : ℕ) (m : List (E × ℕ)) (q : E) → get m q ≡ none → get (drop_stale n m) q ≡ none
  unfolding get drop_stale
  get-drop_stale-none n [] q h = refl
  get-drop_stale-none n ((k, v) ∷ m) q h = ground (arith, get-drop_stale-none n m q)

  pub drop_stale-IsMap : (n : ℕ) (m : List (E × ℕ)) → IsMap m → IsMap (drop_stale n m)
  unfolding drop_stale
  drop_stale-IsMap n [] h = tt
  drop_stale-IsMap n ((k, v) ∷ m) h =
      ground (arith, drop_stale-IsMap n m h.1, get-drop_stale-none n m k h.0)

  -- The number of the last patch of an element, 0 where there is none.
  abbrev pub last_no : List (E × ℕ) → E → ℕ
  last_no m q = or_default (get m q) 0

  pub get-drop_stale :
      (n : ℕ) (m : List (E × ℕ)) (q : E)
      → IsMap m
      → get (drop_stale n m) q
        ≡ elim (get m q) [ none ↦ none | some k ↦ if leb k n then none else some k ]
  unfolding get drop_stale
  get-drop_stale n [] q h = refl
  get-drop_stale n ((k, v) ∷ m) q h = ground (
    arith,
    e.beq_iff k q,
    get-drop_stale n m q h.1,
    get-drop_stale-none n m k h.0,
    get-drop_stale-none n m q,
  )

  pub has-apply_patches :
      (previous : List E) (m : List (E × ℕ)) (state : List E) (q : E)
      → has (apply_patches previous m state) q
        ≡ elim (get m q) [ none ↦ has state q | some _ ↦ has previous q ]
  unfolding get apply_patches
  has-apply_patches previous [] state q = refl
  has-apply_patches previous ((k, v) ∷ m) state q = ground (
    arith,
    e.beq_iff k q,
    has-add state k q,
    has-delete state k q,
    has-apply_patches previous m (if has previous k then add state k else delete state k) q,
  )

  pub get-set_all :
      (els : List E) (n : ℕ) (m : List (E × ℕ)) (q : E)
      → get (set_all els n m) q ≡ (if has els q then some n else get m q)
  unfolding set_all has
  get-set_all [] n m q = refl
  get-set_all (el ∷ els) n m q = ground (arith, get-set_all els n (put m el n) q, get-put m el n q)

  pub has-add_all :
      (els state : List E) (q : E) → has (add_all els state).1 q ≡ (has state q || has els q)
  unfolding add_all has
  has-add_all [] state q = ground arith
  has-add_all (el ∷ els) state q =
      ground (arith, has-add_all els (add state el) q, has-add state el q)

  pub has-delete_all :
      (els state : List E) (q : E)
      → has (delete_all els state).1 q ≡ (has state q && not (has els q))
  unfolding delete_all has
  has-delete_all [] state q = ground arith
  has-delete_all (el ∷ els) state q =
      ground (arith, has-delete_all els (delete state el) q, has-delete state el q)
