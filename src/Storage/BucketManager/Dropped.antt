-- ===== src/Storage/BucketManager/Dropped.antt =====
-- Which buckets are dropped from memory when the upserts have settled.
use logstore_node.Base.{
  ℕ, ◌≡◌, refl, sym, ap, ◌∙◌, subst, Bool, true, false, ◌&&◌, ◌||◌, not, Option, none, some, List,
  [], ◌∷◌, if◌then◌else◌, arith, ◌==◌, Text, ◌===◌, text_eq, any, filter, All, All-map,
  Option-cases, Bool-cases, inl, inr, ◌⊎◌,
}
use logstore_node.Base.Collections.{get, put, get-put, get-delete_key, IsMap}
use logstore_node.Storage.Bucket.{Bucket, is_alive, set_stored}
use logstore_node.Storage.BucketManager.{BucketHeaps, State, key_of}
use logstore_node.Storage.BucketManager.Removal.{
  remove_bucket, stored_bucket, stored_all, remove_all, store_results,
}
use logstore_node.Storage.BucketManager.Runs.{
  IsWellFormed, remove_bucket-buckets, stored_all-IsWellFormed,
}

-- What becomes of a bucket whose upsert is fulfilled.
abbrev marked : ℕ → Bucket → Bucket
marked records b = if b.records == records then set_stored b else b

abbrev after_upsert : ℕ → ℕ → Option Bucket → Option Bucket
after_upsert now records none = none
after_upsert now records (some b) =
    if not (is_alive (marked records b) now) && (marked records b).stored
    then none
    else some (marked records b)

-- The bucket is in the database: it was marked as stored, or an upsert of as many records as it has
-- was fulfilled.
abbrev pub IsSaved : Text → Bucket → List (Text × ℕ) → Type 0
IsSaved id b results =
    (b.stored ≡ true) ⊎ (any (λ r. r.0 === id && b.records == r.1) results ≡ true)

-- A bucket is still there, with its records, or it has expired and is in the database.
abbrev pub IsKeptOrSaved : ℕ → Text → Bucket → List (Text × ℕ) → Option Bucket → Type 0
IsKeptOrSaved now id b results none = (is_alive b now ≡ false) × IsSaved id b results
IsKeptOrSaved now id b results (some b') =
    (b'.records ≡ b.records)
    × (is_alive b' now ≡ is_alive b now)
    × (b'.stored ≡ true → IsSaved id b results)

absent-any :
    (q : Bucket → Bool) (m : List (Text × Bucket)) (id : Text)
    → get m id ≡ none
    → any (λ (p : Text × Bucket). p.0 === id) (filter (λ p. q p.1) m) ≡ false
unfolding get
absent-any q [] id h = refl
absent-any q ((i, b) ∷ m) id h = ground (arith, absent-any q m id)

any-filter-get :
    (q : Bucket → Bool) (m : List (Text × Bucket)) (id : Text)
    → IsMap m
    → any (λ (p : Text × Bucket). p.0 === id) (filter (λ p. q p.1) m) ≡ true
    → (b : Bucket) × (get m id ≡ some b) × (q b ≡ true)
unfolding get
any-filter-get q [] id h k = absurd (ground (arith, k))
any-filter-get q ((i, b) ∷ m) id h k = elim (Bool-cases (i === id)) [
  | inl eq ↦
      let gone = absent-any q m id (ap (get m) (sym ((text_eq.beq_iff i id).0 eq)) ∙ h.0) in
      (b, ground (arith, eq), ground (arith, k, gone))
  | inr ne ↦
      let (b', found, passes) = any-filter-get q m id h.1 (ground (arith, ne, k)) in
      (b', ground (arith, ne, found), passes)
]

drop-IsKeptOrSaved :
    (now : ℕ) (id : Text) (b b' : Bucket) (results : List (Text × ℕ))
    → IsKeptOrSaved now id b results (some b')
    → IsKeptOrSaved now id b results (if not (is_alive b' now) && b'.stored then none else some b')
drop-IsKeptOrSaved now id b b' results (same, alive, saved) =
    elim (Bool-cases (not (is_alive b' now) && b'.stored)) [
      | inl dropped ↦ rw (dropped) (ground (arith, alive, dropped), saved (ground (arith, dropped)))
      | inr kept ↦ rw (kept) (same, alive, saved)
    ]

after_upsert-IsKeptOrSaved :
    (now records : ℕ) (id : Text) (b : Bucket) (results : List (Text × ℕ)) (o : Option Bucket)
    → ((b.records == records) ≡ true → IsSaved id b results)
    → IsKeptOrSaved now id b results o
    → IsKeptOrSaved now id b results (after_upsert now records o)
unfolding set_stored is_alive
after_upsert-IsKeptOrSaved now records id b results none h k = k
after_upsert-IsKeptOrSaved now records id b results (some b') h (same, alive, saved) =
    drop-IsKeptOrSaved now id b (marked records b') results
      (elim (Bool-cases (b'.records == records)) [
        | inl eq ↦ rw (eq) (same, alive, λ stored. h (ap (λ n. n == records) (sym same) ∙ eq))
        | inr ne ↦ rw (ne) (same, alive, saved)
      ])

either_none :
    (a b : Bool) (o : Option Bucket)
    → (if b then none else if a then none else o) ≡ (if a || b then none else o)
either_none a b o = ground arith

twice :
    (a : Bool) (x y z : Option Bucket)
    → (if a then x else if a then y else z) ≡ (if a then x else z)
twice a x y z = ground arith

under :
    (a : Bool) (x y z : Option Bucket)
    → (a ≡ true → x ≡ y)
    → (if a then x else z) ≡ (if a then y else z)
under true x y z h = h refl
under false x y z h = refl

-- What every element of a list that passes a test says of the list.
all_any : {A : Type 0} (p : A → Bool) (xs : List A) → All (λ x. p x ≡ true → any p xs ≡ true) xs
all_any p [] = tt
all_any p (x ∷ xs) =
    (λ h. ground (arith, h), All-map xs (λ y h k. ground (arith, h k)) (all_any p xs))

at_id :
    (a : Bool) (f : Option Bucket → Option Bucket) (o : Option Bucket)
    → (a ≡ true → f o ≡ o)
    → o ≡ (if a then f o else o)
at_id true f o h = sym (h refl)
at_id false f o h = refl

expired-IsSaved :
    (now : ℕ) (id : Text) (b b' : Bucket) (results : List (Text × ℕ))
    → (b'.stored && not (is_alive b' now)) ≡ true
    → IsKeptOrSaved now id b results (some b')
    → IsKeptOrSaved now id b results none
expired-IsSaved now id b b' results h (same, alive, saved) =
    (ground (arith, alive, h), saved (ground (arith, h)))

module _ (heaps : BucketHeaps) where
  -- The bucket of an id after a change of it, and after its removal, if it is removed.
  changed-get :
      (now : ℕ) (s : State heaps) (id' id : Text) (b' : Bucket)
      → let s' : State heaps = record s { buckets = put s.buckets id' b' } in
        get
          (if not (is_alive b' now) && b'.stored
            then remove_bucket heaps s' id' (key_of b')
            else s').buckets
          id
        ≡ (if id' === id
            then (if not (is_alive b' now) && b'.stored then none else some b')
            else get s.buckets id)
  changed-get now s id' id b' = elim (Bool-cases (not (is_alive b' now) && b'.stored)) [
    | inl dropped ↦
        let s' : State heaps = record s { buckets = put s.buckets id' b' } in
        rw (dropped) (
          ap (λ m. get m id) (remove_bucket-buckets heaps s' id' (key_of b'))
          ∙ get-delete_key s'.buckets id' id
          ∙ ap (λ o. if id' === id then none else o) (get-put s.buckets id' b' id)
          ∙ twice (id' === id) none (some b') (get s.buckets id))
    | inr kept ↦ rw (kept) (get-put s.buckets id' b' id)
  ]

  stored_bucket-get :
      (now : ℕ) (s : State heaps) (id' : Text) (records : ℕ) (id : Text)
      → get (stored_bucket heaps now s id' records).buckets id
        ≡ (if id' === id then after_upsert now records (get s.buckets id) else get s.buckets id)
  unfolding stored_bucket
  stored_bucket-get now s id' records id = elim (Option-cases (get s.buckets id')) [
    | inl absent ↦
        rw (stored_bucket, absent)
          (at_id (id' === id) (after_upsert now records) (get s.buckets id) (λ eq.
            ap (after_upsert now records)
              (ap (get s.buckets) (sym ((text_eq.beq_iff id' id).0 eq)) ∙ absent)
            ∙ sym (ap (get s.buckets) (sym ((text_eq.beq_iff id' id).0 eq)) ∙ absent)))
    | inr (b, found) ↦
        rw (stored_bucket, found)
          (changed-get now s id' id (marked records b)
            ∙ under (id' === id) _ (after_upsert now records (get s.buckets id)) (get s.buckets id)
                (λ eq.
                  ap (after_upsert now records)
                    (sym (ap (get s.buckets) (sym ((text_eq.beq_iff id' id).0 eq)) ∙ found))))
  ]

  stored_all-IsKeptOrSaved :
      (now : ℕ) (s : State heaps) (id : Text) (b : Bucket) (results rs : List (Text × ℕ))
      → All (λ r. (r.0 === id && b.records == r.1) ≡ true → IsSaved id b results) rs
      → IsKeptOrSaved now id b results (get s.buckets id)
      → IsKeptOrSaved now id b results (get (stored_all heaps now s rs).buckets id)
  unfolding stored_all
  stored_all-IsKeptOrSaved now s id b results [] h k = k
  stored_all-IsKeptOrSaved now s id b results ((id', records) ∷ rs) h k =
      stored_all-IsKeptOrSaved now (stored_bucket heaps now s id' records) id b results rs h.1 (
        subst (IsKeptOrSaved now id b results) (sym (stored_bucket-get now s id' records id))
          (elim (Bool-cases (id' === id)) [
            | inl eq ↦ rw (eq) (
                after_upsert-IsKeptOrSaved now records id b results (get s.buckets id)
                  (λ same. h.0 (ground (arith, eq, same))) k)
            | inr ne ↦ rw (ne) k
          ]))

  remove_all-get :
      (now : ℕ) (s : State heaps) (bs : List (Text × Bucket)) (id : Text)
      → get (remove_all heaps now s bs).buckets id
        ≡ (if any (λ (p : Text × Bucket). p.0 === id) bs then none else get s.buckets id)
  unfolding remove_all
  remove_all-get now s [] id = refl
  remove_all-get now s (p ∷ bs) id =
      remove_all-get now (remove_bucket heaps s p.0 (key_of p.1)) bs id
      ∙ ap (λ o. if any (λ (p : Text × Bucket). p.0 === id) bs then none else o)
          (ap (λ m. get m id) (remove_bucket-buckets heaps s p.0 (key_of p.1))
            ∙ get-delete_key s.buckets p.0 id)
      ∙ either_none (p.0 === id) (any (λ (p : Text × Bucket). p.0 === id) bs) (get s.buckets id)

  -- In a well-formed state, when the upserts have settled, whichever of them were fulfilled, a
  -- bucket that was in memory is still there
  -- with the records that it had, or it has expired and is in the database: it was marked as stored
  -- before, or an upsert of as many records as it has was fulfilled.
  pub store_results-IsKeptOrSaved :
      (now : ℕ) (s : State heaps) (results : List (Text × ℕ)) (id : Text) (b : Bucket)
      → IsWellFormed heaps s
      → get s.buckets id ≡ some b
      → IsKeptOrSaved now id b results (get (store_results heaps now s results).buckets id)
  unfolding store_results
  store_results-IsKeptOrSaved now s results id b w found =
      let s' = stored_all heaps now s results in
      let is_expired = λ (b : Bucket). b.stored && not (is_alive b now) in
      let expired = filter (λ (p : Text × Bucket). is_expired p.1) s'.buckets in
      let kept : IsKeptOrSaved now id b results (get s'.buckets id) =
        stored_all-IsKeptOrSaved now s id b results results
          (All-map results (λ r h k. inr (h k))
            (all_any (λ r. r.0 === id && b.records == r.1) results))
          (subst (IsKeptOrSaved now id b results) (sym found) (refl, refl, λ stored. inl stored)) in
      subst (IsKeptOrSaved now id b results) (sym (remove_all-get now s' expired id))
        (elim (Bool-cases (any (λ (p : Text × Bucket). p.0 === id) expired)) [
          | inl dropped ↦
              let (b', there, passes) =
                any-filter-get is_expired s'.buckets id
                  (stored_all-IsWellFormed heaps now s results w).1 dropped in
              rw (dropped) (
                expired-IsSaved now id b b' results passes
                  (subst (IsKeptOrSaved now id b results) there kept))
          | inr stays ↦ rw (stays) kept
        ])
