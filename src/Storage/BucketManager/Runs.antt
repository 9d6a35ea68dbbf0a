-- ===== src/Storage/BucketManager/Runs.antt =====
-- Every state that the calls of the manager reach.
use logstore_node.Base.{
  ℕ, ◌≡◌, refl, sym, ap, ◌∙◌, subst, Bool, true, false, ◌&&◌, not, none, some, List, [], ◌∷◌,
  if◌then◌else◌, arith, ◌==◌, Text, ◌===◌, text_eq, text_number_eq, All, All-map, filter,
  Option-cases, Bool-cases, inl, inr, ◌⊎◌,
}
use logstore_node.Base.Collections.{
  get, put, delete_key, get-put, get-delete_key, IsMap, put-IsMap, delete_key-IsMap,
}
use logstore_node.Storage.Bucket.{Bucket, is_alive, set_stored}
use logstore_node.Storage.BucketManager.{BucketHeaps, StreamPartKey, key_of, State}
use logstore_node.Storage.BucketManager.Removal.{
  remove_bucket, stored_bucket, stored_all, remove_all, store_results,
}
use logstore_node.Storage.BucketManager.Registered.{IsRegistered}
use logstore_node.Storage.BucketManager.Steps.{
  remove_bucket-IsRegistered, changed-IsRegistered, absent_bucket-IsRegistered,
}

-- The elements of a map are found in it.
all_found : (m : List (Text × Bucket)) → IsMap m → All (λ p. get m p.0 ≡ some p.1) m
unfolding get
all_found [] h = tt
all_found ((k, v) ∷ m) h =
    (ground (arith, (text_eq.beq_iff k k).1 refl), All-map m later (all_found m h.1))
  where
    later : (p : Text × Bucket) → get m p.0 ≡ some p.1 → get ((k, v) ∷ m) p.0 ≡ some p.1
    later p found = elim (Bool-cases (k === p.0)) [
      | inl eq ↦
          absurd (ground (arith, sym (ap (get m) ((text_eq.beq_iff k p.0).0 eq)) ∙ h.0, found))
      | inr ne ↦ ground (arith, ne, found)
    ]

All-filter :
    {A : Type 0} (P : A → Type 0) (p : A → Bool) (xs : List A) → All P xs → All P (filter p xs)
All-filter P p [] h = tt
All-filter P p (x ∷ xs) h = elim (Bool-cases (p x)) [
  | inl eq ↦ rw (eq) (h.0, All-filter P p xs h.1)
  | inr ne ↦ rw (ne) (All-filter P p xs h.1)
]

same_key : (b : Bucket) (c : Bool) → key_of (if c then set_stored b else b) ≡ key_of b
unfolding set_stored
same_key b true = refl
same_key b false = refl

module _ (heaps : BucketHeaps) where
  -- The heaps and the map agree, and no id stands twice in the map.
  abbrev pub IsWellFormed : State heaps → Type 0
  IsWellFormed s = IsRegistered heaps s × IsMap s.buckets

  either_state :
      (c : Bool) (s s' : State heaps)
      → IsWellFormed s
      → IsWellFormed s'
      → IsWellFormed (if c then s' else s)
  either_state true s s' w w' = w'
  either_state false s s' w w' = w

  -- A listed bucket is the one of the map with its id, up to its counters, or it is gone.
  abbrev IsListed : State heaps → Text × Bucket → Type 0
  IsListed s p =
      (get s.buckets p.0 ≡ none)
      ⊎ ((b : Bucket) × (get s.buckets p.0 ≡ some b) × (key_of b ≡ key_of p.1))

  pub remove_bucket-buckets :
      (s : State heaps) (id : Text) (key : StreamPartKey)
      → (remove_bucket heaps s id key).buckets ≡ delete_key s.buckets id
  unfolding remove_bucket
  remove_bucket-buckets s id key = elim (Option-cases (get s.stream_parts key)) [
    | inl absent ↦ rw (remove_bucket, absent) refl
    | inr (stream, there) ↦ rw (remove_bucket, there) refl
  ]

  remove_bucket-IsWellFormed :
      (s : State heaps) (p : Text × Bucket)
      → IsListed s p
      → IsWellFormed s
      → IsWellFormed (remove_bucket heaps s p.0 (key_of p.1))
  remove_bucket-IsWellFormed s p listed (h, m) = (
    elim listed [
      | inl gone ↦ absent_bucket-IsRegistered heaps s (key_of p.1) p.0 gone h
      | inr (b, found, own) ↦
          subst (λ k. IsRegistered heaps (remove_bucket heaps s p.0 k)) own
            (remove_bucket-IsRegistered heaps s b p.0 found h)
    ],
    subst IsMap (sym (remove_bucket-buckets s p.0 (key_of p.1))) (delete_key-IsMap s.buckets p.0 m),
  )

  still-IsListed :
      (s : State heaps) (id : Text) (key : StreamPartKey) (p : Text × Bucket)
      → IsListed s p
      → IsListed (remove_bucket heaps s id key) p
  still-IsListed s id key p listed =
      subst
        (λ m. (get m p.0 ≡ none) ⊎ ((b : Bucket) × (get m p.0 ≡ some b) × (key_of b ≡ key_of p.1)))
        (sym (remove_bucket-buckets s id key))
        (elim (Bool-cases (id === p.0)) [
          | inl eq ↦
              inl (
                get-delete_key s.buckets id p.0
                ∙ ap (λ c. if c then none else get s.buckets p.0) eq)
          | inr ne ↦
              let same =
                get-delete_key s.buckets id p.0
                ∙ ap (λ c. if c then none else get s.buckets p.0) ne in
              elim listed [
                | inl gone ↦ inl (same ∙ gone)
                | inr (b, found, own) ↦ inr (b, same ∙ found, own)
              ]
        ])

  remove_all-IsWellFormed :
      (now : ℕ) (s : State heaps) (bs : List (Text × Bucket))
      → All (IsListed s) bs
      → IsWellFormed s
      → IsWellFormed (remove_all heaps now s bs)
  unfolding remove_all
  remove_all-IsWellFormed now s [] listed w = w
  remove_all-IsWellFormed now s (p ∷ bs) listed w =
      remove_all-IsWellFormed now (remove_bucket heaps s p.0 (key_of p.1)) bs
        (All-map bs (still-IsListed s p.0 (key_of p.1)) listed.1)
        (remove_bucket-IsWellFormed s p listed.0 w)

  pub changed-IsWellFormed :
      (s : State heaps) (b b' : Bucket) (id : Text)
      → get s.buckets id ≡ some b
      → key_of b' ≡ key_of b
      → IsWellFormed s
      → IsWellFormed (record s { buckets = put s.buckets id b' })
  changed-IsWellFormed s b b' id found own (h, m) =
      (changed-IsRegistered heaps s b b' id found own h, put-IsMap s.buckets id b' m)

  stored_bucket-IsWellFormed :
      (now : ℕ) (s : State heaps) (id : Text) (records : ℕ)
      → IsWellFormed s
      → IsWellFormed (stored_bucket heaps now s id records)
  unfolding stored_bucket
  stored_bucket-IsWellFormed now s id records w = elim (Option-cases (get s.buckets id)) [
    | inl absent ↦ rw (stored_bucket, absent) w
    | inr (b, found) ↦
        let b' = if b.records == records then set_stored b else b in
        let s' : State heaps = record s { buckets = put s.buckets id b' } in
        let own : key_of b' ≡ key_of b = same_key b (b.records == records) in
        let w' = changed-IsWellFormed s b b' id found own w in
        let found' : get s'.buckets id ≡ some b' =
          get-put s.buckets id b' id ∙ ground (arith, (text_eq.beq_iff id id).1 refl) in
        rw (stored_bucket, found)
          (either_state (not (is_alive b' now) && b'.stored) s'
            (remove_bucket heaps s' id (key_of b')) w'
            (remove_bucket-IsWellFormed s' (id, b') (inr (b', found', refl)) w'))
  ]

  pub stored_all-IsWellFormed :
      (now : ℕ) (s : State heaps) (results : List (Text × ℕ))
      → IsWellFormed s
      → IsWellFormed (stored_all heaps now s results)
  unfolding stored_all
  stored_all-IsWellFormed now s [] w = w
  stored_all-IsWellFormed now s ((id, records) ∷ results) w =
      stored_all-IsWellFormed now (stored_bucket heaps now s id records) results
        (stored_bucket-IsWellFormed now s id records w)

  -- What is stored and has expired is removed after every answer of the database, whichever upserts were fulfilled.
  pub store_results-IsWellFormed :
      (now : ℕ) (s : State heaps) (results : List (Text × ℕ))
      → IsWellFormed s
      → IsWellFormed (store_results heaps now s results)
  unfolding store_results
  store_results-IsWellFormed now s results w =
      let s' = stored_all heaps now s results in
      let w' = stored_all-IsWellFormed now s results w in
      let expired = λ (p : Text × Bucket). p.1.stored && not (is_alive p.1 now) in
      remove_all-IsWellFormed now s' (filter expired s'.buckets)
        (All-filter (IsListed s') expired s'.buckets
          (All-map s'.buckets (λ p found. inr (p.1, found, refl)) (all_found s'.buckets w'.1)))
        w'
