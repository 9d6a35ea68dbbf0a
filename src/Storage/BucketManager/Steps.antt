-- ===== src/Storage/BucketManager/Steps.antt =====
-- Each call of the manager keeps the heaps and the map together.
use logstore_node.Base.{
  ℕ, ◌+◌, ◌≡◌, refl, sym, ap, ◌∙◌, Bool, true, false, ◌&&◌, Option, none, some, List, [], ◌∷◌,
  if◌then◌else◌, arith, ltb, Text, ◌===◌, text_eq, text_number_eq, subst, count, Option-cases, inl,
  inr,
}
use logstore_node.Base.Collections.{get, put, delete_key, get-put, get-delete_key}
use logstore_node.Storage.Bucket.{Bucket}
use logstore_node.Storage.BucketManager.{
  Entry, BucketHeaps, StreamPartKey, key_of, StreamPart, State, get_bucket_id, find_bucket_id,
  waiting, new_part,
}
use logstore_node.Storage.BucketManager.Removal.{remove_bucket, without, push_all}
use logstore_node.Storage.BucketManager.Registered.{
  IsRegistered, replaced-IsRegistered, with_part-IsRegistered, belongs, belongs-if, entries_in,
  is_entry,
}

count-without :
    (id id' : Text) (es : List Entry)
    → count (is_entry id') (without id es)
        + (if id === id' && ltb 0 (count (is_entry id) es) then 1 else 0)
      ≡ count (is_entry id') es
unfolding without
count-without id id' [] = ground arith
count-without id id' (e ∷ es) = ground (
  arith,
  text_eq.beq_iff e.id id,
  text_eq.beq_iff id id',
  text_eq.beq_iff e.id id',
  count-without id id' es,
)

unless : {n : ℕ} (c : Bool) → (c ≡ true → n ≡ 0) → (if c then 0 else n) ≡ n
unless c h = ground (arith, h)

same : {m n : ℕ} (c : Bool) → (c ≡ true → m ≡ n) → (if c then m else n) ≡ n
same c h = ground (arith, h)

found_at :
    (m : List (Text × Bucket)) (b : Bucket) (id id' : Text)
    → (id === id') ≡ true
    → get m id ≡ some b
    → get m id' ≡ some b
found_at m b id id' eq found = ap (get m) (sym ((text_eq.beq_iff id id').0 eq)) ∙ found

module _ (heaps : BucketHeaps) where
  open heaps use {Heap, to_array, push, empty, to_array-empty, to_array-push}

  count-push_all :
      (p : Entry → Bool) (h : Heap) (es : List Entry)
      → count p (to_array (push_all heaps h es)) ≡ count p es + count p (to_array h)
  unfolding push_all
  count-push_all p h [] = omega arith
  count-push_all p h (e ∷ es) = count-push_all p (push h e) es ∙ ground (arith, to_array-push h e p)

  -- The state after a bucket was removed from a part.
  abbrev removed : State heaps → Text → StreamPartKey → StreamPart heaps → State heaps
  removed s id key stream = record s {
    buckets = delete_key s.buckets id;
    stream_parts =
        put s.stream_parts key
          (record stream { buckets = push_all heaps empty (without id (to_array stream.buckets)) });
  }

  remove_bucket-removed :
      (s : State heaps) (id : Text) (key : StreamPartKey) (stream : StreamPart heaps)
      → get s.stream_parts key ≡ some stream
      → remove_bucket heaps s id key ≡ removed s id key stream
  unfolding remove_bucket
  remove_bucket-removed s id key stream h = rw (remove_bucket, h) refl

  belongs-delete :
      (m : List (Text × Bucket)) (id id' : Text) (key : StreamPartKey)
      → belongs heaps key (get (delete_key m id) id')
        ≡ (if id === id' then 0 else belongs heaps key (get m id'))
  belongs-delete m id id' key =
      ap (belongs heaps key) (get-delete_key m id id')
      ∙ belongs-if heaps key (id === id') none (get m id')

  own-belongs : (b : Bucket) (o : Option Bucket) → o ≡ some b → belongs heaps (key_of b) o ≡ 1
  own-belongs b o h =
      ap (belongs heaps (key_of b)) h
      ∙ ground (arith, (text_number_eq.beq_iff (key_of b) (key_of b)).1 refl)

  other-belongs :
      (b : Bucket) (o : Option Bucket) (key : StreamPartKey)
      → (key_of b === key) ≡ false
      → o ≡ some b
      → belongs heaps key o ≡ 0
  other-belongs b o key ne h = ap (belongs heaps key) h ∙ ground (arith, ne)

  -- A bucket of the map is removed from its own part.
  pub remove_bucket-IsRegistered :
      (s : State heaps) (b : Bucket) (id : Text)
      → get s.buckets id ≡ some b
      → IsRegistered heaps s
      → IsRegistered heaps (remove_bucket heaps s id (key_of b))
  unfolding IsRegistered
  remove_bucket-IsRegistered s b id found h = elim (Option-cases (get s.stream_parts (key_of b))) [
    | inl absent ↦
        let none_there = ap (λ o. count (is_entry id) (entries_in heaps o)) absent in
        absurd (omega (arith, h (key_of b) id, own-belongs b (get s.buckets id) found, none_there))
    | inr (stream, there) ↦
        let arr = to_array stream.buckets in
        let counted = λ (i : Text).
          sym (ap (λ o. count (is_entry i) (entries_in heaps o)) there) ∙ h (key_of b) i in
        subst (IsRegistered heaps) (sym (remove_bucket-removed s id (key_of b) stream there)) (
          replaced-IsRegistered heaps s (removed s id (key_of b) stream) (key_of b)
            (record stream { buckets = push_all heaps empty (without id arr) }) refl
            (λ i.
              count-push_all (is_entry i) empty (without id arr)
              ∙ ground (
                arith,
                ap (count (is_entry i)) to_array-empty,
                count-without id i arr,
                counted i,
                counted id,
                own-belongs b (get s.buckets id) found,
                belongs-delete s.buckets id i (key_of b),
                text_eq.beq_iff id i,
              ))
            (λ key ne i.
              belongs-delete s.buckets id i key
              ∙ unless (id === i) (λ eq.
                other-belongs b (get s.buckets i) key ne (found_at s.buckets b id i eq found)))
            h)
  ]

  -- A bucket of the map changes, but not the part of the stream that it belongs to.
  pub changed-IsRegistered :
      (s : State heaps) (b b' : Bucket) (id : Text)
      → get s.buckets id ≡ some b
      → key_of b' ≡ key_of b
      → IsRegistered heaps s
      → IsRegistered heaps (record s { buckets = put s.buckets id b' })
  unfolding IsRegistered
  changed-IsRegistered s b b' id found own h key id' =
      h key id'
      ∙ sym (
          ap (belongs heaps key) (get-put s.buckets id b' id')
          ∙ belongs-if heaps key (id === id') (some b') (get s.buckets id')
          ∙ same (id === id') (λ eq.
            ap (λ k. if k === key then 1 else 0) own
            ∙ sym (ap (belongs heaps key) (found_at s.buckets b id id' eq found))))

  pub get_bucket_id-IsRegistered :
      (s : State heaps) (stream_id : Text) (partition timestamp : ℕ)
      → IsRegistered heaps s
      → IsRegistered heaps (get_bucket_id heaps s stream_id partition timestamp).0
  unfolding get_bucket_id
  get_bucket_id-IsRegistered s stream_id partition timestamp h =
      elim (Option-cases (get s.stream_parts (stream_id, partition))) [
        | inl absent ↦
            rw (get_bucket_id, absent)
              (with_part-IsRegistered heaps s (stream_id, partition)
                (new_part heaps stream_id partition timestamp)
                (to_array-empty ∙ sym (ap (entries_in heaps) absent)) h)
        | inr (stream, there) ↦
            rw (get_bucket_id, there)
              (elim (Option-cases (find_bucket_id heaps s (stream_id, partition) timestamp)) [
                | inl missing ↦ rw (missing) (
                    with_part-IsRegistered heaps s (stream_id, partition)
                      (waiting heaps stream timestamp) (sym (ap (entries_in heaps) there)) h)
                | inr (id, found) ↦ rw (found) h
              ])
      ]

  pub get_bucket_id-buckets :
      (s : State heaps) (stream_id : Text) (partition timestamp : ℕ)
      → (get_bucket_id heaps s stream_id partition timestamp).0.buckets ≡ s.buckets
  unfolding get_bucket_id
  get_bucket_id-buckets s stream_id partition timestamp =
      elim (Option-cases (get s.stream_parts (stream_id, partition))) [
        | inl absent ↦ rw (get_bucket_id, absent) refl
        | inr (stream, there) ↦
            elim (Option-cases (find_bucket_id heaps s (stream_id, partition) timestamp)) [
              | inl missing ↦ rw (get_bucket_id, there, missing) refl
              | inr (id, found) ↦ rw (get_bucket_id, there, found) refl
            ]
      ]

  gone_from :
      (s : State heaps) (id : Text)
      → get s.buckets id ≡ none
      → (key : StreamPartKey) (i : Text)
      → belongs heaps key (get (delete_key s.buckets id) i) ≡ belongs heaps key (get s.buckets i)
  gone_from s id missing key i =
      belongs-delete s.buckets id i key
      ∙ unless (id === i) (λ eq.
        ap (belongs heaps key) (ap (get s.buckets) (sym ((text_eq.beq_iff id i).0 eq)) ∙ missing))

  -- A bucket that the map does not have is removed: nothing changes.
  pub absent_bucket-IsRegistered :
      (s : State heaps) (key : StreamPartKey) (id : Text)
      → get s.buckets id ≡ none
      → IsRegistered heaps s
      → IsRegistered heaps (remove_bucket heaps s id key)
  unfolding IsRegistered remove_bucket
  absent_bucket-IsRegistered s key id missing h = elim (Option-cases (get s.stream_parts key)) [
    | inl absent ↦
        λ key' i. rw (remove_bucket, absent) (h key' i ∙ sym (gone_from s id missing key' i))
    | inr (stream, there) ↦
        let arr = to_array stream.buckets in
        let counted =
          λ (i : Text). sym (ap (λ o. count (is_entry i) (entries_in heaps o)) there) ∙ h key i in
        subst (IsRegistered heaps) (sym (remove_bucket-removed s id key stream there)) (
          replaced-IsRegistered heaps s (removed s id key stream) key
            (record stream { buckets = push_all heaps empty (without id arr) }) refl
            (λ i.
              count-push_all (is_entry i) empty (without id arr)
              ∙ ground (
                arith,
                ap (count (is_entry i)) to_array-empty,
                count-without id i arr,
                counted i,
                counted id,
                ap (belongs heaps key) missing,
                gone_from s id missing key i,
              ))
            (λ key' ne i. gone_from s id missing key' i) h)
  ]
