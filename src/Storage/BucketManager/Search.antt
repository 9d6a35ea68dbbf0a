-- ===== src/Storage/BucketManager/Search.antt =====
-- The bucket that a message is given, and what happens to a message without one.
use logstore_node.Base.{
  ℕ, ◌≤◌, ◌<◌, ◌≡◌, refl, sym, ap, ◌∙◌, subst, Bool, true, ◌&&◌, not, Option, none, some, List, [],
  ◌∷◌, if◌then◌else◌, arith, leb, ltb, Text, text_eq, text_number_eq, any, count, Option-cases,
  Bool-cases, inl, inr, or_default,
}
use logstore_node.Base.Collections.{get, get-put_self}
use logstore_node.Storage.Bucket.{Bucket}
use logstore_node.Storage.BucketManager.{
  Entry, BucketHeaps, StreamPartKey, key_of, StreamPart, State, get_bucket_id, is_entry_almost_full,
  find_among, find_bucket_id, first_not_after, waiting, new_part, first, min_of,
}
use logstore_node.Storage.BucketManager.Registered.{IsRegistered, entries_in, is_entry, belongs}

-- An entry with an id that is not after a timestamp.
abbrev pub is_before : Text → ℕ → Entry → Bool
is_before id timestamp e = is_entry id e && leb e.date_create timestamp

some-injective : {A : Type 0} {a b : A} → some a ≡ some b → a ≡ b
some-injective {a} {b} h = ap (λ o. or_default o a) h

any-count :
    (id : Text) (timestamp : ℕ) (es : List Entry)
    → any (is_before id timestamp) es ≡ true
    → 0 < count (is_entry id) es
any-count id timestamp [] h = ground arith
any-count id timestamp (e ∷ es) h = ground (arith, any-count id timestamp es)

module _ (heaps : BucketHeaps) where
  open heaps use {Heap, peek, to_array, peek-to_array}

  first_not_after-any :
      (es : List Entry) (timestamp : ℕ) (id : Text)
      → first_not_after heaps es timestamp ≡ some id
      → any (is_before id timestamp) es ≡ true
  unfolding first_not_after
  first_not_after-any [] timestamp id h = ground (arith, h)
  first_not_after-any (e ∷ es) timestamp id h = elim (Bool-cases (leb e.date_create timestamp)) [
    | inl le ↦
        let same : e.id ≡ id =
          some-injective
            (sym (ap (λ c. if c then some e.id else first_not_after heaps es timestamp) le) ∙ h) in
        ground (arith, le, (text_eq.beq_iff e.id id).1 same)
    | inr late ↦ ground (
      arith,
      first_not_after-any es timestamp id
          (sym (ap (λ c. if c then some e.id else first_not_after heaps es timestamp) late) ∙ h),
    )
  ]

  -- What the search gives for the buckets of a heap in the order of its array.
  abbrev pub searched : State heaps → List Entry → ℕ → Option Text
  searched s [] timestamp = none
  searched s (e ∷ es) timestamp =
      if not (is_entry_almost_full heaps s e) && leb e.date_create timestamp
      then some e.id
      else if ltb timestamp e.date_create
      then first_not_after heaps es timestamp
      else none

  find_among-searched :
      (s : State heaps) (es : List Entry) (timestamp : ℕ)
      → find_among heaps s (first es) es timestamp ≡ searched s es timestamp
  unfolding find_among
  find_among-searched s [] timestamp = refl
  find_among-searched s (e ∷ es) timestamp = refl

  pub find_bucket_id-searched :
      (s : State heaps) (key : StreamPartKey) (timestamp : ℕ)
      → find_bucket_id heaps s key timestamp
        ≡ searched s (entries_in heaps (get s.stream_parts key)) timestamp
  unfolding find_bucket_id
  find_bucket_id-searched s key timestamp = elim (Option-cases (get s.stream_parts key)) [
    | inl absent ↦ rw (find_bucket_id, absent) refl
    | inr (stream, there) ↦
        rw (find_bucket_id, there)
          (ap (λ o. find_among heaps s o (to_array stream.buckets) timestamp)
              (peek-to_array stream.buckets)
            ∙ find_among-searched s (to_array stream.buckets) timestamp)
  ]

  searched-any :
      (s : State heaps) (es : List Entry) (timestamp : ℕ) (id : Text)
      → searched s es timestamp ≡ some id
      → any (is_before id timestamp) es ≡ true
  searched-any s [] timestamp id h = ground (arith, h)
  searched-any s (e ∷ es) timestamp id h = ground (
    arith,
    h,
    first_not_after-any es timestamp id,
    (text_eq.beq_iff e.id id).1,
    some-injective {a = e.id} {b = id},
  )

  find_bucket_id-any :
      (s : State heaps) (key : StreamPartKey) (timestamp : ℕ) (id : Text)
      → find_bucket_id heaps s key timestamp ≡ some id
      → any (is_before id timestamp) (entries_in heaps (get s.stream_parts key)) ≡ true
  find_bucket_id-any s key timestamp id h =
      searched-any s (entries_in heaps (get s.stream_parts key)) timestamp id
        (sym (find_bucket_id-searched s key timestamp) ∙ h)

  belongs-some :
      (key : StreamPartKey) (o : Option Bucket)
      → 0 < belongs heaps key o
      → (b : Bucket) × (o ≡ some b) × (key_of b ≡ key)
  belongs-some key none h = absurd (omega arith)
  belongs-some key (some b) h =
      (b, refl, (text_number_eq.beq_iff (key_of b) key).0 (ground (arith, h)))

  found_bucket :
      (s : State heaps) (key : StreamPartKey) (timestamp : ℕ) (id : Text)
      → IsRegistered heaps s
      → find_bucket_id heaps s key timestamp ≡ some id
      → (b : Bucket) × (get s.buckets id ≡ some b) × (key_of b ≡ key)
  unfolding IsRegistered
  found_bucket s key timestamp id h found = belongs-some key (get s.buckets id) (
      subst (λ n. 0 < n) (h key id)
        (any-count id timestamp (entries_in heaps (get s.stream_parts key))
          (find_bucket_id-any s key timestamp id found)))

  -- Where the heaps and the map agree, the bucket that a message is given is one of its own part of
  -- the stream, and is not dated after the message. A message that is given none leaves the part
  -- waiting for a bucket of a time that is not after the message.
  pub get_bucket_id-key_of :
      (s : State heaps) (stream_id : Text) (partition timestamp : ℕ)
      → IsRegistered heaps s
      → ((id : Text)
          → (get_bucket_id heaps s stream_id partition timestamp).1 ≡ some id
          → ((b : Bucket) × (get s.buckets id ≡ some b) × (key_of b ≡ (stream_id, partition)))
            × (any
                  (is_before id timestamp)
                  (entries_in heaps (get s.stream_parts (stream_id, partition)))
                ≡ true))
        × ((get_bucket_id heaps s stream_id partition timestamp).1 ≡ none
            → (stream : StreamPart heaps) × (m : ℕ) × (get
                  (get_bucket_id heaps s stream_id partition timestamp).0.stream_parts
                  (stream_id, partition)
                ≡ some stream)
              × (stream.min_timestamp ≡ some m)
              × (m ≤ timestamp))
  unfolding get_bucket_id IsRegistered
  get_bucket_id-key_of s stream_id partition timestamp h =
      elim (Option-cases (get s.stream_parts (stream_id, partition))) [
        | inl absent ↦
            rw (get_bucket_id, absent)
              (
                λ id e. absurd (ground (arith, e)),
                λ e. (
                  new_part heaps stream_id partition timestamp,
                  timestamp,
                  get-put_self s.stream_parts (stream_id, partition) _,
                  refl,
                  omega arith,
                ),
              )
        | inr (stream, there) ↦
            elim (Option-cases (find_bucket_id heaps s (stream_id, partition) timestamp)) [
              | inl missing ↦
                  rw (get_bucket_id, there, missing)
                    (
                      λ id e. absurd (ground (arith, e)),
                      λ e. (
                        waiting heaps stream timestamp,
                        min_of heaps stream.min_timestamp timestamp,
                        get-put_self s.stream_parts (stream_id, partition) _,
                        refl,
                        ground arith,
                      ),
                    )
              | inr (id', found) ↦
                  rw (get_bucket_id, there, found)
                    (
                      λ id e. (
                        found_bucket s (stream_id, partition) timestamp id h (found ∙ e),
                        sym (ap (λ o. any (is_before id timestamp) (entries_in heaps o)) there)
                            ∙ find_bucket_id-any s (stream_id, partition) timestamp id (found ∙ e),
                      ),
                      λ e. absurd (ground (arith, e)),
                    )
            ]
      ]
