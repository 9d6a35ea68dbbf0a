-- ===== src/Storage/BucketManager/Registered.antt =====
-- A heap's entries are the buckets of the map that belong to its part of a stream.
use logstore_node.Base.{
  ℕ, ◌+◌, ◌≡◌, refl, sym, ap, ◌∙◌, Bool, true, false, Option, none, some, List, [], ◌∷◌,
  if◌then◌else◌, arith, Text, ◌===◌, text_eq, text_number_eq, count, Bool-cases, inl, inr,
}
use logstore_node.Base.Collections.{get, put, has_key, get-put}
use logstore_node.Storage.Bucket.{Bucket}
use logstore_node.Storage.BucketManager.{
  Entry, BucketHeaps, StreamPartKey, entry_of, key_of, StreamPart, State, add_bucket, with_part,
}

abbrev pub is_entry : Text → Entry → Bool
is_entry id e = e.id === id

has_key-get : (m : List (Text × Bucket)) (id : Text) → has_key m id ≡ false → get m id ≡ none
unfolding has_key get
has_key-get [] id h = refl
has_key-get ((k, v) ∷ m) id h = ground (arith, has_key-get m id)

module _ (heaps : BucketHeaps) where
  open heaps use {to_array, push, empty, to_array-empty, to_array-push}

  -- The entries of the heap of a key.
  abbrev pub entries_in : Option (StreamPart heaps) → List Entry
  entries_in none = []
  entries_in (some stream) = to_array stream.buckets

  abbrev pub belongs : StreamPartKey → Option Bucket → ℕ
  belongs key none = 0
  belongs key (some b) = if key_of b === key then 1 else 0

  -- An id stands in the heap of a key once when its bucket belongs to the key, and never when it
  -- does not or when there is no such bucket.
  unfoldable pub IsRegistered : State heaps → Type 0
  IsRegistered s =
      (key : StreamPartKey) (id : Text)
      → count (is_entry id) (entries_in (get s.stream_parts key)) ≡ belongs key (get s.buckets id)

  entries-put :
      (parts : List (StreamPartKey × StreamPart heaps)) (key key' : StreamPartKey)
      (stream : StreamPart heaps) (id : Text)
      → count (is_entry id) (entries_in (get (put parts key stream) key')) ≡ (
          if key === key'
          then count (is_entry id) (to_array stream.buckets)
          else count (is_entry id) (entries_in (get parts key')))
  entries-put parts key key' stream id =
      ap (λ o. count (is_entry id) (entries_in o)) (get-put parts key stream key')
      ∙ choose (key === key')
    where
      choose :
          (b : Bool)
          → count (is_entry id) (entries_in (if b then some stream else get parts key')) ≡ (
              if b
              then count (is_entry id) (to_array stream.buckets)
              else count (is_entry id) (entries_in (get parts key')))
      choose true = refl
      choose false = refl

  -- A part of a stream is replaced, and with it some buckets: it is enough to look at that part, and
  -- that the buckets of the others stay.
  pub replaced-IsRegistered :
      (s s' : State heaps) (key : StreamPartKey) (stream : StreamPart heaps)
      → s'.stream_parts ≡ put s.stream_parts key stream
      → ((id : Text)
          → count (is_entry id) (to_array stream.buckets) ≡ belongs key (get s'.buckets id))
      → ((key' : StreamPartKey)
          → (key === key') ≡ false
          → (id : Text) → belongs key' (get s'.buckets id) ≡ belongs key' (get s.buckets id))
      → IsRegistered s
      → IsRegistered s'
  unfolding IsRegistered
  replaced-IsRegistered s s' key stream parts here there h key' id =
      ap (λ m. count (is_entry id) (entries_in (get m key'))) parts
      ∙ entries-put s.stream_parts key key' stream id
      ∙ elim (Bool-cases (key === key')) [
        | inl eq ↦
            ap
              (λ b.
                if b
                then count (is_entry id) (to_array stream.buckets)
                else count (is_entry id) (entries_in (get s.stream_parts key')))
              eq
            ∙ here id
            ∙ ap (λ k. belongs k (get s'.buckets id)) ((text_number_eq.beq_iff key key').0 eq)
        | inr ne ↦
            ap
              (λ b.
                if b
                then count (is_entry id) (to_array stream.buckets)
                else count (is_entry id) (entries_in (get s.stream_parts key')))
              ne
            ∙ h key' id
            ∙ sym (there key' ne id)
      ]

  -- A change of a part that keeps its heap.
  pub with_part-IsRegistered :
      (s : State heaps) (key : StreamPartKey) (stream : StreamPart heaps)
      → to_array stream.buckets ≡ entries_in (get s.stream_parts key)
      → IsRegistered s
      → IsRegistered (with_part heaps s key stream)
  unfolding IsRegistered
  with_part-IsRegistered s key stream same h =
      replaced-IsRegistered s (with_part heaps s key stream) key stream refl
        (λ id. ap (count (is_entry id)) same ∙ h key id) (λ key' ne id. refl) h

  pub belongs-if :
      (key : StreamPartKey) (c : Bool) (o o' : Option Bucket)
      → belongs key (if c then o else o') ≡ (if c then belongs key o else belongs key o')
  belongs-if key true o o' = refl
  belongs-if key false o o' = refl

  belongs-put :
      (m : List (Text × Bucket)) (b : Bucket) (key : StreamPartKey) (id : Text)
      → get m b.id ≡ none
      → belongs key (get (put m b.id b) id)
        ≡ (if key_of b === key then count (is_entry id) (entry_of b ∷ []) else 0)
          + belongs key (get m id)
  belongs-put m b key id absent =
      ap (belongs key) (get-put m b.id b id)
      ∙ belongs-if key (b.id === id) (some b) (get m id)
      ∙ elim (Bool-cases (b.id === id)) [
        | inl eq ↦
            let gone : belongs key (get m id) ≡ 0 =
              ap (λ i. belongs key (get m i)) (sym ((text_eq.beq_iff b.id id).0 eq))
              ∙ ap (belongs key) absent in
            ground (arith, eq, gone)
        | inr ne ↦ ground (arith, ne)
      ]

  -- A bucket that the map does not have is added to its part.
  pub add_bucket-IsRegistered :
      (s : State heaps) (key : StreamPartKey) (stream : StreamPart heaps) (b : Bucket)
      → get s.stream_parts key ≡ some stream
      → has_key s.buckets b.id ≡ false
      → key_of b ≡ key
      → IsRegistered s
      → IsRegistered (add_bucket heaps s key stream b)
  unfolding IsRegistered add_bucket
  add_bucket-IsRegistered s key stream b found fresh own h =
      let absent = has_key-get s.buckets b.id fresh in
      let stream' : StreamPart heaps = record stream {
        buckets = push stream.buckets (entry_of b);
        min_timestamp = none;
      } in
      replaced-IsRegistered s (add_bucket heaps s key stream b) key stream' refl
        (λ id.
          to_array-push stream.buckets (entry_of b) (is_entry id)
          ∙ ground (
            arith,
            (text_number_eq.beq_iff (key_of b) key).1 own,
            belongs-put s.buckets b key id absent,
            sym (ap (λ o. count (is_entry id) (entries_in o)) found) ∙ h key id,
          ))
        (λ key' ne id.
          belongs-put s.buckets b key' id absent ∙ ground (arith, ap (λ k. k === key') own ∙ ne))
        h
