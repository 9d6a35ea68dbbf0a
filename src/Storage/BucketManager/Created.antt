-- ===== src/Storage/BucketManager/Created.antt =====
-- A bucket that is created for waiting messages is found for them.
use logstore_node.Base.{
  ℕ, zero, suc, ◌*◌, ◌+◌, ◌≤◌, ◌<◌, ◌≡◌, refl, sym, ap, ◌∙◌, Bool, true, false, ◌&&◌, not, Option,
  none, some, List, [], ◌∷◌, arith, leb, ◌==◌, Text, ◌===◌, text_eq, text_number_eq, All, any,
  any-SameElements, Bool-cases, inl, inr, pos,
}
use logstore_node.Base.Collections.{get, get-put_self}
use logstore_node.Storage.Bucket
use logstore_node.Storage.Bucket.{Bucket, BucketResult, new_bucket, built, rejected, is_almost_full}
use logstore_node.Storage.BucketManager.{
  Entry, BucketHeaps, IsLatestFirst, StreamPartKey, StreamPart, State, add_bucket, entry_of,
  is_entry_almost_full, find_bucket_id, first_not_after, percent_deduction,
}
use logstore_node.Storage.BucketManager.Checks.{data_of, inserted, insert_bucket}
use logstore_node.Storage.BucketManager.Registered.{entries_in}
use logstore_node.Storage.BucketManager.Search.{searched, find_bucket_id-searched}

abbrev pub is_dated : ℕ → Entry → Bool
is_dated date e = e.date_create == date

abbrev is_other : ℕ → Text → Entry → Bool
is_other date id e = e.date_create == date && not (e.id === id)

latest-le :
    (date : ℕ) (x : Entry) (es : List Entry)
    → All (λ (e : Entry). leb e.date_create x.date_create ≡ true) es
    → any (is_dated date) es ≡ true
    → date ≤ x.date_create
latest-le date x [] h k = ground arith
latest-le date x (e ∷ es) h k = ground (arith, h.0, latest-le date x es h.1)

other-dated :
    (date : ℕ) (id : Text) (es : List Entry)
    → any (is_dated date) es ≡ false
    → any (is_other date id) es ≡ false
other-dated date id [] h = refl
other-dated date id (e ∷ es) h = ground (arith, other-dated date id es)

abbrev created_bucket : Text → Text → (p date size records keep_alive now : ℕ) → Bucket
created_bucket id stream_id p date size records keep_alive now = record {
  id = id;
  stream_id = stream_id;
  partition = pos p;
  size = 0;
  records = 0;
  date_create = date;
  max_size = size;
  max_record_count = records;
  keep_alive_seconds = keep_alive;
  ttl = now + keep_alive * 1000;
  stored = false;
}

-- A bucket of a stream with a name and with limits above zero is built, and has room.
built_new :
    (c d p date : ℕ) (cs ds : Text) (size records keep_alive now : ℕ)
    → 0 < size
    → 0 < records
    → 0 < keep_alive
    → (b : Bucket) × (new_bucket
          (d ∷ ds)
          (c ∷ cs)
          (pos p)
          (pos 0)
          (pos 0)
          date
          (pos size)
          (pos records)
          (pos keep_alive)
          now
        ≡ built b)
      × (b.date_create ≡ date)
      × (is_almost_full b percent_deduction ≡ false)
unfolding new_bucket is_almost_full Bucket.check_size Bucket.update_ttl
built_new c d p date cs ds zero r k now x y z = absurd (omega arith)
built_new c d p date cs ds (suc n) zero k now x y z = absurd (omega arith)
built_new c d p date cs ds (suc n) (suc r) zero now x y z = absurd (omega arith)
built_new c d p date cs ds (suc n) (suc r) (suc k) now x y z = (
  created_bucket (d ∷ ds) (c ∷ cs) p date (suc n) (suc r) (suc k) now,
  ground arith,
  refl,
  ground arith,
)

module _ (heaps : BucketHeaps) where
  open heaps use {to_array, push, to_array-push, to_array-IsLatestFirst}

  first_not_after-some :
      (es : List Entry) (timestamp : ℕ)
      → any (is_dated timestamp) es ≡ true
      → (id : Text) × (first_not_after heaps es timestamp ≡ some id)
  unfolding first_not_after
  first_not_after-some [] timestamp h = absurd (ground (arith, h))
  first_not_after-some (e ∷ es) timestamp h = elim (Bool-cases (leb e.date_create timestamp)) [
    | inl early ↦ (e.id, ground (arith, early))
    | inr late ↦
        let (id, found) = first_not_after-some es timestamp (ground (arith, h, late)) in
        (id, ground (arith, late, found))
  ]

  searched-some :
      (s : State heaps) (es : List Entry) (timestamp : ℕ) (new_id : Text)
      → IsLatestFirst es
      → any (is_dated timestamp) es ≡ true
      → any (is_other timestamp new_id) es ≡ false
      → ((e : Entry) → e.id ≡ new_id → is_entry_almost_full heaps s e ≡ false)
      → (id : Text) × (searched heaps s es timestamp ≡ some id)
  searched-some s [] timestamp new_id latest dated others room = absurd (ground (arith, dated))
  searched-some s (e ∷ es) timestamp new_id latest dated others room =
      elim (Bool-cases (is_dated timestamp e)) [
        | inl same ↦
            let own : e.id ≡ new_id =
              (text_eq.beq_iff e.id new_id).0 (ground (arith, same, others)) in
            (e.id, ground (arith, same, room e own))
        | inr different ↦
            let later : any (is_dated timestamp) es ≡ true = ground (arith, dated, different) in
            let after : timestamp ≤ e.date_create = latest-le timestamp e es latest later in
            let (id, found) = first_not_after-some es timestamp later in
            (id, ground (arith, different, after, found))
      ]

  almost_full_of :
      (s : State heaps) (e : Entry) (b : Bucket)
      → get s.buckets e.id ≡ some b
      → is_almost_full b percent_deduction ≡ false
      → is_entry_almost_full heaps s e ≡ false
  unfolding is_entry_almost_full
  almost_full_of s e b found room = rw (is_entry_almost_full, found) room

  created-found :
      (s : State heaps) (key : StreamPartKey) (stream : StreamPart heaps) (b : Bucket)
      → is_almost_full b percent_deduction ≡ false
      → any (is_dated b.date_create) (to_array stream.buckets) ≡ false
      → (id : Text) × (find_bucket_id heaps (add_bucket heaps s key stream b) key b.date_create
          ≡ some id)
  unfolding add_bucket is_entry_almost_full
  created-found s key stream b room alone =
      let s' = add_bucket heaps s key stream b in
      let h = push stream.buckets (entry_of b) in
      let there =
        get-put_self s.stream_parts key (record stream { buckets = h; min_timestamp = none }) in
      let same = λ (p : Entry → Bool).
        any-SameElements p (to_array h) (entry_of b ∷ to_array stream.buckets)
          (to_array-push stream.buckets (entry_of b)) in
      let own = (text_eq.beq_iff b.id b.id).1 refl in
      let (id, found) =
        searched-some s' (to_array h) b.date_create b.id (to_array-IsLatestFirst h)
          (same (is_dated b.date_create) ∙ ground arith)
          (same (is_other b.date_create b.id)
            ∙ ground (arith, own, other-dated b.date_create b.id (to_array stream.buckets) alone))
          (λ e eq.
            almost_full_of s' e b (ap (get s'.buckets) eq ∙ get-put_self s.buckets b.id b) room) in
      (
        id,
        find_bucket_id-searched heaps s' key b.date_create
            ∙ ap (λ o. searched heaps s' (entries_in heaps o) b.date_create) there
            ∙ found,
      )

  -- A check that creates a bucket for a known part succeeds, with a name for the bucket and the
  -- stream and with positive limits, and after it the search finds a bucket for the waiting timestamp, when no other
  -- bucket of the part is dated at just that timestamp.
  pub insert_bucket-found :
      (last_buckets : Text → ℕ → Option ℕ → List Bucket) (now : ℕ) (s : State heaps) (c d p m : ℕ)
      (cs ds : Text) (stream : StreamPart heaps)
      → get s.stream_parts (c ∷ cs, p) ≡ some stream
      → any (is_dated m) (to_array stream.buckets) ≡ false
      → 0 < s.opts.max_bucket_size
      → 0 < s.opts.max_bucket_records
      → 0 < s.opts.bucket_keep_alive_seconds
      → (s' : State heaps) × (id : Text) × (insert_bucket heaps last_buckets now
            (d ∷ ds)
            s
            (c ∷ cs, p)
            m
          ≡ some s')
        × (find_bucket_id heaps s' (c ∷ cs, p) m ≡ some id)
  unfolding insert_bucket
  insert_bucket-found last_buckets now s c d p m cs ds stream there alone x y z =
      let (b, made, dated, room) = built_new c d p m cs ds _ _ _ now x y z in
      let (id, found) =
        created-found s (c ∷ cs, p) stream b room
          (ap (λ t. any (is_dated t) (to_array stream.buckets)) dated ∙ alone) in
      (
        add_bucket heaps s (c ∷ cs, p) stream b,
        id,
        ap at there ∙ ap (inserted heaps s (c ∷ cs, p) stream) made,
        ap (find_bucket_id heaps (add_bucket heaps s (c ∷ cs, p) stream b) (c ∷ cs, p)) (sym dated)
            ∙ found,
      )
    where
      at : Option (StreamPart heaps) → Option (State heaps)
      at none = some s
      at (some stream') =
          inserted heaps s (c ∷ cs, p) stream' (data_of heaps s (d ∷ ds) (c ∷ cs, p) m now)
