-- ===== src/Storage/BatchManager/Bounds.antt =====
-- The records, the size and the state of the open batches.
use logstore_node.Base.{
  ℕ, ◌+◌, ◌≤◌, ◌<◌, ◌≡◌, refl, subst, inl, inr, false, Option, some, List, [], ◌∷◌, ◌++◌, Text,
  text_eq, text_beq, nat_eq, arith, Bool-cases, Option-cases, length, length-append,
}
use logstore_node.Base.Collections.{get, put, get-put, get-delete_key}
use logstore_node.Storage.Batch
use logstore_node.Storage.Batch.{Batch, InsertRecord, Result, ok, type_error, reached_max_retries}
use logstore_node.Storage.BatchManager.Consistency.{ok-injective}
use logstore_node.Storage.BatchManager.{
  Options, Manager, lock_batch, make_room, create_batch, push_to, store,
}

batch-injective : {a b : Batch} → ok a ≡ ok b → a ≡ b
batch-injective h = cc

found-injective : {a b : Batch} → some a ≡ some b → a ≡ b
found-injective h = cc

abbrev bytes_of : List InsertRecord → ℕ
bytes_of [] = 0
bytes_of (r ∷ rs) = length r.payload + bytes_of rs

bytes_of-append : (rs qs : List InsertRecord) → bytes_of (rs ++ qs) ≡ bytes_of rs + bytes_of qs
bytes_of-append [] qs = omega arith
bytes_of-append (r ∷ rs) qs = omega (arith, bytes_of-append rs qs)

-- An open batch holds at most the limit of records; its size is the sum of its payloads, and below
-- the limit of bytes plus one payload, where none is larger than the given limit.
pub record IsOpen (o : Options) (payload_limit : ℕ) (b : Batch) : Type 0 where
  pub count_limit : b.max_record_count ≡ o.batch_max_record_count
  pub byte_limit : b.max_size ≡ o.batch_max_size
  pub few : length b.records ≤ b.max_record_count
  pub sized : b.size ≡ bytes_of b.records
  pub small : b.size < b.max_size + payload_limit
  pub untried : b.retries ≡ 0
  pub state_opened : b.state ≡ Batch.opened

abbrev pub AllOpen : ℕ → Manager → Type 0
AllOpen n m = (k : Text) (b : Batch) → get m.batches k ≡ some b → IsOpen m.opts n b

push-IsOpen :
    (o : Options) (n : ℕ) (b : Batch) (r : InsertRecord) (cb : Option ℕ)
    → IsOpen o n b
    → Batch.is_full b ≡ false
    → length r.payload ≤ n
    → IsOpen o n (Batch.push b r cb)
unfolding Batch.push Batch.is_full
push-IsOpen o n b r cb v h k =
    ground (arith, bytes_of-append b.records (r ∷ []), length-append b.records (r ∷ []))

create-IsOpen :
    (m : Manager) (n : ℕ) (bucket : Text) (id now : ℕ) (b : Batch)
    → create_batch m bucket id now ≡ ok b
    → IsOpen m.opts n b × (Batch.is_full b ≡ false)
unfolding Batch.new_batch Batch.is_full
create-IsOpen m n bucket id now b h = ground arith

lock_batch-AllOpen :
    (m : Manager) (n : ℕ) (bucket : Text) (b : Batch)
    → AllOpen n m
    → AllOpen n (lock_batch m bucket b)
unfolding lock_batch
lock_batch-AllOpen m n bucket b v k c e =
    v k c (ground (arith, text_eq.beq_iff bucket k, get-delete_key m.batches bucket k))

make_room-AllOpen :
    (m : Manager) (n : ℕ) (bucket : Text) → AllOpen n m → AllOpen n (make_room m bucket)
unfolding make_room
make_room-AllOpen m n bucket v = elim (Option-cases (get m.batches bucket)) [
  | inl e ↦ rw (e, make_room) v
  | inr (b, e) ↦
      rw (e, make_room)
        (elim (Bool-cases (Batch.is_full b)) [
          | inl full ↦ rw full (lock_batch-AllOpen m n bucket b v)
          | inr room ↦ rw room v
        ])
]

-- After `make_room` the open batch of the bucket, if any, has room.
make_room-not_full :
    (m : Manager) (bucket : Text) (b : Batch)
    → get (make_room m bucket).batches bucket ≡ some b
    → Batch.is_full b ≡ false
unfolding make_room lock_batch
make_room-not_full m bucket b h =
    ground (arith, text_eq.beq_iff bucket bucket, get-delete_key m.batches bucket bucket)

push_to-AllOpen :
    (m m' : Manager) (n : ℕ) (bucket : Text) (r : InsertRecord) (cb : Option ℕ) (c : Result Batch)
    → AllOpen n m
    → length r.payload ≤ n
    → ((b : Batch) → c ≡ ok b → IsOpen m.opts n b × (Batch.is_full b ≡ false))
    → push_to m bucket r cb c ≡ ok m'
    → AllOpen n m'
push_to-AllOpen m m' n bucket r cb (type_error a) v small f k = ground arith
push_to-AllOpen m m' n bucket r cb (ok b) v small f k = subst (AllOpen n) (ok-injective k) pushed
  where
    now_open : IsOpen m.opts n (Batch.push b r cb)
    now_open = push-IsOpen m.opts n b r cb (f b refl).0 (f b refl).1 small

    pushed : AllOpen n (record m { batches = put m.batches bucket (Batch.push b r cb) })
    pushed j d e = elim (Bool-cases (text_beq bucket j)) [
      | inl here ↦
          subst (IsOpen m.opts n)
            (found-injective
              (ground (arith, here, e, get-put m.batches bucket (Batch.push b r cb) j)))
            now_open
      | inr other ↦ v j d (ground (arith, get-put m.batches bucket (Batch.push b r cb) j))
    ]

-- Every successful store of a payload of at most a given number of bytes keeps this of all open
-- batches: they have the limits of the options, at most the limit of records, a size that is the
-- sum of their payloads and less than the limit of bytes plus the given number, no failed attempt,
-- and the state opened. The last payload may take the size above the limit of bytes.
pub store-AllOpen :
    (m : Manager) (n : ℕ) (bucket : Text) (r : InsertRecord) (cb : Option ℕ) (id now : ℕ)
    (m' : Manager)
    → AllOpen n m
    → length r.payload ≤ n
    → store m bucket r cb id now ≡ ok m'
    → AllOpen n m'
unfolding store
store-AllOpen m n bucket r cb id now m' v small h =
    elim (Option-cases (get (make_room m bucket).batches bucket)) [
      | inl miss ↦
          push_to-AllOpen (make_room m bucket) m' n bucket r cb
            (create_batch (make_room m bucket) bucket id now) w small
            (λ b e. create-IsOpen (make_room m bucket) n bucket id now b e) (ground arith)
      | inr (b, hit) ↦
          push_to-AllOpen (make_room m bucket) m' n bucket r cb (ok b) w small
            (λ c e.
              subst (λ d. IsOpen (make_room m bucket).opts n d × (Batch.is_full d ≡ false))
                (batch-injective e) (w bucket b hit, make_room-not_full m bucket b hit))
            (ground arith)
    ]
  where
    w : AllOpen n (make_room m bucket)
    w = make_room-AllOpen m n bucket v
