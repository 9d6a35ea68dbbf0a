-- ===== src/Storage/BatchManager/Consistency.antt =====
-- The maps of the manager stay maps, and no object stands in both.
use logstore_node.Base.{
  ℕ, ◌≡◌, refl, subst, ◌∙◌, ◌≢◌, inl, inr, Option, none, some, [], Text, text_eq, nat_eq, arith,
  Bool-cases, Option-cases,
}
use logstore_node.Base.Collections.{
  get, put, IsMap, put-IsMap, delete_key-IsMap, get-put, get-delete_key,
}
use logstore_node.Storage.Batch
use logstore_node.Storage.Batch.{Batch, InsertRecord, Result, ok, type_error, reached_max_retries}
use logstore_node.Storage.BatchManager.{
  Manager, lock_batch, make_room, create_batch, push_to, store,
}

-- A bucket has one open batch, a uuid one pending batch, and every object its own uuid.
pub record IsConsistent (m : Manager) : Type 0 where
  pub open_map : IsMap m.batches
  pub pending_map : IsMap m.pending_batches
  pub apart : (k : Text) (b : Batch) → get m.batches k ≡ some b → get m.pending_batches b.id ≡ none
  pub distinct :
      (k j : Text) (b c : Batch)
      → get m.batches k ≡ some b
      → get m.batches j ≡ some c
      → b.id ≡ c.id
      → k ≡ j

-- What the node relies on of a uuid: no object of the manager has it.
pub record IsNew (m : Manager) (id : ℕ) : Type 0 where
  pub not_pending : get m.pending_batches id ≡ none
  pub not_open : (k : Text) (b : Batch) → get m.batches k ≡ some b → b.id ≢ id

pub ok-injective : {a b : Manager} → ok a ≡ ok b → a ≡ b
ok-injective h = cc

pub lock_batch-IsConsistent :
    (m : Manager) (bucket : Text) (b : Batch)
    → IsConsistent m
    → get m.batches bucket ≡ some b
    → IsConsistent (lock_batch m bucket b)
unfolding lock_batch Batch.lock Batch.schedule_insert
lock_batch-IsConsistent m bucket b v h = record {
  open_map = delete_key-IsMap m.batches bucket v.open_map;
  pending_map =
      put-IsMap m.pending_batches b.id (Batch.schedule_insert (Batch.lock b)) v.pending_map;
  apart = λ k c e. ground (
    arith,
    text_eq.beq_iff bucket k,
    get-delete_key m.batches bucket k,
    get-put m.pending_batches b.id (Batch.schedule_insert (Batch.lock b)) c.id,
    v.apart k c,
    v.distinct k bucket c b,
  );
  distinct = λ k j c d e f.
      v.distinct k j c d
        (ground (arith, text_eq.beq_iff bucket k, get-delete_key m.batches bucket k))
        (ground (arith, text_eq.beq_iff bucket j, get-delete_key m.batches bucket j));
}

lock_batch-IsNew :
    (m : Manager) (bucket : Text) (b : Batch) (id : ℕ)
    → get m.batches bucket ≡ some b
    → IsNew m id
    → IsNew (lock_batch m bucket b) id
unfolding lock_batch Batch.lock Batch.schedule_insert
lock_batch-IsNew m bucket b id h n = record {
  not_pending = ground (
    arith,
    n.not_pending,
    n.not_open bucket b h,
    get-put m.pending_batches b.id (Batch.schedule_insert (Batch.lock b)) id,
  );
  not_open = λ k c e.
      n.not_open k c (ground (arith, text_eq.beq_iff bucket k, get-delete_key m.batches bucket k));
}

pub make_room-IsConsistent :
    (m : Manager) (bucket : Text) → IsConsistent m → IsConsistent (make_room m bucket)
unfolding make_room
make_room-IsConsistent m bucket v = elim (Option-cases (get m.batches bucket)) [
  | inl e ↦ rw (e, make_room) v
  | inr (b, e) ↦
      rw (e, make_room)
        (elim (Bool-cases (Batch.is_full b)) [
          | inl full ↦ rw full (lock_batch-IsConsistent m bucket b v e)
          | inr room ↦ rw room v
        ])
]

make_room-IsNew :
    (m : Manager) (bucket : Text) (id : ℕ) → IsNew m id → IsNew (make_room m bucket) id
unfolding make_room
make_room-IsNew m bucket id n = elim (Option-cases (get m.batches bucket)) [
  | inl e ↦ rw (e, make_room) n
  | inr (b, e) ↦
      rw (e, make_room)
        (elim (Bool-cases (Batch.is_full b)) [
          | inl full ↦ rw full (lock_batch-IsNew m bucket b id e n)
          | inr room ↦ rw room n
        ])
]

put_open-IsConsistent :
    (m : Manager) (bucket : Text) (b : Batch)
    → IsConsistent m
    → get m.pending_batches b.id ≡ none
    → ((k : Text) (c : Batch) → get m.batches k ≡ some c → c.id ≡ b.id → k ≡ bucket)
    → IsConsistent (record m { batches = put m.batches bucket b })
put_open-IsConsistent m bucket b v h u = record {
  open_map = put-IsMap m.batches bucket b v.open_map;
  pending_map = v.pending_map;
  apart =
      λ k c e. ground (arith, text_eq.beq_iff bucket k, get-put m.batches bucket b k, v.apart k c);
  distinct = λ k j c d e f same. ground (
    arith,
    text_eq.beq_iff bucket k,
    text_eq.beq_iff bucket j,
    get-put m.batches bucket b k,
    get-put m.batches bucket b j,
    v.distinct k j c d,
    u k c,
    u j d,
  );
}

push-id : (b : Batch) (r : InsertRecord) (cb : Option ℕ) → (Batch.push b r cb).id ≡ b.id
unfolding Batch.push
push-id b r cb = refl

pub created-id :
    (m : Manager) (bucket : Text) (id now : ℕ) (b : Batch)
    → create_batch m bucket id now ≡ ok b
    → (b.id ≡ id) × (b.records ≡ [])
unfolding Batch.new_batch
created-id m bucket id now b h = ground arith

-- Every store keeps the maps consistent, given a new uuid.
pub store-IsConsistent :
    (m : Manager) (bucket : Text) (r : InsertRecord) (cb : Option ℕ) (id now : ℕ) (m' : Manager)
    → IsConsistent m
    → IsNew m id
    → store m bucket r cb id now ≡ ok m'
    → IsConsistent m'
unfolding store
store-IsConsistent m bucket r cb id now m' v n h =
    elim (Option-cases (get (make_room m bucket).batches bucket)) [
      | inl miss ↦ created (create_batch (make_room m bucket) bucket id now) refl (ground arith)
      | inr (b, hit) ↦ subst IsConsistent (ok-injective (ground arith)) (
          put_open-IsConsistent (make_room m bucket) bucket (Batch.push b r cb) w
            (rw push-id (w.apart bucket b hit))
            (λ k c e same. w.distinct k bucket c b e hit (same ∙ push-id b r cb)))
    ]
  where
    w : IsConsistent (make_room m bucket)
    w = make_room-IsConsistent m bucket v

    fresh : IsNew (make_room m bucket) id
    fresh = make_room-IsNew m bucket id n

    created :
        (c : Result Batch)
        → create_batch (make_room m bucket) bucket id now ≡ c
        → push_to (make_room m bucket) bucket r cb c ≡ ok m'
        → IsConsistent m'
    created (type_error a) e k = ground arith
    created (ok b) e k = subst IsConsistent (ok-injective k) (
        put_open-IsConsistent (make_room m bucket) bucket (Batch.push b r cb) w
          (rw (push-id b r cb, (created-id (make_room m bucket) bucket id now b e).0)
            fresh.not_pending)
          (λ j c f same. absurd (
            fresh.not_open j c f
              (same ∙ push-id b r cb ∙ (created-id (make_room m bucket) bucket id now b e).0))))
