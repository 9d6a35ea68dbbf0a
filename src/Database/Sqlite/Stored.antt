-- ===== src/Database/Sqlite/Stored.antt =====
-- A message that is stored and read again by its reference.
use logstore_node.Base.{
  pos, ℕ, ◌≡◌, refl, sym, ap, ◌∙◌, true, ◌&&◌, none, some, any, false, List, [], ◌∷◌, arith, count,
  SameElements, Text, text_eq, text_beq_iff, append-nil,
}
use logstore_node.Protocol.{MessageRefs}
use logstore_node.Database.Sql.{holds, Engine, Inserts, Select, count-select}
use logstore_node.Database.Sqlite.{
  Row, row_columns, ref_select, query_by_message_refs, store, record_of, same_message_id,
}

ref_select-holds :
    (stream : Text) (p timestamp sequence_number : ℕ) (publisher chain : Text) (payload : List ℕ)
    → holds row_columns
        (ref_select stream (pos p) timestamp sequence_number).condition
        (record_of stream p timestamp sequence_number publisher chain payload)
      ≡ true
unfolding ref_select holds record_of
ref_select-holds stream p timestamp sequence_number publisher chain payload =
    ground (arith, text_beq_iff stream stream)

module _ (engine : Engine Row row_columns) (inserts : Inserts engine same_message_id) where
  open engine use {Table, rows, select}

  select-inserted :
      (t t' : Table) (q : Select) (r : Row)
      → q.limit ≡ none
      → holds row_columns q.condition r ≡ true
      → SameElements (rows t') (r ∷ rows t)
      → SameElements (select t' q) (r ∷ select t q)
  select-inserted t t' q r h k same test =
      count-select engine t' q test h
      ∙ same (λ s. holds row_columns q.condition s && test s)
      ∙ ground (arith, count-select engine t q test h, k)

  -- A message whose id is not in the table is stored, and the query for its reference answers with
  -- its row then, beside the rows that it answered with before. A message whose id is taken is
  -- refused.
  pub store-query_by_message_refs :
      (refs : MessageRefs) (t : Table) (stream : Text) (p : ℕ) (ref : refs.Ref)
      (publisher chain : Text) (payload : List ℕ)
      → let r =
          record_of stream p
            (refs.timestamp ref)
            (refs.sequence_number ref)
            publisher
            chain
            payload in
        (any (same_message_id r) (rows t) ≡ false
          → (t' : Table) × (store engine inserts t r ≡ some (t', payload))
            × SameElements
                (query_by_message_refs engine refs t' stream (pos p) (ref ∷ []))
                (r ∷ query_by_message_refs engine refs t stream (pos p) (ref ∷ [])))
        × (any (same_message_id r) (rows t) ≡ true → store engine inserts t r ≡ none)
  unfolding query_by_message_refs ref_select store record_of
  store-query_by_message_refs refs t stream p ref publisher chain payload =
      let t0 = refs.timestamp ref in
      let s0 = refs.sequence_number ref in
      let q = ref_select stream (pos p) t0 s0 in
      let r = record_of stream p t0 s0 publisher chain payload in
      (
        λ fresh.
            let (t', stored, same) = inserts.insert-fresh t r fresh in
            (
              t',
              rw (store, stored) refl,
              λ test.
                  ap (count test) (append-nil (select t' q))
                  ∙ select-inserted t t' q r refl
                      (ref_select-holds stream p t0 s0 publisher chain payload) same test
                  ∙ ap (λ rs. count test (r ∷ rs)) (sym (append-nil (select t q))),
            ),
        λ taken. rw (store, inserts.insert-taken t r taken) refl,
      )
