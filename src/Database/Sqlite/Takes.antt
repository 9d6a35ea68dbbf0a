-- ===== src/Database/Sqlite/Takes.antt =====
-- The rows that the queries for the first and the last messages answer with, and a message that is
-- stored and read again.
use logstore_node.Base.{
  eq_int, ℕ, zero, suc, ◌-◌, ◌≡◌, refl, sym, ap, ◌∙◌, fun_ext, Bool, ◌&&◌, List, [], ◌∷◌, arith,
  pos, negsuc, ℤ, filter, count, IsSorted, IsSorted-reverse, reverse-take, length-reverse,
  count-reverse, drop_all, subst, SameElements, Text, ◌===◌, text_eq, take, drop, length, reverse,
}
use logstore_node.Database.Sql.{holds, ts, sequence_no, in_order, Engine, ordered, descending}
use logstore_node.Database.Sqlite.{
  Row, row_columns, in_stream, take_select, request_direction, query_take, query_first, query_last,
  abs,
}
use logstore_node.Database.Sqlite.Ranges.{in_stream-holds}

-- A row of the stream partition.
abbrev pub is_in : Text → ℤ → Row → Bool
is_in stream p r = r.stream_id === stream && eq_int (pos r.partition) p

module _ (engine : Engine Row row_columns) where
  open engine use {Table, rows}

  -- The rows of a stream partition, sorted.
  abbrev pub IsListing : Table → Text → ℤ → List Row → Type 0
  IsListing t stream p full =
      IsSorted (in_order row_columns (ts ∷ sequence_no ∷ [])) full
      × SameElements full (filter (is_in stream p) (rows t))

  in_stream-same :
      (t : Table) (stream : Text) (p : ℤ) (full : List Row)
      → SameElements full (filter (holds row_columns (in_stream stream p)) (rows t))
      → SameElements full (filter (is_in stream p) (rows t))
  in_stream-same t stream p full same test =
      same test ∙ ap (λ f. count test (filter f (rows t))) (fun_ext (in_stream-holds stream p))

  listed_ascending :
      (t : Table) (stream : Text) (p : ℤ) (n : ℕ)
      → (full : List Row) × IsListing t stream p full
        × (query_take engine t stream p (pos (suc n)) ≡ take (suc n) full)
  unfolding query_take take_select
  listed_ascending t stream p n =
      let (full, sorted, same, answer) =
        engine.select-Answers t (take_select stream p (pos (suc n))) in
      (full, (sorted, in_stream-same t stream p full same), answer)

  -- The descending rows backwards.
  listed_descending :
      (t : Table) (stream : Text) (p : ℤ) (k : ℤ)
      → request_direction k ≡ descending
      → (full : List Row) × IsListing t stream p full
        × (reverse (engine.select t (take_select stream p k)) ≡ drop (length full - abs k) full)
  unfolding take_select
  listed_descending t stream p k h =
      let (full, sorted, same, answer) = engine.select-Answers t (take_select stream p k) in
      let backwards : IsSorted (ordered row_columns (ts ∷ sequence_no ∷ []) descending) full =
        subst (λ d. IsSorted (ordered row_columns (ts ∷ sequence_no ∷ []) d) full) h sorted in
      (
        reverse full,
        (
          IsSorted-reverse (λ a b. in_order row_columns (ts ∷ sequence_no ∷ []) b a) full backwards,
          in_stream-same t stream p (reverse full) (λ test. count-reverse test full ∙ same test),
        ),
        ap reverse answer
            ∙ reverse-take (abs k) full
            ∙ ap (λ m. drop (m - abs k) (reverse full)) (sym (length-reverse full)),
      )

  -- The query for the first messages answers with the first of the sorted rows of the stream
  -- partition, and the query for the last with the last of them, in the same order.
  pub query_first-query_last :
      (t : Table) (stream : Text) (p : ℤ) (n : ℕ)
      → ((full : List Row) × IsListing t stream p full
          × (query_first engine t stream p (pos n) ≡ take n full))
        × ((full : List Row) × IsListing t stream p full
            × (query_last engine t stream p (pos n) ≡ drop (length full - n) full))
  unfolding query_first query_last query_take
  query_first-query_last t stream p zero =
      let (full, listing, answer) = listed_descending t stream p (pos zero) refl in
      let empty = drop_all (length full - 0) full (omega arith) in
      ((full, listing, answer ∙ empty), (full, listing, answer))
  query_first-query_last t stream p (suc n) =
      (listed_ascending t stream p n, listed_descending t stream p (negsuc n) refl)
