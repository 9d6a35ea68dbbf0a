-- ===== src/Database/Sqlite/Ranges.antt =====
-- The rows that a range query answers with.
use logstore_node.Base.{
  ℕ, ◌≤◌, ◌≡◌, refl, ap, ◌∙◌, Bool, true, ◌&&◌, ◌||◌, Option, none, some, List, [], ◌∷◌, arith, ℤ,
  pos, negsuc, leb_int, ltb_int, eq_int, filter, count, IsSorted, SameElements, Text, ◌===◌,
  text_eq, All, All-map, filter-filter_of_All,
}
use logstore_node.Database.{RangeQuery, max_sequence_number_value}
use logstore_node.Database.Sql.{
  holds, ts, publisher_id, msg_chain_id, sequence_no, in_order, Engine, limited,
}
use logstore_node.Database.Sqlite.{
  Row, row_columns, temporal_condition_slices, range_select, query_range, truthy_limit, in_stream,
  text_if_truthy,
}

-- The order of pairs of a timestamp and a sequence number.
abbrev pub lex_leb : ℤ → ℤ → ℤ → ℤ → Bool
lex_leb t s t' s' = ltb_int t t' || (eq_int t t' && leb_int s s')

-- The interval from one pair to another, both ends included.
abbrev pub is_within : (from_ts from_seq to_ts to_seq : ℤ) → ℕ → ℕ → Bool
is_within from_ts from_seq to_ts to_seq t s =
    lex_leb from_ts from_seq (pos t) (pos s) && lex_leb (pos t) (pos s) to_ts to_seq

temporal_condition_slices-holds :
    (a b c d : ℤ) (r : Row)
    → leb_int a c ≡ true
    → r.sequence_no ≤ max_sequence_number_value
    → holds row_columns (temporal_condition_slices a b c d) r ≡ is_within a b c d r.ts r.sequence_no
unfolding temporal_condition_slices holds
temporal_condition_slices-holds (pos a) (pos b) (pos c) (pos d) r h k = ground arith
temporal_condition_slices-holds (pos a) (pos b) (pos c) (negsuc d) r h k = ground arith
temporal_condition_slices-holds (pos a) (pos b) (negsuc c) d r h k = ground arith
temporal_condition_slices-holds (pos a) (negsuc b) (pos c) (pos d) r h k = ground arith
temporal_condition_slices-holds (pos a) (negsuc b) (pos c) (negsuc d) r h k = ground arith
temporal_condition_slices-holds (pos a) (negsuc b) (negsuc c) d r h k = ground arith
temporal_condition_slices-holds (negsuc a) b c d r h k = ground arith

-- A string that is left out, or empty, asks for nothing.
abbrev pub is_wanted : Option Text → Text → Bool
is_wanted none t = true
is_wanted (some []) t = true
is_wanted (some (x ∷ xs)) t = t === (x ∷ xs)

-- What a range query asks for.
abbrev pub is_asked : RangeQuery → Row → Bool
is_asked q r =
    (r.stream_id === q.stream_id && eq_int (pos r.partition) q.partition)
    && (is_within q.from_timestamp q.from_sequence_no q.to_timestamp q.to_sequence_no r.ts
          r.sequence_no
        && (is_wanted q.publisher_id r.publisher_id && is_wanted q.msg_chain_id r.msg_chain_id))

text_if_truthy-holds :
    (o : Option Text) (r : Row)
    → (holds row_columns (text_if_truthy publisher_id o) r ≡ is_wanted o r.publisher_id)
      × (holds row_columns (text_if_truthy msg_chain_id o) r ≡ is_wanted o r.msg_chain_id)
unfolding holds
text_if_truthy-holds none r = (refl, refl)
text_if_truthy-holds (some []) r = (refl, refl)
text_if_truthy-holds (some (x ∷ xs)) r = (refl, refl)

pub in_stream-holds :
    (stream : Text) (p : ℤ) (r : Row)
    → holds row_columns (in_stream stream p) r
      ≡ (r.stream_id === stream && eq_int (pos r.partition) p)
unfolding holds
in_stream-holds stream p r = ground arith

range_select-holds :
    (q : RangeQuery) (r : Row)
    → leb_int q.from_timestamp q.to_timestamp ≡ true
    → r.sequence_no ≤ max_sequence_number_value
    → holds row_columns (range_select q).condition r ≡ is_asked q r
unfolding range_select holds
range_select-holds q r h k =
    rw
      (
        in_stream-holds q.stream_id q.partition r,
        temporal_condition_slices-holds q.from_timestamp q.from_sequence_no q.to_timestamp
            q.to_sequence_no r h k,
        (text_if_truthy-holds q.publisher_id r).0,
        (text_if_truthy-holds q.msg_chain_id r).1,
      )
      refl

module _ (engine : Engine Row row_columns) where
  open engine use {Table, rows, select}

  -- Where the timestamps of the bounds are in order, and no sequence number is above the greatest,
  -- a range query answers with the rows of the stream partition whose timestamp and sequence number
  -- lie between the bounds, both included, and which have the publisher and the message chain where
  -- these are given and not empty: each as often as it is stored, sorted, and up to the limit.
  pub query_range_lem :
      (t : Table) (q : RangeQuery)
      → leb_int q.from_timestamp q.to_timestamp ≡ true
      → All (λ (r : Row). r.sequence_no ≤ max_sequence_number_value) (rows t)
      → (full : List Row) × IsSorted (in_order row_columns (ts ∷ sequence_no ∷ [])) full
        × SameElements full (filter (is_asked q) (rows t))
        × (query_range engine t q ≡ limited (truthy_limit q.limit) full)
  unfolding query_range range_select
  query_range_lem t q h k =
      let (full, sorted, same, answer) = engine.select-Answers t (range_select q) in
      let asked =
        filter-filter_of_All (holds row_columns (range_select q).condition) (is_asked q) (rows t)
          (All-map (rows t) (λ r b. range_select-holds q r h b) k) in
      (full, sorted, λ p. same p ∙ ap (count p) asked, answer)
