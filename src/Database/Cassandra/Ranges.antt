-- ===== src/Database/Cassandra/Ranges.antt =====
-- The statements of a range together answer with each row of the range once.
use logstore_node.Base.{
  eq_int, ℕ, ◌+◌, ◌≤◌, ◌≡◌, refl, sym, ap, ◌∙◌, fun_ext, Option, some, Bool, true, ◌&&◌, none, List,
  [], ◌∷◌, map, arith, ℤ, pos, negsuc, leb_int, filter, count, count-append, count-filter,
  SameElements, Text, ◌===◌, text_eq, if◌then◌else◌, any, All, All-map,
}
use logstore_node.Database.{RangeQuery, max_sequence_number_value}
use logstore_node.Database.Sql.{Condition, holds, Engine, count-select, publisher_id, msg_chain_id}
use logstore_node.Database.Sqlite.{truthy_limit, text_if_truthy}
use logstore_node.Database.Sqlite.Ranges.{is_within, is_wanted}
use logstore_node.Database.Cassandra.{
  StreamRow, BucketRow, stream_columns, bucket_columns, range_conditions, range_statement,
  range_statements, answers,
}

abbrev one_if : Bool → ℕ
one_if b = if b then 1 else 0

-- How many of the conditions a row passes.
passes : List Condition → StreamRow → ℕ
passes [] r = 0
passes (c ∷ cs) r = one_if (holds stream_columns c r) + passes cs r

-- A row of the interval passes exactly one of the conditions, any other none.
range_conditions-passes :
    (a b c d : ℤ) (r : StreamRow)
    → leb_int a c ≡ true
    → r.record_.sequence_no ≤ max_sequence_number_value
    → passes (range_conditions a b c d) r
      ≡ one_if (is_within a b c d r.record_.timestamp r.record_.sequence_no)
unfolding passes range_conditions holds
range_conditions-passes (pos a) (pos b) (pos c) (pos d) r h k = ground arith
range_conditions-passes (pos a) (pos b) (pos c) (negsuc d) r h k = ground arith
range_conditions-passes (pos a) (pos b) (negsuc c) d r h k = ground arith
range_conditions-passes (pos a) (negsuc b) (pos c) (pos d) r h k = ground arith
range_conditions-passes (pos a) (negsuc b) (pos c) (negsuc d) r h k = ground arith
range_conditions-passes (pos a) (negsuc b) (negsuc c) d r h k = ground arith
range_conditions-passes (negsuc a) b c d r h k = ground arith

-- The sum of a weight over some rows.
weigh : (StreamRow → ℕ) → List StreamRow → ℕ
weigh f [] = 0
weigh f (r ∷ rs) = f r + weigh f rs

weigh-step :
    (c : Condition) (cs : List Condition) (g : StreamRow → Bool) (rows : List StreamRow)
    → weigh (λ r. if g r then passes (c ∷ cs) r else 0) rows
      ≡ count (λ r. holds stream_columns c r && g r) rows
        + weigh (λ r. if g r then passes cs r else 0) rows
unfolding weigh passes
weigh-step c cs g [] = omega arith
weigh-step c cs g (r ∷ rs) = ground (arith, weigh-step c cs g rs)

weigh-zero :
    (g : StreamRow → Bool) (rows : List StreamRow) → weigh (λ r. if g r then 0 else 0) rows ≡ 0
unfolding weigh
weigh-zero g [] = refl
weigh-zero g (r ∷ rs) = ground (arith, weigh-zero g rs)

weigh-count :
    (f : StreamRow → ℕ) (g p : StreamRow → Bool) (rows : List StreamRow)
    → All (λ r. f r ≡ one_if (p r)) rows
    → weigh (λ r. if g r then f r else 0) rows ≡ count (λ r. g r && p r) rows
unfolding weigh
weigh-count f g p [] h = refl
weigh-count f g p (r ∷ rs) h = ground (arith, h.0, weigh-count f g p rs h.1)

-- The stream, the buckets and the options of a range, without its time.
abbrev pub is_about : RangeQuery → List Text → StreamRow → Bool
is_about q ids r =
    ((r.record_.stream_id === q.stream_id && eq_int (pos r.record_.partition) q.partition)
      && any (λ t. r.bucket === t) ids)
    && (is_wanted q.publisher_id r.record_.publisher_id
        && is_wanted q.msg_chain_id r.record_.msg_chain_id)

-- What a range query asks for, in some buckets.
abbrev pub is_asked : RangeQuery → List Text → StreamRow → Bool
is_asked q ids r =
    is_about q ids r
    && is_within q.from_timestamp q.from_sequence_no q.to_timestamp q.to_sequence_no
        r.record_.timestamp r.record_.sequence_no

text_if_truthy-holds :
    (o : Option Text) (r : StreamRow)
    → (holds stream_columns (text_if_truthy publisher_id o) r ≡ is_wanted o r.record_.publisher_id)
      × (holds stream_columns (text_if_truthy msg_chain_id o) r
          ≡ is_wanted o r.record_.msg_chain_id)
unfolding holds
text_if_truthy-holds none r = (refl, refl)
text_if_truthy-holds (some []) r = (refl, refl)
text_if_truthy-holds (some (x ∷ xs)) r = (refl, refl)

range_statement-holds :
    (q : RangeQuery) (ids : List Text) (c : Condition) (r : StreamRow) (test : Bool)
    → (holds stream_columns (range_statement q ids c).condition r && test)
      ≡ (holds stream_columns c r && (is_about q ids r && test))
unfolding range_statement holds
range_statement-holds q ids c r test =
    ground
      (arith, (text_if_truthy-holds q.publisher_id r).0, (text_if_truthy-holds q.msg_chain_id r).1)

and-reorder : (a b c : Bool) → ((a && b) && c) ≡ ((a && c) && b)
and-reorder a b c = ground arith

module _ (buckets : Engine BucketRow bucket_columns)
    (messages : Engine StreamRow stream_columns) where
  open messages use {Table, rows, select}

  selected :
      (t : Table) (q : RangeQuery) (ids : List Text) (test : StreamRow → Bool) (c : Condition)
      → truthy_limit q.limit ≡ none
      → count test (select t (range_statement q ids c))
        ≡ count (λ r. holds stream_columns c r && (is_about q ids r && test r)) (rows t)
  unfolding range_statement
  selected t q ids test c h =
      count-select messages t (range_statement q ids c) test h
      ∙ ap (λ f. count f (rows t)) (fun_ext (λ r. range_statement-holds q ids c r (test r)))

  answers-weigh :
      (t : Table) (q : RangeQuery) (ids : List Text) (test : StreamRow → Bool) (cs : List Condition)
      → truthy_limit q.limit ≡ none
      → count test (answers buckets messages t (map (range_statement q ids) cs))
        ≡ weigh (λ r. if is_about q ids r && test r then passes cs r else 0) (rows t)
  unfolding answers passes
  answers-weigh t q ids test [] h = sym (weigh-zero (λ r. is_about q ids r && test r) (rows t))
  answers-weigh t q ids test (c ∷ cs) h =
      count-append test (select t (range_statement q ids c))
        (answers buckets messages t (map (range_statement q ids) cs))
      ∙ omega (
        arith,
        answers-weigh t q ids test cs h,
        selected t q ids test c h,
        weigh-step c cs (λ r. is_about q ids r && test r) (rows t),
      )

  -- A range of timestamps in order, without a limit: the statements together answer with the rows
  -- of the buckets that the range asks for, each once for each time that it is stored.
  pub answers-range_statements :
      (t : Table) (q : RangeQuery) (ids : List Text)
      → leb_int q.from_timestamp q.to_timestamp ≡ true
      → All (λ (r : StreamRow). r.record_.sequence_no ≤ max_sequence_number_value) (rows t)
      → truthy_limit q.limit ≡ none
      → SameElements
          (answers buckets messages t (range_statements q ids))
          (filter (is_asked q ids) (rows t))
  unfolding range_statements
  answers-range_statements t q ids h k l test =
      let within = λ (r : StreamRow).
        is_within q.from_timestamp q.from_sequence_no q.to_timestamp q.to_sequence_no
          r.record_.timestamp r.record_.sequence_no in
      let conditions =
        range_conditions q.from_timestamp q.from_sequence_no q.to_timestamp q.to_sequence_no in
      answers-weigh t q ids test conditions l
      ∙ weigh-count (passes conditions) (λ r. is_about q ids r && test r) within (rows t)
          (All-map (rows t)
            (λ r b.
              range_conditions-passes q.from_timestamp q.from_sequence_no q.to_timestamp
                q.to_sequence_no r h b)
            k)
      ∙ ap (λ f. count f (rows t))
          (fun_ext (λ r. and-reorder (is_about q ids r) (test r) (within r)))
      ∙ sym (count-filter test (is_asked q ids) (rows t))
