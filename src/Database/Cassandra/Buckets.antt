-- ===== src/Database/Cassandra/Buckets.antt =====
-- The buckets of a range hold the bucket of every timestamp in it.
use logstore_node.Base.{
  ℤ, eq_int, ℕ, ◌≤◌, ◌≡◌, refl, ap, ◌∙◌, fun_ext, some, Bool, true, false, ◌&&◌, ◌||◌, not, List,
  [], ◌∷◌, ◌++◌, arith, pos, ltb, leb, any, any-append, any-filter, any-SameElements, All, Text,
  ◌===◌, ◌==◌, IsSorted, filter, text_eq, take, ◌<◌,
}
use native.Mathlib.Decide.{dec_lt}
use logstore_node.Database.Sql.{
  holds, Engine, any-select, descending, ordered, date_create, both, number_is, greater, at_most,
}
use logstore_node.Database.Cassandra.{
  BucketRow, bucket_columns, explicit_first, rest_select, get_buckets_by_timestamp,
}

-- A bucket of a stream's partition with a date, and one with a date after it up to a timestamp.
abbrev pub is_dated : Text → ℤ → ℕ → BucketRow → Bool
is_dated stream p date b = (b.stream === stream && eq_int (pos b.part) p) && b.date == date

abbrev pub is_between : Text → ℤ → ℕ → ℕ → BucketRow → Bool
is_between stream p date timestamp b =
    (b.stream === stream && eq_int (pos b.part) p) && (ltb date b.date && leb b.date timestamp)

any-false_of_le :
    {A : Type 0} (p q : A → Bool) (xs : List A)
    → ((x : A) → p x ≡ true → q x ≡ true)
    → any q xs ≡ false
    → any p xs ≡ false
any-false_of_le p q [] h k = refl
any-false_of_le p q (x ∷ xs) h k = ground (arith, h x, any-false_of_le p q xs h)

dated-le :
    (date : ℕ) (y : BucketRow) (ys : List BucketRow)
    → All (λ x. ordered bucket_columns (date_create ∷ []) descending y x ≡ true) ys
    → any (λ (x : BucketRow). x.date == date) ys ≡ true
    → date ≤ y.date
dated-le date y [] h k = ground arith
dated-le date y (x ∷ xs) h k = ground (arith, h.0, dated-le date y xs h.1)

any-le :
    {A : Type 0} (p q : A → Bool) (xs : List A)
    → ((x : A) → p x ≡ true → q x ≡ true)
    → any p xs ≡ true
    → any q xs ≡ true
any-le p q [] h k = k
any-le p q (x ∷ xs) h k = ground (arith, h x, any-le p q xs h)

is_dated-le :
    (stream : Text) (p : ℤ) (date : ℕ) (x : BucketRow)
    → is_dated stream p date x ≡ true
    → (x.date == date) ≡ true
is_dated-le stream p date x h = ground arith

dated-le_head :
    (stream : Text) (p : ℤ) (date : ℕ) (y : BucketRow) (ys : List BucketRow)
    → All (λ x. ordered bucket_columns (date_create ∷ []) descending y x ≡ true) ys
    → any (is_dated stream p date) (y ∷ ys) ≡ true
    → date ≤ y.date
dated-le_head stream p date y ys h k = ground (
  arith,
  dated-le date y ys h,
  any-le (is_dated stream p date) (λ x. x.date == date) ys (is_dated-le stream p date),
)

or-false : (a b : Bool) → (a || b) ≡ false → (a ≡ false) × (b ≡ false)
or-false a b h = (ground (arith, h), ground (arith, h))

not-false : (a : Bool) → not a ≡ false → a ≡ true
not-false a h = ground (arith, h)

not-and : (b : Bool) → (b && not b) ≡ false
not-and b = ground arith

any-never : {A : Type 0} (p : A → Bool) (xs : List A) → ((x : A) → p x ≡ false) → any p xs ≡ false
any-never p [] h = refl
any-never p (x ∷ xs) h = ground (arith, h x, any-never p xs h)

-- Of rows that pass a condition none fails it.
any-fails :
    {A : Type 0} (p : A → Bool) (full rows : List A)
    → ((f : A → Bool) → any f full ≡ any f (filter p rows))
    → any (λ x. not (p x)) full ≡ false
any-fails p full rows same =
    same (λ x. not (p x))
    ∙ any-filter (λ x. not (p x)) p rows
    ∙ any-never (λ x. p x && not (p x)) rows (λ x. not-and (p x))

-- The first of the buckets not after a timestamp, the latest first.
head-dated :
    (stream : Text) (p : ℤ) (date from : ℕ) (y : BucketRow) (ys : List BucketRow)
    → date ≤ y.date
    → holds bucket_columns (explicit_first stream p (pos from)).condition y ≡ true
    → is_between stream p date from y ≡ false
    → is_dated stream p date y ≡ true
unfolding explicit_first holds
head-dated stream p date from y ys h k l = ground arith

passes_dated :
    (stream : Text) (p : ℤ) (date from : ℕ)
    → date ≤ from
    → (x : BucketRow)
    → (holds bucket_columns (explicit_first stream p (pos from)).condition x
        && is_dated stream p date x)
      ≡ is_dated stream p date x
unfolding explicit_first holds
passes_dated stream p date from h x = ground arith

passes_rest :
    (stream : Text) (p : ℤ) (date from to : ℕ)
    → from < date
    → date ≤ to
    → (x : BucketRow)
    → (holds bucket_columns
          (rest_select stream p (
            both
              (number_is date_create greater (pos from))
              (number_is date_create at_most (pos to)))).condition
          x
        && is_dated stream p date x)
      ≡ is_dated stream p date x
unfolding rest_select holds
passes_rest stream p date from to h k x = ground arith

first-dated :
    (stream : Text) (p : ℤ) (date from : ℕ) (rows full : List BucketRow)
    → date ≤ from
    → IsSorted (ordered bucket_columns (date_create ∷ []) descending) full
    → ((f : BucketRow → Bool)
        → any f full
          ≡ any f
              (filter (holds bucket_columns (explicit_first stream p (pos from)).condition) rows))
    → any (is_dated stream p date) rows ≡ true
    → any (is_between stream p date from) rows ≡ false
    → any (is_dated stream p date) (take 1 full) ≡ true
first-dated stream p date from rows full h sorted same dated between =
    let passed = holds bucket_columns (explicit_first stream p (pos from)).condition in
    let there : any (is_dated stream p date) full ≡ true =
      same (is_dated stream p date)
      ∙ any-filter (is_dated stream p date) passed rows
      ∙ ap (λ f. any f rows) (fun_ext (passes_dated stream p date from h))
      ∙ dated in
    let not_between : any (is_between stream p date from) full ≡ false =
      same (is_between stream p date from)
      ∙ any-filter (is_between stream p date from) passed rows
      ∙ any-false_of_le (λ x. passed x && is_between stream p date from x)
          (is_between stream p date from) rows (λ x k. ground (arith, k)) between in
    go full sorted there not_between (any-fails passed full rows same)
  where
    go :
        (full : List BucketRow)
        → IsSorted (ordered bucket_columns (date_create ∷ []) descending) full
        → any (is_dated stream p date) full ≡ true
        → any (is_between stream p date from) full ≡ false
        → any
            (λ x. not (holds bucket_columns (explicit_first stream p (pos from)).condition x))
            full
          ≡ false
        → any (is_dated stream p date) (take 1 full) ≡ true
    go [] s a b c = a
    go (y ∷ ys) s a b c =
        let fails =
          or-false (not (holds bucket_columns (explicit_first stream p (pos from)).condition y)) _
            c in
        ground (
          arith,
          head-dated stream p date from y ys (dated-le_head stream p date y ys s.0 a)
              (not-false _ fails.0)
              (or-false (is_between stream p date from y) (any (is_between stream p date from) ys)
                b).0,
        )

-- The bucket of a timestamp, the latest that is not after it, is among those of every range that
-- holds the timestamp, whether it was created within the range or before it.
pub get_buckets_by_timestamp-is_dated :
    (buckets : Engine BucketRow bucket_columns) (t : buckets.Table) (stream : Text) (p : ℤ)
    (date timestamp from to : ℕ)
    → date ≤ timestamp
    → from ≤ timestamp
    → timestamp ≤ to
    → any (is_dated stream p date) (buckets.rows t) ≡ true
    → any (is_between stream p date timestamp) (buckets.rows t) ≡ false
    → (found : List BucketRow) × (get_buckets_by_timestamp buckets t stream p
          (some (pos from))
          (some (pos to))
        ≡ some found)
      × (any (is_dated stream p date) found ≡ true)
unfolding get_buckets_by_timestamp explicit_first rest_select
get_buckets_by_timestamp-is_dated buckets t stream p date timestamp from to h k l dated between =
    let test = is_dated stream p date in
    let early = buckets.select t (explicit_first stream p (pos from)) in
    let dates =
      both (number_is date_create greater (pos from)) (number_is date_create at_most (pos to)) in
    let rest = buckets.select t (rest_select stream p dates) in
    let found : (any test rest || any test early) ≡ true = elim (dec_lt from date) [
      | yes late ↦
          let in_rest : any test rest ≡ true =
            any-select buckets t (rest_select stream p dates) test refl
            ∙ ap (λ f. any f (buckets.rows t))
                (fun_ext (passes_rest stream p date from to late (omega arith)))
            ∙ dated in
          ground (arith, in_rest)
      | no not_late ↦
          let (full, sorted, same, answer) =
            buckets.select-Answers t (explicit_first stream p (pos from)) in
          let in_early : any test early ≡ true =
            ap (any test) answer
            ∙ first-dated stream p date from (buckets.rows t) full (omega arith) sorted
                (λ f. any-SameElements f full _ same) dated
                (any-false_of_le (is_between stream p date from)
                  (is_between stream p date timestamp) (buckets.rows t) (λ x e. ground (arith, e))
                  between) in
          ground (arith, in_early)
    ] in
    (rest ++ early, refl, any-append test rest early ∙ found)
