-- ===== src/Database/Sql.antt =====
-- The statements that the database adapters build, and the databases that run them. A database is
-- not in the repository: it is a parameter, with the documented behaviour of a selection and of an
-- insertion under a primary key as its laws.
use logstore_node.Base.{
  ℕ, ◌≡◌, Bool, true, false, ◌&&◌, ◌||◌, Option, none, some, List, [], ◌∷◌, ltb, if◌then◌else◌,
  Text, ◌===◌, text_eq, ℤ, pos, leb_int, ltb_int, eq_int, filter, take, any, SameElements, IsSorted,
  count, count-filter, any-SameElements, any-filter, ap, ◌∙◌,
}

-- The columns that conditions and orders name.
pub data NumberColumn : Type 0 where
  partition ts sequence_no date_create : NumberColumn

pub data TextColumn : Type 0 where
  stream_id publisher_id msg_chain_id bucket_id : TextColumn

-- How a table's rows show their columns.
pub record Columns (R : Type 0) : Type 0 where
  pub number : NumberColumn → R → ℕ
  pub text : TextColumn → R → Text

pub data Comparison : Type 0 where
  equal greater at_least less at_most : Comparison

abbrev pub compares : Comparison → ℤ → ℤ → Bool
compares equal a b = eq_int a b
compares greater a b = ltb_int b a
compares at_least a b = leb_int b a
compares less a b = ltb_int a b
compares at_most a b = leb_int a b

-- A WHERE clause; `always` is an absent one.
pub data Condition : Type 0 where
  always : Condition
  number_is : NumberColumn → Comparison → ℤ → Condition
  text_is : TextColumn → Text → Condition
  text_in : TextColumn → List Text → Condition
  both : Condition → Condition → Condition
  either : Condition → Condition → Condition

pub data Direction : Type 0 where
  ascending descending : Direction

-- The columns of ORDER BY have one direction in every statement.
pub record Select : Type 0 where
  pub condition : Condition
  pub order_by : List NumberColumn
  pub direction : Direction
  pub limit : Option ℕ

abbrev pub limited {ℓ} : {A : Type ℓ} → Option ℕ → List A → List A
limited none xs = xs
limited (some n) xs = take n xs

module _ {R : Type 0} (columns : Columns R) where
  unfoldable pub holds : Condition → R → Bool
  holds always r = true
  holds (number_is c comparison n) r = compares comparison (pos (columns.number c r)) n
  holds (text_is c t) r = columns.text c r === t
  holds (text_in c texts) r = any (λ t. columns.text c r === t) texts
  holds (both c d) r = holds c r && holds d r
  holds (either c d) r = holds c r || holds d r

  -- The order by some columns, ascending.
  abbrev pub in_order : List NumberColumn → R → R → Bool
  in_order [] a b = true
  in_order (c ∷ cs) a b =
      if ltb (columns.number c a) (columns.number c b)
      then true
      else if ltb (columns.number c b) (columns.number c a)
      then false
      else in_order cs a b

  abbrev pub ordered : List NumberColumn → Direction → R → R → Bool
  ordered cs ascending a b = in_order cs a b
  ordered cs descending a b = in_order cs b a

  -- What a selection may answer: the rows that pass the condition, sorted, up to the limit. The
  -- order of rows that are equal in all columns of the order is the database's.
  abbrev pub Answers : List R → Select → List R → Type 0
  Answers rows q answer =
      (full : List R) × IsSorted (ordered q.order_by q.direction) full
      × SameElements full (filter (holds q.condition) rows)
      × (answer ≡ limited q.limit full)

-- A table of a database.
pub record Engine (R : Type 0) (columns : Columns R) : Type 1 where
  pub Table : Type 0
  pub rows : Table → List R
  pub select : Table → Select → List R
  pub select-Answers : (t : Table) (q : Select) → Answers columns (rows t) q (select t q)

-- The insertion of a row. `none` is the error of a row whose primary key is taken.
pub record Inserts {R : Type 0} {columns : Columns R} (engine : Engine R columns)
    (same_key : R → R → Bool) : Type 0 where
  pub insert : engine.Table → R → Option engine.Table
  pub insert-taken :
      (t : engine.Table) (r : R) → any (same_key r) (engine.rows t) ≡ true → insert t r ≡ none
  pub insert-fresh :
      (t : engine.Table) (r : R)
      → any (same_key r) (engine.rows t) ≡ false
      → (t' : engine.Table) × (insert t r ≡ some t')
        × SameElements (engine.rows t') (r ∷ engine.rows t)

-- A selection without a limit answers with the rows that pass, each as often as it is stored.
pub count-select :
    {R : Type 0} {columns : Columns R} (engine : Engine R columns) (t : engine.Table) (q : Select)
    (test : R → Bool)
    → q.limit ≡ none
    → count test (engine.select t q)
      ≡ count (λ r. holds columns q.condition r && test r) (engine.rows t)
count-select {columns} engine t q test h =
    let (full, sorted, same, answer) = engine.select-Answers t q in
    ap (count test) (answer ∙ ap (λ l. limited l full) h)
    ∙ same test
    ∙ count-filter test (holds columns q.condition) (engine.rows t)

pub any-select :
    {R : Type 0} {columns : Columns R} (engine : Engine R columns) (t : engine.Table) (q : Select)
    (test : R → Bool)
    → q.limit ≡ none
    → any test (engine.select t q)
      ≡ any (λ r. holds columns q.condition r && test r) (engine.rows t)
any-select {columns} engine t q test h =
    let (full, sorted, same, answer) = engine.select-Answers t q in
    ap (any test) (answer ∙ ap (λ l. limited l full) h)
    ∙ any-SameElements test full (filter (holds columns q.condition) (engine.rows t)) same
    ∙ any-filter test (holds columns q.condition) (engine.rows t)
