-- ===== src/Tests/Engines.antt =====
-- A database that keeps its rows in a list, sorts a selection by insertion, and refuses a taken key.
use logstore_node.Base.{
  ◌≡◌, refl, ap, ◌∙◌, Bool, true, false, Option, none, some, List, [], ◌∷◌, if◌then◌else◌, arith,
  filter, any, count, All, All-map, SameElements, IsSorted, Bool-cases, inl, inr, some,
}
use logstore_node.Database.Sql.{
  Columns, NumberColumn, Direction, ascending, descending, Select, Engine, Inserts, holds, in_order,
  ordered, limited, Answers,
}

module _ {A : Type 0} (le : A → A → Bool) where
  unfoldable pub insert_sorted : A → List A → List A
  insert_sorted x [] = x ∷ []
  insert_sorted x (y ∷ ys) = if le x y then x ∷ y ∷ ys else y ∷ insert_sorted x ys

  unfoldable pub sort : List A → List A
  unfolding insert_sorted
  sort [] = []
  sort (x ∷ xs) = insert_sorted x (sort xs)

  pub count-insert_sorted :
      (p : A → Bool) (x : A) (ys : List A) → count p (insert_sorted x ys) ≡ count p (x ∷ ys)
  unfolding insert_sorted
  count-insert_sorted p x [] = refl
  count-insert_sorted p x (y ∷ ys) = ground (arith, count-insert_sorted p x ys)

  pub sort-SameElements : (xs : List A) → SameElements (sort xs) xs
  unfolding sort
  sort-SameElements [] p = refl
  sort-SameElements (x ∷ xs) p =
      count-insert_sorted p x (sort xs) ∙ ground (arith, sort-SameElements xs p)

  module _ (total : (a b : A) → le a b ≡ false → le b a ≡ true)
      (trans : (a b c : A) → le a b ≡ true → le b c ≡ true → le a c ≡ true) where
    All-insert_sorted :
        (z x : A) (ys : List A)
        → le z x ≡ true
        → All (λ y. le z y ≡ true) ys
        → All (λ y. le z y ≡ true) (insert_sorted x ys)
    unfolding insert_sorted
    All-insert_sorted z x [] h k = (h, tt)
    All-insert_sorted z x (y ∷ ys) h k = elim (Bool-cases (le x y)) [
      | inl before ↦ rw (before) (h, k)
      | inr after ↦ rw (after) (k.0, All-insert_sorted z x ys h k.1)
    ]

    pub insert_sorted-IsSorted :
        (x : A) (ys : List A) → IsSorted le ys → IsSorted le (insert_sorted x ys)
    unfolding insert_sorted
    insert_sorted-IsSorted x [] h = (tt, tt)
    insert_sorted-IsSorted x (y ∷ ys) h = elim (Bool-cases (le x y)) [
      | inl before ↦ rw (before) ((before, All-map ys (λ z k. trans x y z before k) h.0), h)
      | inr after ↦
          rw (after)
            (All-insert_sorted y x ys (total x y after) h.0, insert_sorted-IsSorted x ys h.1)
    ]

    pub sort-IsSorted : (xs : List A) → IsSorted le (sort xs)
    unfolding sort
    sort-IsSorted [] = tt
    sort-IsSorted (x ∷ xs) = insert_sorted-IsSorted x (sort xs) (sort-IsSorted xs)

module _ {R : Type 0} (columns : Columns R) where
  in_order_total :
      (cs : List NumberColumn) (a b : R)
      → in_order columns cs a b ≡ false
      → in_order columns cs b a ≡ true
  in_order_total [] a b h = refl
  in_order_total (c ∷ cs) a b h = ground (arith, in_order_total cs a b)

  in_order_trans :
      (cs : List NumberColumn) (a b c : R)
      → in_order columns cs a b ≡ true
      → in_order columns cs b c ≡ true
      → in_order columns cs a c ≡ true
  in_order_trans [] a b c h k = refl
  in_order_trans (n ∷ cs) a b c h k = ground (arith, in_order_trans cs a b c)

  ordered_total :
      (cs : List NumberColumn) (d : Direction) (a b : R)
      → ordered columns cs d a b ≡ false
      → ordered columns cs d b a ≡ true
  ordered_total cs ascending a b h = in_order_total cs a b h
  ordered_total cs descending a b h = in_order_total cs b a h

  ordered_trans :
      (cs : List NumberColumn) (d : Direction) (a b c : R)
      → ordered columns cs d a b ≡ true
      → ordered columns cs d b c ≡ true
      → ordered columns cs d a c ≡ true
  ordered_trans cs ascending a b c h k = in_order_trans cs a b c h k
  ordered_trans cs descending a b c h k = in_order_trans cs c b a k h

  unfoldable pub list_select : List R → Select → List R
  unfolding sort
  list_select t q =
      limited q.limit
        (sort (ordered columns q.order_by q.direction) (filter (holds columns q.condition) t))

  pub list_select-Answers : (t : List R) (q : Select) → Answers columns t q (list_select t q)
  unfolding list_select
  list_select-Answers t q =
      let le = ordered columns q.order_by q.direction in
      let passed = filter (holds columns q.condition) t in
      (
        sort le passed,
        sort-IsSorted le (ordered_total q.order_by q.direction)
            (ordered_trans q.order_by q.direction) passed,
        sort-SameElements le passed,
        refl,
      )

  abbrev pub list_engine : Engine R columns
  list_engine = record {
    Table = List R;
    rows = λ t. t;
    select = list_select;
    select-Answers = list_select-Answers;
  }

  module _ (same_key : R → R → Bool) where
    abbrev pub list_insert : List R → R → Option (List R)
    list_insert t r = if any (same_key r) t then none else some (r ∷ t)

    pub list_insert-fresh :
        (t : List R) (r : R)
        → any (same_key r) t ≡ false
        → (t' : List R) × (list_insert t r ≡ some t') × SameElements t' (r ∷ t)
    list_insert-fresh t r h = (r ∷ t, rw (h) refl, λ p. refl)

    abbrev pub list_inserts : Inserts list_engine same_key
    list_inserts = record {
      insert = list_insert;
      insert-taken = λ t r h. ap (λ c. if c then none else some (r ∷ t)) h;
      insert-fresh = list_insert-fresh;
    }
