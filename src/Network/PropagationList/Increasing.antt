-- ===== src/Network/PropagationList/Increasing.antt =====
-- Increasing lists of references, membership in them, and the difference of two.
use logstore_node.Base.{
  ℕ, zero, suc, ◌≡◌, refl, Bool, true, false, not, none, some, List, [], ◌∷◌, ◌++◌, remove_at, drop,
  filter, any, All, Option-cases, inl, inr, arith, Bool-cases, All-append, any-append,
}
use logstore_node.Protocol.{MessageRefs, Precedes, compare_to_cases}
use logstore_node.Network.AggregationList.{is_zero}
use logstore_node.Network.PropagationList.{index_of}

module _ (refs : MessageRefs) where
  open refs use {Ref, compare_to}

  -- Whether the list holds a reference that compares as equal.
  abbrev pub holds : List Ref → Ref → Bool
  holds xs r = any (λ x. is_zero (compare_to x r)) xs

  -- The references of the second list that the first does not hold.
  abbrev pub minus : List Ref → List Ref → List Ref
  minus fs ps = filter (λ f. not (holds ps f)) fs

  abbrev pub IsIncreasing : List Ref → Type 0
  IsIncreasing [] = Unit
  IsIncreasing (x ∷ xs) = All (Precedes refs x) xs × IsIncreasing xs

  -- All of the list comes before the reference.
  abbrev pub Ends : List Ref → Ref → Type 0
  Ends xs r = All (λ x. Precedes refs x r) xs

  pub Ends-holds : (xs : List Ref) (q r : Ref) → Ends xs r → holds xs q ≡ true → Precedes refs q r
  Ends-holds [] q r e h = cc
  Ends-holds (x ∷ xs) q r e h = ground (arith, compare_to_cases refs x q, Ends-holds xs q r e.1)

  pub Ends-of_holds :
      (xs ps : List Ref) (r : Ref)
      → ((q : Ref) → holds xs q ≡ true → holds ps q ≡ true)
      → Ends ps r
      → Ends xs r
  Ends-of_holds [] ps r sub e = tt
  Ends-of_holds (x ∷ xs) ps r sub e = (
    Ends-holds ps x r e (sub x (ground (arith, compare_to_cases refs x x))),
    Ends-of_holds xs ps r (λ q h. sub q (ground arith)) e,
  )

  pub All-filter {κ} :
      (P : Ref → Type κ) (p : Ref → Bool) (xs : List Ref) → All P xs → All P (filter p xs)
  All-filter P p [] h = tt
  All-filter P p (x ∷ xs) h = elim (Bool-cases (p x)) [
    | inl keep ↦ rw keep (h.0, All-filter P p xs h.1)
    | inr skip ↦ rw skip (All-filter P p xs h.1)
  ]

  pub All-append_right {κ} : (P : Ref → Type κ) (xs ys : List Ref) → All P (xs ++ ys) → All P ys
  All-append_right P [] ys h = h
  All-append_right P (x ∷ xs) ys h = All-append_right P xs ys h.1

  pub All-append_left {κ} : (P : Ref → Type κ) (xs ys : List Ref) → All P (xs ++ ys) → All P xs
  All-append_left P [] ys h = tt
  All-append_left P (x ∷ xs) ys h = (h.0, All-append_left P xs ys h.1)

  pub filter-IsIncreasing :
      (p : Ref → Bool) (xs : List Ref) → IsIncreasing xs → IsIncreasing (filter p xs)
  filter-IsIncreasing p [] h = tt
  filter-IsIncreasing p (x ∷ xs) h = elim (Bool-cases (p x)) [
    | inl keep ↦ rw keep (All-filter (Precedes refs x) p xs h.0, filter-IsIncreasing p xs h.1)
    | inr skip ↦ rw skip (filter-IsIncreasing p xs h.1)
  ]

  pub append-IsIncreasing_right : (xs ys : List Ref) → IsIncreasing (xs ++ ys) → IsIncreasing ys
  append-IsIncreasing_right [] ys h = h
  append-IsIncreasing_right (x ∷ xs) ys h = append-IsIncreasing_right xs ys h.1

  pub snoc-IsIncreasing :
      (xs : List Ref) (r : Ref) → IsIncreasing xs → Ends xs r → IsIncreasing (xs ++ r ∷ [])
  snoc-IsIncreasing [] r h e = (tt, tt)
  snoc-IsIncreasing (x ∷ xs) r h e =
      (All-append (Precedes refs x) xs (r ∷ []) h.0 (e.0, tt), snoc-IsIncreasing xs r h.1 e.1)

  -- Removing the matching reference is filtering, in an increasing list.
  pub filter_after :
      (x r : Ref) (xs : List Ref)
      → All (Precedes refs x) xs
      → is_zero (compare_to x r) ≡ true
      → filter (λ f. not (is_zero (compare_to r f))) xs ≡ xs
  filter_after x r [] a h = refl
  filter_after x r (y ∷ ys) a h =
      ground (arith, compare_to_cases refs x r, compare_to_cases refs r y, filter_after x r ys a.1)

  pub remove_at-filter :
      (xs : List Ref) (r : Ref)
      → IsIncreasing xs
      → filter (λ f. not (is_zero (compare_to r f))) xs
        ≡ elim (index_of refs r xs) [ none ↦ xs | some i ↦ remove_at i xs ]
  remove_at-filter [] r h = refl
  remove_at-filter (x ∷ xs) r h = elim (Option-cases (index_of refs r xs)) [
    | inl e ↦ ground (
      arith,
      e,
      compare_to_cases refs x r,
      compare_to_cases refs r x,
      filter_after x r xs h.0,
      remove_at-filter xs r h.1,
    )
    | inr (j, e) ↦ ground (
      arith,
      e,
      compare_to_cases refs x r,
      compare_to_cases refs r x,
      filter_after x r xs h.0,
      remove_at-filter xs r h.1,
    )
  ]

  pub filter-minus :
      (fs ps : List Ref) (r : Ref)
      → minus fs (ps ++ r ∷ []) ≡ filter (λ f. not (is_zero (compare_to r f))) (minus fs ps)
  filter-minus [] ps r = refl
  filter-minus (f ∷ fs) ps r =
      ground (arith, filter-minus fs ps r, any-append (λ x. is_zero (compare_to x f)) ps (r ∷ []))

  pub filter-Ends :
      (xs : List Ref) (r : Ref) → Ends xs r → filter (λ f. not (is_zero (compare_to r f))) xs ≡ xs
  filter-Ends [] r e = refl
  filter-Ends (x ∷ xs) r e = ground (arith, compare_to_cases refs r x, filter-Ends xs r e.1)

  pub holds-index : (xs : List Ref) (r : Ref) → index_of refs r xs ≡ none → holds xs r ≡ false
  holds-index [] r h = refl
  holds-index (x ∷ xs) r h = ground (arith, holds-index xs r)

  pub index-holds :
      (xs : List Ref) (r : Ref) (i : ℕ) → index_of refs r xs ≡ some i → holds xs r ≡ true
  index-holds [] r i h = cc
  index-holds (x ∷ xs) r i h = elim (Option-cases (index_of refs r xs)) [
    | inl e ↦ ground arith
    | inr (j, e) ↦ ground (arith, index-holds xs r j e)
  ]

  pub holds-drop :
      (n : ℕ) (xs : List Ref) (q : Ref) → holds (drop n xs) q ≡ true → holds xs q ≡ true
  holds-drop zero xs q h = h
  holds-drop (suc n) [] q h = h
  holds-drop (suc n) (x ∷ xs) q h = ground (arith, holds-drop n xs q)

  pub drop-IsIncreasing : (n : ℕ) (xs : List Ref) → IsIncreasing xs → IsIncreasing (drop n xs)
  drop-IsIncreasing zero xs h = h
  drop-IsIncreasing (suc n) [] h = h
  drop-IsIncreasing (suc n) (x ∷ xs) h = drop-IsIncreasing n xs h.1

  starts-holds :
      (x r : Ref) (xs : List Ref) → All (Precedes refs x) xs → holds xs r ≡ true → Precedes refs x r
  starts-holds x r [] a h = cc
  starts-holds x r (y ∷ ys) a h = ground (arith, compare_to_cases refs y r, starts-holds x r ys a.1)

  -- What stands after a matching reference stays when the list is cut up to the match.
  pub holds-drop_after :
      (xs : List Ref) (r q : Ref) (i : ℕ)
      → index_of refs r xs ≡ some i
      → Precedes refs r q
      → IsIncreasing xs
      → holds xs q ≡ true
      → holds (drop (suc i) xs) q ≡ true
  holds-drop_after [] r q i e p inc h = cc
  holds-drop_after (x ∷ xs) r q i e p inc h = elim (Option-cases (index_of refs r xs)) [
    | inl miss ↦ ground (arith, miss, compare_to_cases refs x r, compare_to_cases refs x q)
    | inr (j, hit) ↦ ground (
      arith,
      hit,
      compare_to_cases refs x r,
      compare_to_cases refs x q,
      starts-holds x r xs inc.0 (index-holds xs r j hit),
      holds-drop_after xs r q j hit p inc.1,
    )
  ]
