-- ===== src/Base/Sorted.antt =====
-- Sorted lists and reversals.
use Prim.Native.Nat.{ℕ, zero, suc, ◌-◌, ◌≤◌}
use mathlib.Core.Path.{◌≡◌, refl, sym, ap, ◌∙◌}
use mathlib.Core.Bool.{Bool, true}
use mathlib.Core.List.{List, [], ◌∷◌, ◌++◌, reverse, reverse-append}
use native.Mathlib.Omega.{arith}
use logstore_node.Base.Lists.{
  length, take, drop, count, All, All-append, count-append, length-append,
}

-- Every element comes before every later one, or beside it.
abbrev pub IsSorted {ℓ} : {A : Type ℓ} → (A → A → Bool) → List A → Type 0
IsSorted le [] = Unit
IsSorted le (x ∷ xs) = All (λ y. le x y ≡ true) xs × IsSorted le xs

module _ {ℓ} {A : Type ℓ} where
  pub length-reverse : (xs : List A) → length (reverse xs) ≡ length xs
  length-reverse [] = refl
  length-reverse (x ∷ xs) =
      ap length (reverse-append (x ∷ []) xs)
      ∙ omega (arith, length-append (reverse xs) (x ∷ []), length-reverse xs)

  drop-append : (n : ℕ) (xs ys : List A) → n ≤ length xs → drop n (xs ++ ys) ≡ drop n xs ++ ys
  drop-append zero xs ys h = refl
  drop-append (suc n) [] ys h = absurd (omega arith)
  drop-append (suc n) (x ∷ xs) ys h = drop-append n xs ys (omega arith)

  pub drop_all : (n : ℕ) (xs : List A) → length xs ≤ n → drop n xs ≡ []
  drop_all zero [] h = refl
  drop_all zero (x ∷ xs) h = absurd (omega arith)
  drop_all (suc n) [] h = refl
  drop_all (suc n) (x ∷ xs) h = drop_all n xs (omega arith)

  -- The first elements backwards are the last of the reversal.
  pub reverse-take : (n : ℕ) (xs : List A) → reverse (take n xs) ≡ drop (length xs - n) (reverse xs)
  reverse-take zero xs =
      sym (drop_all (length xs - 0) (reverse xs) (omega (arith, length-reverse xs)))
  reverse-take (suc n) [] = sym (drop_all (0 - suc n) [] (omega arith))
  reverse-take (suc n) (x ∷ xs) =
      let m = length xs - n in
      let same : suc (length xs) - suc n ≡ m = omega arith in
      reverse-append (x ∷ []) (take n xs)
      ∙ ap (λ ys. ys ++ x ∷ []) (reverse-take n xs)
      ∙ sym (drop-append m (reverse xs) (x ∷ []) (omega (arith, length-reverse xs)))
      ∙ sym (ap (drop m) (reverse-append (x ∷ []) xs))
      ∙ ap (λ k. drop k (reverse (x ∷ xs))) (sym same)

  pub count-reverse : (p : A → Bool) (xs : List A) → count p (reverse xs) ≡ count p xs
  count-reverse p [] = refl
  count-reverse p (x ∷ xs) =
      ap (count p) (reverse-append (x ∷ []) xs)
      ∙ ground (arith, count-append p (reverse xs) (x ∷ []), count-reverse p xs)

  IsSorted-snoc :
      (le : A → A → Bool) (xs : List A) (x : A)
      → IsSorted le xs
      → All (λ y. le y x ≡ true) xs
      → IsSorted le (xs ++ x ∷ [])
  IsSorted-snoc le [] x s h = (tt, tt)
  IsSorted-snoc le (y ∷ ys) x s h =
      (All-append (λ z. le y z ≡ true) ys (x ∷ []) s.0 (h.0, tt), IsSorted-snoc le ys x s.1 h.1)

  All-reverse {κ} : (P : A → Type κ) (xs : List A) → All P xs → All P (reverse xs)
  All-reverse P [] h = tt
  All-reverse P (x ∷ xs) h =
      rw (reverse-append (x ∷ []) xs)
        (All-append P (reverse xs) (x ∷ []) (All-reverse P xs h.1) (h.0, tt))

  -- A sorted list backwards is sorted the other way.
  pub IsSorted-reverse :
      (le : A → A → Bool) (xs : List A) → IsSorted le xs → IsSorted (λ a b. le b a) (reverse xs)
  IsSorted-reverse le [] s = tt
  IsSorted-reverse le (x ∷ xs) s = rw (reverse-append (x ∷ []) xs) (
      IsSorted-snoc (λ a b. le b a) (reverse xs) x (IsSorted-reverse le xs s.1)
        (All-reverse (λ y. le x y ≡ true) xs s.0))
