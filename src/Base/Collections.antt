-- ===== src/Base/Collections.antt =====
-- `Set` and `Map` over elements with an equality test.
use Prim.Native.Nat.{ℕ, ◌+◌}
use mathlib.Core.Path.{◌≡◌, refl, ap, ◌∙◌}
use mathlib.Core.Logic.{inl, inr}
use mathlib.Core.Bool.{Bool, false, not, ◌&&◌, ◌||◌}
use mathlib.Core.Option.{Option, none, some}
use mathlib.Core.List.{List, [], ◌∷◌}
use native.Mathlib.Omega.{arith}
use logstore_node.Base.Tests.{if◌then◌else◌, Eq, ◌===◌, Bool-cases}
use logstore_node.Base.Lists.{filter}

module _ {ℓ} {E : Type ℓ} ⦃e : Eq E⦄ where
  unfoldable pub has : List E → E → Bool
  has [] q = false
  has (x ∷ xs) q = x === q || has xs q

  unfoldable pub add : List E → E → List E
  add [] x = x ∷ []
  add (y ∷ ys) x = if y === x then y ∷ ys else y ∷ add ys x

  unfoldable pub delete : List E → E → List E
  delete [] x = []
  delete (y ∷ ys) x = if y === x then delete ys x else y ∷ delete ys x

  pub has-add : (xs : List E) (x q : E) → has (add xs x) q ≡ (has xs q || x === q)
  unfolding has add
  has-add [] x q = ground arith
  has-add (y ∷ ys) x q = ground (arith, e.beq_iff y x, e.beq_iff x q, e.beq_iff y q, has-add ys x q)

  pub has-delete : (xs : List E) (x q : E) → has (delete xs x) q ≡ (has xs q && not (x === q))
  unfolding has delete
  has-delete [] x q = refl
  has-delete (y ∷ ys) x q =
      ground (arith, e.beq_iff y x, e.beq_iff x q, e.beq_iff y q, has-delete ys x q)

  pub has-filter : (p : E → Bool) (xs : List E) (q : E) → has (filter p xs) q ≡ (has xs q && p q)
  unfolding has
  has-filter p [] q = refl
  has-filter p (x ∷ xs) q = elim (Bool-cases (x === q)) [
    | inl eq ↦ rw ((e.beq_iff x q).0 eq) (ground (arith, has-filter p xs q, e.beq_iff q q))
    | inr ne ↦ ground (arith, ne, has-filter p xs q)
  ]

abbrev pub value_or_zero {ℓ} : {V : Type ℓ} → (V → ℕ) → Option V → ℕ
value_or_zero f none = 0
value_or_zero f (some v) = f v

module _ {ℓ κ} {K : Type ℓ} {V : Type κ} ⦃e : Eq K⦄ where
  unfoldable pub get : List (K × V) → K → Option V
  get [] q = none
  get ((k, v) ∷ m) q = if k === q then some v else get m q

  unfoldable pub put : List (K × V) → K → V → List (K × V)
  put [] k v = (k, v) ∷ []
  put ((j, w) ∷ m) k v = if j === k then (j, v) ∷ m else (j, w) ∷ put m k v

  unfoldable pub delete_key : List (K × V) → K → List (K × V)
  delete_key [] k = []
  delete_key ((j, w) ∷ m) k = if j === k then delete_key m k else (j, w) ∷ delete_key m k

  unfoldable pub has_key : List (K × V) → K → Bool
  has_key [] q = false
  has_key ((k, v) ∷ m) q = k === q || has_key m q

  pub get-put :
      (m : List (K × V)) (k : K) (v : V) (q : K)
      → get (put m k v) q ≡ (if k === q then some v else get m q)
  unfolding get put
  get-put [] k v q = refl
  get-put ((j, w) ∷ m) k v q =
      ground (arith, e.beq_iff j k, e.beq_iff k q, e.beq_iff j q, get-put m k v q)

  pub get-put_self : (m : List (K × V)) (k : K) (v : V) → get (put m k v) k ≡ some v
  get-put_self m k v =
      get-put m k v k ∙ ap (λ c. if c then some v else get m k) ((e.beq_iff k k).1 refl)

  pub get-delete_key :
      (m : List (K × V)) (k q : K) → get (delete_key m k) q ≡ (if k === q then none else get m q)
  unfolding get delete_key
  get-delete_key [] k q = ground arith
  get-delete_key ((j, w) ∷ m) k q =
      ground (arith, e.beq_iff j k, e.beq_iff k q, e.beq_iff j q, get-delete_key m k q)

  -- No key stands twice.
  abbrev pub IsMap : List (K × V) → Type κ
  IsMap [] = Unit
  IsMap ((k, v) ∷ m) = (get m k ≡ none) × IsMap m

  pub put-IsMap : (m : List (K × V)) (k : K) (v : V) → IsMap m → IsMap (put m k v)
  unfolding put get
  put-IsMap [] k v h = (refl, tt)
  put-IsMap ((j, w) ∷ m) k v h =
      ground (arith, e.beq_iff j k, e.beq_iff k j, get-put m k v j, put-IsMap m k v h.1)

  pub delete_key-IsMap : (m : List (K × V)) (k : K) → IsMap m → IsMap (delete_key m k)
  unfolding delete_key
  delete_key-IsMap [] k h = tt
  delete_key-IsMap ((j, w) ∷ m) k h = ground (arith, get-delete_key m k j, delete_key-IsMap m k h.1)

  -- The sum of a measure over the values.
  unfoldable pub total : (V → ℕ) → List (K × V) → ℕ
  total f [] = 0
  total f ((k, v) ∷ m) = f v + total f m

  pub total-put :
      (f : V → ℕ) (m : List (K × V)) (k : K) (v : V)
      → total f (put m k v) + value_or_zero f (get m k) ≡ total f m + f v
  unfolding total put get
  total-put f [] k v = omega arith
  total-put f ((j, w) ∷ m) k v = ground (arith, total-put f m k v)

  delete_key_absent : (m : List (K × V)) (k : K) → get m k ≡ none → delete_key m k ≡ m
  unfolding get delete_key
  delete_key_absent [] k h = refl
  delete_key_absent ((j, w) ∷ m) k h = ground (arith, delete_key_absent m k)

  pub total-delete_key :
      (f : V → ℕ) (m : List (K × V)) (k : K)
      → IsMap m
      → total f (delete_key m k) + value_or_zero f (get m k) ≡ total f m
  unfolding total delete_key get
  total-delete_key f [] k h = omega arith
  total-delete_key f ((j, w) ∷ m) k h =
      ground (
        arith,
        e.beq_iff j k,
        e.beq_iff k j,
        total-delete_key f m k h.1,
        delete_key_absent m k,
        h.0,
      )
