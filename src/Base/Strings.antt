-- ===== src/Base/Strings.antt =====
-- Strings as the lists of their UTF-16 code units.
use Prim.Native.Nat.{ℕ}
use mathlib.Core.Path.{◌≡◌, refl, subst, ap, ◌∙◌}
use mathlib.Core.Logic.{◌↔◌}
use mathlib.Core.Bool.{Bool, true, false, ◌&&◌}
use mathlib.Core.List.{List, [], ◌∷◌}
use native.Mathlib.Omega.{arith}
use logstore_node.Base.Tests.{Eq, ◌==◌}

abbrev pub Text : Type 0
Text = List ℕ

abbrev pub text_beq : Text → Text → Bool
text_beq [] [] = true
text_beq (a ∷ as') (b ∷ bs) = a == b && text_beq as' bs
text_beq _ _ = false

text_beq→eq : (a b : Text) → text_beq a b ≡ true → a ≡ b
text_beq→eq [] [] h = refl
text_beq→eq [] (b ∷ bs) h = ground arith
text_beq→eq (a ∷ as') [] h = ground arith
text_beq→eq (a ∷ as') (b ∷ bs) h = ground (arith, text_beq→eq as' bs)

text_beq_self : (a : Text) → text_beq a a ≡ true
text_beq_self [] = refl
text_beq_self (a ∷ as') = ground (arith, text_beq_self as')

pub text_beq_iff : (a b : Text) → (text_beq a b ≡ true) ↔ (a ≡ b)
text_beq_iff a b = (text_beq→eq a b, λ e. subst (λ c. text_beq a c ≡ true) e (text_beq_self a))

instance abbrev pub text_eq : Eq Text
text_eq = record { beq = text_beq; beq_iff = text_beq_iff }

-- A name with a number, as the parts of a stream have.
pub text_number_iff : (a b : Text × ℕ) → ((text_beq a.0 b.0 && a.1 == b.1) ≡ true) ↔ (a ≡ b)
text_number_iff (s, m) (t, n) = (
  λ h.
      ap (λ x. (x, m)) ((text_beq_iff s t).0 (ground (arith, h)))
      ∙ ap (λ y. (t, y)) (ground (arith, h)),
  λ h. ground (arith, (text_beq_iff s t).1 (ap (λ x. x.0) h), ap (λ (x : Text × ℕ). x.1) h),
)

instance abbrev pub text_number_eq : Eq (Text × ℕ)
text_number_eq = record { beq = λ a b. text_beq a.0 b.0 && a.1 == b.1; beq_iff = text_number_iff }
