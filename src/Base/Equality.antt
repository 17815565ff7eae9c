-- ===== src/Base/Equality.antt =====
-- Go's `==` on texts and on pairs of texts, as an interface with its law.
use Prim.Native.String.{compare, String}
use mathlib.Core.Path.{◌≡◌, refl}
use mathlib.Core.Logic.{◌↔◌}
use mathlib.Core.Bool.{Bool, true, ◌&&◌}
use native.Mathlib.Omega.{arith}
use text.Mathlib.Text.{is_eq}
use text.Mathlib.TextEquality.{eq_iff}

-- Types whose values `==` compares.
pub record Eq {ℓ} (K : Type ℓ) : Type ℓ where
  pub same : K → K → Bool
  pub same_iff : (k j : K) → (same k j ≡ true) ↔ (k ≡ j)

abbrev pub both_eq : String × String → String × String → Bool
both_eq (a, b) (c, d) = is_eq (compare a c) && is_eq (compare b d)

pub both_eq_iff : (p q : String × String) → (both_eq p q ≡ true) ↔ (p ≡ q)
both_eq_iff (a, b) (c, d) =
    (λ h. ground (arith, eq_iff a c, eq_iff b d), λ h. ground (arith, eq_iff a c, eq_iff b d))

instance abbrev pub pair_eq : Eq (String × String)
pair_eq = record { same = both_eq; same_iff = both_eq_iff }

instance abbrev pub string_eq : Eq String
string_eq = record { same = λ a b. is_eq (compare a b); same_iff = eq_iff }

module _ {ℓ} {K : Type ℓ} ⦃e : Eq K⦄ where
  infix 50 ◌==◌
  abbrev pub ◌==◌ : K → K → Bool
  k == j = e.same k j

  -- Equality tests, read as equations.
  pub ==-iff : (k j : K) → ((k == j) ≡ true) ↔ (k ≡ j)
  ==-iff k j = e.same_iff k j

  pub ==-self : (k : K) → (k == k) ≡ true
  ==-self k = (e.same_iff k k).1 refl
