-- ===== src/Base/Keys.antt =====
-- Python's `==` on the keys of dicts and sets, as an instance.
use Prim.Native.Nat.{ℕ}
use Prim.Native.String.{String}
use mathlib.Core.Path.{◌≡◌, refl}
use mathlib.Core.Logic.{◌↔◌, ◌≢◌, inl, inr}
use mathlib.Core.Bool.{Bool, true, false, ◌&&◌}
use native.Mathlib.Omega.{arith}
use text.Mathlib.Text.{◌==◌ as str_eq}
use text.Mathlib.TextEquality.{eq_iff}
use agenyx.Base.Tests.{nat_beq, nat_beq_iff, Bool-cases}

-- What a dict asks of its keys: `__eq__` decides equality.
pub record Hashable {ℓ} (K : Type ℓ) : Type ℓ where
  pub equals : K → K → Bool
  pub equals_iff : (x y : K) → (equals x y ≡ true) ↔ (x ≡ y)

instance abbrev pub string_eq : Hashable String
string_eq = record { equals_iff = eq_iff; equals = str_eq }

instance abbrev pub nat_eq : Hashable ℕ
nat_eq = record { equals_iff = nat_beq_iff; equals = nat_beq }

infix 50 ◌==◌
abbrev pub ◌==◌ {ℓ} : {K : Type ℓ} ⦃h : Hashable K⦄ → K → K → Bool
◌==◌ ⦃h⦄ x y = h.equals x y

module _ {ℓ} {K : Type ℓ} ⦃h : Hashable K⦄ where
  pub ==_iff : (x y : K) → ((x == y) ≡ true) ↔ (x ≡ y)
  ==_iff x y = h.equals_iff x y

  pub ==_refl : (x : K) → (x == x) ≡ true
  ==_refl x = (h.equals_iff x x).1 refl

  pub ==_ne : (x y : K) → x ≢ y → (x == y) ≡ false
  ==_ne x y distinct = elim (Bool-cases (x == y)) [
    | inl same ↦ absurd (distinct ((h.equals_iff x y).0 same))
    | inr differ ↦ differ
  ]

pub pair_iff :
    {K L : Type 0} ⦃h : Hashable K⦄ ⦃g : Hashable L⦄ (x y : K × L)
    → ((x.0 == y.0 && x.1 == y.1) ≡ true) ↔ (x ≡ y)
pair_iff (a, b) (c, d) = ground (arith, ==_iff a c, ==_iff b d)

instance abbrev pub pair_eq : {K L : Type 0} ⦃h : Hashable K⦄ ⦃g : Hashable L⦄ → Hashable (K × L)
pair_eq = record { equals_iff = pair_iff; equals = λ x y. x.0 == y.0 && x.1 == y.1 }
