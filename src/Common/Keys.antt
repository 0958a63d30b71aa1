-- ===== src/Common/Keys.antt =====
-- Keys of dictionaries: a Boolean equality with its meaning, as an interface with two instances.
use Prim.Native.Nat.{ℕ}
use Prim.Native.String.{String}
use mathlib.Core.Path.{◌≡◌, refl}
use mathlib.Core.Logic.{◌↔◌}
use mathlib.Core.Bool.{Bool, true, false, ◌||◌}
use mathlib.Core.List.{List, [], ◌∷◌}
use text.Mathlib.Text.{◌==◌ as text_eq}
use text.Mathlib.TextEquality.{eq_iff}
use amr_warehouse_navigation.Common.Tests.{nat_eq, nat_eq_iff}

pub record Key {ℓ} (K : Type ℓ) : Type ℓ where
  pub same : K → K → Bool
  pub same_iff : (a b : K) → (same a b ≡ true) ↔ (a ≡ b)

infix 50 ◌==◌
abbrev pub ◌==◌ {ℓ} : {K : Type ℓ} ⦃k : Key K⦄ → K → K → Bool
◌==◌ ⦃k⦄ = k.same

instance abbrev pub nat_key : Key ℕ
nat_key = record { same = nat_eq; same_iff = nat_eq_iff }

instance abbrev pub string_key : Key String
string_key = record { same = text_eq; same_iff = eq_iff }

module _ {ℓ} {K : Type ℓ} ⦃k : Key K⦄ where
  -- Python's `x in xs`.
  abbrev pub contains : List K → K → Bool
  contains [] x = false
  contains (y ∷ ys) x = (x == y) || contains ys x

  pub same_refl : (a : K) → (a == a) ≡ true
  same_refl a = (k.same_iff a a).1 refl
