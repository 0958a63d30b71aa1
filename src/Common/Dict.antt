-- ===== src/Common/Dict.antt =====
-- Python dictionaries as association lists in insertion order, and the same lists as the tables
-- that `INSERT … ON CONFLICT(key) DO UPDATE` writes, keyed by their primary key.
use mathlib.Core.Path.{◌≡◌, refl}
use mathlib.Core.Option.{Option, none, some}
use mathlib.Core.List.{List, [], ◌∷◌}
use native.Mathlib.Omega.{arith}
use amr_warehouse_navigation.Common.Tests.{if◌then◌else◌}
use amr_warehouse_navigation.Common.Keys.{Key, ◌==◌}

abbrev pub Dict {ℓ κ} : Type ℓ → Type κ → Type (ℓ ⊔ κ)
Dict K V = List (K × V)

module _ {ℓ κ} {K : Type ℓ} {V : Type κ} where
  abbrev pub keys : Dict K V → List K
  keys [] = []
  keys ((j, v) ∷ d) = j ∷ keys d

  abbrev pub values : Dict K V → List V
  values [] = []
  values ((j, v) ∷ d) = v ∷ values d

module _ {ℓ κ} {K : Type ℓ} {V : Type κ} ⦃k : Key K⦄ where
  -- `d.get(k)`
  unfoldable pub lookup : K → Dict K V → Option V
  lookup i [] = none
  lookup i ((j, v) ∷ d) = if j == i then some v else lookup i d

  -- `d[k] = v`
  unfoldable pub insert : K → V → Dict K V → Dict K V
  insert i v [] = (i, v) ∷ []
  insert i v ((j, w) ∷ d) = if j == i then (j, v) ∷ d else (j, w) ∷ insert i v d

  pub lookup-insert :
      (i j : K) (v : V) (d : Dict K V)
      → lookup j (insert i v d) ≡ (if i == j then some v else lookup j d)
  unfolding lookup insert
  lookup-insert i j v [] = refl
  lookup-insert i j v ((h, w) ∷ d) =
      ground (arith, k.same_iff i j, k.same_iff h i, k.same_iff h j, lookup-insert i j v d)
