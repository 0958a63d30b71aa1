-- ===== src/Common/Order.antt =====
-- Python's `sorted`: a stable insertion sort by a total order, and the order of texts.
use Prim.Native.Nat.{ℕ}
use Prim.Native.Char.{code}
use Prim.Native.String.{String}
use mathlib.Core.Path.{◌≡◌, refl}
use mathlib.Core.Logic.{◌⊎◌, inl, inr}
use mathlib.Core.Bool.{Bool, true, false}
use mathlib.Core.List.{List, [], ◌∷◌}
use native.Mathlib.Omega.{arith}
use amr_warehouse_navigation.Common.Tests.{ltb, nat_eq, if◌then◌else◌, Bool-cases}
use amr_warehouse_navigation.Common.Lists.{All, In}

-- The code points of a text.
abbrev pub codes : String → List ℕ
codes String.[] = []
codes (String.◌∷◌ c s) = code c ∷ codes s

unfoldable pub lex_leb : List ℕ → List ℕ → Bool
lex_leb [] ys = true
lex_leb (x ∷ xs) [] = false
lex_leb (x ∷ xs) (y ∷ ys) = if nat_eq x y then lex_leb xs ys else ltb x y

-- Python compares texts by code points.
unfoldable pub text_leb : String → String → Bool
unfolding lex_leb
text_leb s t = lex_leb (codes s) (codes t)

lex_leb-total : (xs ys : List ℕ) → (lex_leb xs ys ≡ true) ⊎ (lex_leb ys xs ≡ true)
unfolding lex_leb
lex_leb-total [] ys = inl refl
lex_leb-total (x ∷ xs) [] = inr refl
lex_leb-total (x ∷ xs) (y ∷ ys) = ground (arith, lex_leb-total xs ys)

lex_leb_trans :
    (xs ys zs : List ℕ) → lex_leb xs ys ≡ true → lex_leb ys zs ≡ true → lex_leb xs zs ≡ true
unfolding lex_leb
lex_leb_trans [] ys zs p q = refl
lex_leb_trans (x ∷ xs) [] zs p q = ground arith
lex_leb_trans (x ∷ xs) (y ∷ ys) [] p q = ground arith
lex_leb_trans (x ∷ xs) (y ∷ ys) (z ∷ zs) p q = ground (arith, lex_leb_trans xs ys zs)

pub text_leb-total : (s t : String) → (text_leb s t ≡ true) ⊎ (text_leb t s ≡ true)
unfolding text_leb
text_leb-total s t = lex_leb-total (codes s) (codes t)

pub text_leb_trans :
    (s t u : String) → text_leb s t ≡ true → text_leb t u ≡ true → text_leb s u ≡ true
unfolding text_leb
text_leb_trans s t u p q = lex_leb_trans (codes s) (codes t) (codes u) p q

module _ {A : Type 0} (below : A → A → Bool) where
  unfoldable pub place : A → List A → List A
  place x [] = x ∷ []
  place x (y ∷ ys) = if below x y then x ∷ y ∷ ys else y ∷ place x ys

  unfoldable pub sort : List A → List A
  unfolding place
  sort [] = []
  sort (x ∷ xs) = place x (sort xs)

  -- The order that the sort needs: any two elements compare, and comparisons chain.
  pub record IsTotalOrder : Type 0 where
    pub total : (x y : A) → (below x y ≡ true) ⊎ (below y x ≡ true)
    pub trans : (x y z : A) → below x y ≡ true → below y z ≡ true → below x z ≡ true

  abbrev pub Sorted : List A → Type 0
  Sorted [] = Unit
  Sorted (x ∷ xs) = All (λ y. below x y ≡ true) xs × Sorted xs

  place-All : (P : A → Type 0) (x : A) (xs : List A) → P x → All P xs → All P (place x xs)
  unfolding place
  place-All P x [] p h = (p, tt)
  place-All P x (y ∷ ys) p h = elim (Bool-cases (below x y)) [
    | inl e ↦ rw e (p, h)
    | inr e ↦ rw e (h.0, place-All P x ys p h.1)
  ]

  pub sort-All : (P : A → Type 0) (xs : List A) → All P xs → All P (sort xs)
  unfolding sort
  sort-All P [] h = tt
  sort-All P (x ∷ xs) h = place-All P x (sort xs) h.0 (sort-All P xs h.1)

  pub In-place : (a x : A) (xs : List A) → (a ≡ x) ⊎ In a xs → In a (place x xs)
  unfolding place
  In-place a x [] m = m
  In-place a x (y ∷ ys) m = elim (Bool-cases (below x y)) [
    | inl e ↦ rw e m
    | inr e ↦ rw e (swap_front m (λ k. In-place a x ys k))
  ]
    where
      swap_front :
          (a ≡ x) ⊎ In a (y ∷ ys) → ((a ≡ x) ⊎ In a ys → In a (place x ys)) → In a (y ∷ place x ys)
      swap_front (inl p) rest = inr (rest (inl p))
      swap_front (inr (inl p)) rest = inl p
      swap_front (inr (inr p)) rest = inr (rest (inr p))

  pub In-sort : (a : A) (xs : List A) → In a xs → In a (sort xs)
  unfolding sort
  In-sort a [] m = m
  In-sort a (x ∷ xs) (inl p) = In-place a x (sort xs) (inl p)
  In-sort a (x ∷ xs) (inr m) = In-place a x (sort xs) (inr (In-sort a xs m))

  module _ (order : IsTotalOrder) where
    All-trans :
        (x y : A) (zs : List A)
        → below x y ≡ true
        → All (λ z. below y z ≡ true) zs
        → All (λ z. below x z ≡ true) zs
    All-trans x y [] p h = tt
    All-trans x y (z ∷ zs) p h = (order.trans x y z p h.0, All-trans x y zs p h.1)

    place-Sorted : (x : A) (xs : List A) → Sorted xs → Sorted (place x xs)
    unfolding place
    place-Sorted x [] s = (tt, tt)
    place-Sorted x (y ∷ ys) s = elim (Bool-cases (below x y)) [
      | inl e ↦ rw e ((e, All-trans x y ys e s.0), s)
      | inr e ↦ rw e (place-All _ x ys (flip e (order.total x y)) s.0, place-Sorted x ys s.1)
    ]
      where
        flip : below x y ≡ false → (below x y ≡ true) ⊎ (below y x ≡ true) → below y x ≡ true
        flip e (inl t) = cc
        flip e (inr t) = t

    pub sort-Sorted : (xs : List A) → Sorted (sort xs)
    unfolding sort
    sort-Sorted [] = tt
    sort-Sorted (x ∷ xs) = place-Sorted x (sort xs) (sort-Sorted xs)
