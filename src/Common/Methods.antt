-- ===== src/Common/Methods.antt =====
-- A method call: it returns or raises, and hands its object's state back either way, since what
-- was written before a raise stays written.
use mathlib.Core.Path.{◌≡◌, ap}
use mathlib.Core.Bool.{Bool, true, false}
use native.Mathlib.Omega.{arith}
use mathlib.Core.Option.{Option, none, some}
use amr_warehouse_navigation.Common.Tests.{⊤}

pub data Outcome (E : Type 0) (A : Type 0) : Type 0 where
  returned : A → Outcome E A
  raised : E → Outcome E A

abbrev pub Method : Type 0 → Type 0 → Type 0 → Type 0
Method E S A = S → Outcome E A × S

module _ {E S A : Type 0} where
  abbrev pub pure : A → Method E S A
  pure a s = (returned a, s)

  abbrev pub raise : E → Method E S A
  raise e s = (raised e, s)

  abbrev pub reads : (S → A) → Method E S A
  reads f s = (returned (f s), s)

  abbrev pub require : E → Option A → Method E S A
  require e none s = (raised e, s)
  require e (some a) s = (returned a, s)

infixl 5 ◌>>=◌ ◌>>◌
abbrev pub ◌>>=◌ : {E S A B : Type 0} → Method E S A → (A → Method E S B) → Method E S B
◌>>=◌ m f s = let (r, s') = m s in elim r [ returned a ↦ f a s' | raised e ↦ (raised e, s') ]

abbrev pub ◌>>◌ : {E S A B : Type 0} → Method E S A → Method E S B → Method E S B
m >> n = m >>= λ _. n

-- `if condition: raise error`
abbrev pub raise_if : {E S : Type 0} → Bool → E → Method E S ⊤
raise_if true e s = (raised e, s)
raise_if false e s = (returned tt, s)

abbrev pub update : {E S : Type 0} → (S → S) → Method E S ⊤
update f s = (returned tt, f s)

-- A method of a part of the object, by the part's reader and writer.
abbrev pub within : {E S T A : Type 0} → (S → T) → (T → S → S) → Method E T A → Method E S A
within get put m s = let (r, t) = m (get s) in (r, put t s)

-- A call in a chain, by what it is known to do.
pub >>=-returned :
    {E S A B : Type 0} (m : Method E S A) (f : A → Method E S B) (s : S) {t : S} {a : A}
    → m s ≡ (returned a, t)
    → (m >>= f) s ≡ f a t
>>=-returned m f s e = ground (arith, e)

pub >>=-raised :
    {E S A B : Type 0} (m : Method E S A) (f : A → Method E S B) (s : S) {t : S} {x : E}
    → m s ≡ (raised x, t)
    → (m >>= f) s ≡ (raised x, t)
>>=-raised m f s e = ground (arith, e)

pub within_runs :
    {E S T A : Type 0} (get : S → T) (put : T → S → S) (m : Method E T A) (s : S) {r : Outcome E A}
    {t : T}
    → m (get s) ≡ (r, t)
    → within get put m s ≡ (r, put t s)
within_runs get put m s e = ap (λ p. (p.0, put p.1 s)) e

-- `if condition:` with no `else`
abbrev pub when : {E S : Type 0} → Bool → Method E S ⊤ → Method E S ⊤
when true m = m
when false m = pure tt
