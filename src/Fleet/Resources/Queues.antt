-- ===== src/Fleet/Resources/Queues.antt =====
-- The queue of a resource beside its owner, and what `acquire` makes of them.
use amr_warehouse_navigation.Common.{
  Bool, true, false, not, ◌&&◌, ◌||◌, ◌≡◌, refl, Option, none, some, List, [], ◌∷◌, ◌++◌, String,
  ◌==◌, string_key, contains, if◌then◌else◌, arith,
}
use text.Mathlib.TextEquality.{eq_iff}
use amr_warehouse_navigation.Fleet.Resources.{ResourceAcquireResult}

abbrev nodup : List String → Bool
nodup [] = true
nodup (x ∷ xs) = not (contains xs x) && nodup xs

-- Nobody waits for a free resource, the owner does not wait for its own, and nobody waits twice.
abbrev pub is_orderly : Option String → List String → Bool
is_orderly none [] = true
is_orderly none (_ ∷ _) = false
is_orderly (some owner) queue = not (contains queue owner) && nodup queue

contains-append :
    (xs : List String) (x y : String) → contains (xs ++ y ∷ []) x ≡ contains xs x || (x == y)
contains-append [] x y = ground arith
contains-append (z ∷ xs) x y = ground (arith, contains-append xs x y)

nodup-append :
    (xs : List String) (y : String)
    → nodup xs ≡ true
    → contains xs y ≡ false
    → nodup (xs ++ y ∷ []) ≡ true
nodup-append [] y h k = refl
nodup-append (x ∷ xs) y h k =
    ground (arith, contains-append xs x y, eq_iff x y, eq_iff y x, nodup-append xs y)

-- The queue after `acquire`.
abbrev pub queue_after : Option String → List String → String → List String
queue_after none queue robot = queue
queue_after (some owner) queue robot =
    if (owner == robot) || contains queue robot then queue else queue ++ robot ∷ []

abbrev pub owner_after : Option String → String → Option String
owner_after none robot = some robot
owner_after (some owner) robot = some owner

abbrev pub answer : Option String → String → ResourceAcquireResult
answer none robot = ResourceAcquireResult.acquired
answer (some owner) robot =
    if owner == robot then ResourceAcquireResult.already_owned else ResourceAcquireResult.waiting

pub queue_after-is_orderly :
    (owner : Option String) (queue : List String) (robot : String)
    → is_orderly owner queue ≡ true
    → is_orderly (owner_after owner robot) (queue_after owner queue robot) ≡ true
queue_after-is_orderly none [] robot h = refl
queue_after-is_orderly none (x ∷ queue) robot h = cc
queue_after-is_orderly (some owner) queue robot h =
    ground (arith, contains-append queue owner robot, nodup-append queue robot, eq_iff owner robot)
