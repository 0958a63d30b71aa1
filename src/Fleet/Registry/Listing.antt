-- ===== src/Fleet/Registry/Listing.antt =====
-- `list_robots` lists the registered robots and no other.
use amr_warehouse_navigation.Common.{
  ◌≡◌, refl, sym, inl, inr, some, List, [], ◌∷◌, String, ◌==◌, string_key, Option-cases, Bool-cases,
  In, All,
}
use text.Mathlib.TextEquality.{eq_iff}
use amr_warehouse_navigation.Common.Dict.{Dict, keys, lookup}
use amr_warehouse_navigation.Common.Order.{sort, In-sort, text_leb}
use amr_warehouse_navigation.Fleet.Robots.{RobotRecord}
use amr_warehouse_navigation.Fleet.Registry.{Registry, list_robots, select_robots}

In-keys :
    (i : String) (robot : RobotRecord) (d : Dict String RobotRecord)
    → lookup i d ≡ some robot
    → In i (keys d)
unfolding lookup
In-keys i robot [] e = cc
In-keys i robot ((j, r) ∷ d) e = elim (Bool-cases (j == i)) [
  | inl same ↦ inl (sym ((eq_iff j i).0 same))
  | inr other ↦ inr (In-keys i robot d (rw other at e))
]

In-select_robots :
    (i : String) (robot : RobotRecord) (is : List String) (d : Dict String RobotRecord)
    → lookup i d ≡ some robot
    → In i is
    → In robot (select_robots is d)
unfolding select_robots
In-select_robots i robot [] d e m = absurd m
In-select_robots i robot (j ∷ is) d e (inl same) = rw (← same) (rw (e, select_robots) (inl refl))
In-select_robots i robot (j ∷ is) d e (inr m) = elim (Option-cases (lookup j d)) [
  | inl absent ↦ rw (absent, select_robots) (In-select_robots i robot is d e m)
  | inr (r, found) ↦ rw (found, select_robots) (inr (In-select_robots i robot is d e m))
]

-- Every registered robot is listed.
pub In-list_robots :
    (i : String) (robot : RobotRecord) (reg : Registry)
    → lookup i reg.robots ≡ some robot
    → In robot (list_robots reg)
unfolding list_robots
In-list_robots i robot reg e =
    In-select_robots i robot (sort text_leb (keys reg.robots)) reg.robots e
      (In-sort text_leb i (keys reg.robots) (In-keys i robot reg.robots e))

abbrev pub Registered : Registry → RobotRecord → Type 0
Registered reg robot = (i : String) × (lookup i reg.robots ≡ some robot)

select_robots-Registered :
    (is : List String) (reg : Registry) → All (Registered reg) (select_robots is reg.robots)
unfolding select_robots
select_robots-Registered [] reg = tt
select_robots-Registered (i ∷ is) reg = elim (Option-cases (lookup i reg.robots)) [
  | inl absent ↦ rw (absent, select_robots) (select_robots-Registered is reg)
  | inr (r, found) ↦ rw (found, select_robots) ((i, found), select_robots-Registered is reg)
]

-- Every listed robot is registered.
pub list_robots-Registered : (reg : Registry) → All (Registered reg) (list_robots reg)
unfolding list_robots
list_robots-Registered reg = select_robots-Registered (sort text_leb (keys reg.robots)) reg
