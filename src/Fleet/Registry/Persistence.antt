-- ===== src/Fleet/Registry/Persistence.antt =====
-- The `robots` table under the registry: write-through, and a restart from it.
use amr_warehouse_navigation.Common.{
  ◌≡◌, refl, inl, inr, Option, none, some, String, string_key, Outcome, returned, raised, arith,
  Option-cases,
}
use amr_warehouse_navigation.Common.Dict.{Dict, lookup, lookup-insert}
use amr_warehouse_navigation.Fleet.Errors.{Error}
use amr_warehouse_navigation.Fleet.Robots.{
  RobotRecord, RobotRow, RobotTable, robot_to_row, persist_robot_to_db,
}
use amr_warehouse_navigation.Fleet.Registry.{Registry, upsert_robot}
use amr_warehouse_navigation.Fleet.Registry.Calls.{RegistryCall, run_call, Effect, run_call-Effect}
use amr_warehouse_navigation.Fleet.Registry.Invariant.{run_call-unknown}

abbrev pub row_of : Option RobotRecord → Option RobotRow
row_of none = none
row_of (some robot) = some (robot_to_row robot)

-- The table holds the row of each robot in memory, and no other.
abbrev pub Mirrors : Dict String RobotRecord → Option RobotTable → Type 0
Mirrors robots none = Unit
Mirrors robots (some table) = (i : String) → lookup i table ≡ row_of (lookup i robots)

upsert_robot-Mirrors :
    (robot : RobotRecord) (reg : Registry) (table : Option RobotTable)
    → reg.table ≡ table
    → Mirrors reg.robots table
    → Mirrors (upsert_robot robot reg).1.robots (upsert_robot robot reg).1.table
unfolding upsert_robot persist_robot_to_db
upsert_robot-Mirrors robot reg none e m = rw e tt
upsert_robot-Mirrors robot reg (some table) e m = rw e λ i. ground (
  arith,
  lookup-insert robot.robot_id i (robot_to_row robot) table,
  lookup-insert robot.robot_id i robot reg.robots,
  m i,
)

pub Effect-Mirrors :
    (reg : Registry) (old : RobotRecord) (result : Outcome Error RobotRecord × Registry)
    → Mirrors reg.robots reg.table
    → Effect old reg result
    → Mirrors result.1.robots result.1.table
Effect-Mirrors reg old (raised e, reg') m same = rw same m
Effect-Mirrors reg old (returned new, reg') m (inl (_, same)) = rw same m
Effect-Mirrors reg old (returned new, reg') m (inr (step, wrote)) =
    rw wrote (upsert_robot-Mirrors new reg reg.table refl m)

-- The write-through of a database that takes every write.
pub run_call-Mirrors :
    (c : RegistryCall) (i : String) (reg : Registry)
    → Mirrors reg.robots reg.table
    → Mirrors (run_call c i reg).1.robots (run_call c i reg).1.table
run_call-Mirrors c i reg m = elim (Option-cases (lookup i reg.robots)) [
  | inl e ↦ rw (run_call-unknown c i reg e) m
  | inr (old, e) ↦ Effect-Mirrors reg old (run_call c i reg) m (run_call-Effect c i reg old e)
]
