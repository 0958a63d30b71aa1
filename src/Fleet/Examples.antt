-- ===== src/Fleet/Examples.antt =====
-- A small fleet on which the theorems of the package are applied: its robots, a dispatcher, a haul.
pub mod Registries
pub mod Dispatches
pub mod Hauls
pub mod Locks
pub mod Sweeps
use amr_warehouse_navigation.Common.{
  Bool, true, false, ◌≡◌, refl, Option, none, some, List, [], ◌∷◌, String, string_key, nat_key, ℕ,
  ◌+◌, ◌==◌, arith, All, Outcome, returned, raised, if◌then◌else◌,
}
use text.Mathlib.TextEquality.{eq_iff}
use amr_warehouse_navigation.Common.Int.{ℤ, pos, pos_part, neg_part}
use amr_warehouse_navigation.Common.Dict.{Dict, lookup}
use amr_warehouse_navigation.Fleet.RobotState.{RobotState}
use amr_warehouse_navigation.Fleet.Robots.{RobotRecord, RobotTable, robot_to_row}
use amr_warehouse_navigation.Fleet.Registry.{Registry}
use amr_warehouse_navigation.Fleet.Registry.Invariant.{IsGood, IsValid}
use amr_warehouse_navigation.Fleet.Registry.Persistence.{row_of, Mirrors}
use amr_warehouse_navigation.Fleet.Registry.Restart.{IsKeyed}
use amr_warehouse_navigation.Fleet.Stations.{Config}
use amr_warehouse_navigation.Fleet.Tasks.{DispatchTask}
use amr_warehouse_navigation.Fleet.Dispatcher.{Dispatcher, Terms}

abbrev pub robot : String → RobotState → Option ℕ → Option String → RobotRecord
robot robot_id state task station = record {
  robot_id = robot_id;
  state = state;
  current_task_id = task;
  current_station = station;
  last_heartbeat = some 3000000;
  battery = pos 90000;
  updated_at = 3000000;
}

abbrev pub near : RobotRecord
near = robot "near" RobotState.idle none (some "shelf_a")

abbrev pub far : RobotRecord
far = robot "far" RobotState.idle none (some "dock")

abbrev pub loaded : RobotRecord
loaded = robot "loaded" RobotState.busy (some 7) (some "dock")

abbrev pub lost : RobotRecord
lost = robot "lost" RobotState.offline (some 9) none

abbrev pub fleet : Dict String RobotRecord
fleet = ("far", far) ∷ ("near", near) ∷ ("loaded", loaded) ∷ ("lost", lost) ∷ []

abbrev rows_of : Dict String RobotRecord → RobotTable
rows_of [] = []
rows_of ((i, r) ∷ robots) = (i, robot_to_row r) ∷ rows_of robots

abbrev pub fleet_table : RobotTable
fleet_table = rows_of fleet

abbrev pub registry : Registry
registry = record { robots = fleet; table = some fleet_table; clock = 5500000 }

IsValid-entries :
    (robots : Dict String RobotRecord) (i : String) (r : RobotRecord)
    → All (λ entry. IsGood entry.0 entry.1) robots
    → lookup i robots ≡ some r
    → IsGood i r
unfolding lookup
IsValid-entries [] i r h e = cc
IsValid-entries ((k, first) ∷ robots) i r (good, h) e =
    ground (arith, eq_iff k i, IsValid-entries robots i r h)

pub registry-IsValid : IsValid registry
registry-IsValid i r e =
    IsValid-entries fleet i r
      (
        record { own_id = refl; agrees = refl },
        (
          record { own_id = refl; agrees = refl },
          (record { own_id = refl; agrees = refl }, (record { own_id = refl; agrees = refl }, tt)),
        ),
      )
      e

Mirrors-rows_of : (robots : Dict String RobotRecord) → Mirrors robots (some (rows_of robots))
unfolding lookup
Mirrors-rows_of [] i = refl
Mirrors-rows_of ((k, r) ∷ robots) i = ground (arith, Mirrors-rows_of robots i)

pub registry-Mirrors : Mirrors fleet (some fleet_table)
registry-Mirrors = Mirrors-rows_of fleet

pub fleet_table-IsKeyed : IsKeyed fleet_table
unfolding lookup robot_to_row
fleet_table-IsKeyed = (refl, refl, (refl, refl, (refl, refl, (refl, refl, tt))))

-- A metric in place of `math.hypot`.
abbrev pub stations : Config
stations = record {
  task_points =
      ("shelf_a", record { x = some (pos 1000); y = some (pos 0) })
      ∷ ("dock", record { x = some (pos 6000); y = some (pos 4000) })
      ∷ [];
  hypot = λ x y. pos (pos_part x + neg_part x + (pos_part y + neg_part y));
}

abbrev pub terms : Terms
terms = record { now = 5500000; heartbeat_timeout = pos 30000000; workload_penalty = [] }

abbrev pub task_at : ℕ → String → DispatchTask
task_at task_id pickup = record {
  task_id = task_id;
  pickup_station = pickup;
  dropoff_station = some "dock";
  priority = "high";
}

abbrev pub dispatcher : Dispatcher
dispatcher = record {
  registry = registry;
  assignments = [];
  table = some (record { rows = []; last_id = 0 });
  events = [];
}
