-- ===== src/Fleet/Registry.antt =====
-- amr_warehouse_sim/fleet/registry.py, `RobotRegistry`: the registry in memory, with the `robots`
-- table that it writes through to where a database path is set.
pub mod Calls
pub mod Invariant
pub mod Stranded
pub mod Assignment
pub mod Persistence
pub mod Refusals
pub mod Restart
pub mod Listing
use amr_warehouse_navigation.Common.{
  Bool, true, false, not, ◌&&◌, Option, none, some, List, [], ◌∷◌, String, ◌==◌, string_key, ℕ,
  if◌then◌else◌, is_some, or_default, ⊤, Outcome, returned, raised, Method, pure, raise, reads,
  require, ◌>>=◌, ◌>>◌, raise_if,
}
use amr_warehouse_navigation.Common.Int.{ℤ}
use amr_warehouse_navigation.Common.Dict.{Dict, keys, lookup, insert}
use amr_warehouse_navigation.Common.Order.{text_leb, sort}
use amr_warehouse_navigation.Fleet.Errors.{
  Error, robot_not_found, invalid_robot_transition, robot_not_available, robot_active_task_conflict,
}
use amr_warehouse_navigation.Fleet.RobotState.{
  RobotState, is_active_state, is_dispatchable_state, same_state, assert_transition_allowed,
}
use amr_warehouse_navigation.Fleet.Robots.{
  RobotRecord, RobotTable, whole_second, has_active_task, persist_robot_to_db, load_robots_from_db,
  seed_default_robots, is_heartbeat_valid,
}

-- `clock` is what the system clock reads during a call.
pub record Registry : Type 0 where
  pub robots : Dict String RobotRecord
  pub table : Option RobotTable
  pub clock : ℕ

abbrev pub Call : Type 0 → Type 0
Call A = Method Error Registry A

-- `[self._robots[robot_id] for robot_id in sorted(self._robots)]`
unfoldable pub select_robots : List String → Dict String RobotRecord → List RobotRecord
select_robots [] robots = []
select_robots (robot_id ∷ rest) robots = elim (lookup robot_id robots) [
  | none ↦ select_robots rest robots
  | some robot ↦ robot ∷ select_robots rest robots
]

unfoldable pub list_robots : Registry → List RobotRecord
list_robots reg = select_robots (sort text_leb (keys reg.robots)) reg.robots

abbrev pub get_robot : String → Call RobotRecord
get_robot robot_id reg = require robot_not_found (lookup robot_id reg.robots) reg

abbrev pub write_through : RobotRecord → Option RobotTable → Option RobotTable
write_through robot none = none
write_through robot (some table) = some (persist_robot_to_db robot table)

unfoldable pub upsert_robot : RobotRecord → Call RobotRecord
upsert_robot robot reg = (
  returned robot,
  record reg {
    robots = insert robot.robot_id robot reg.robots;
    table = write_through robot reg.table;
  },
)

unfoldable pub persist_robots : List RobotRecord → Option RobotTable → Option RobotTable
persist_robots [] table = table
persist_robots (robot ∷ rest) table = persist_robots rest (write_through robot table)

unfoldable pub persist_all : Registry → Registry
persist_all reg = record reg { table = persist_robots (list_robots reg) reg.table }

abbrev is_empty : Dict String RobotRecord → Bool
is_empty [] = true
is_empty (_ ∷ _) = false

abbrev seeds : Bool → ℕ → Dict String RobotRecord
seeds auto_seed clock = if auto_seed then seed_default_robots clock else []

loaded_registry :
    Outcome Error (Dict String RobotRecord) → RobotTable → Bool → ℕ → Outcome Error Registry
loaded_registry (raised e) table auto_seed clock = raised e
loaded_registry (returned loaded) table auto_seed clock =
    let reg : Registry = record {
      robots = if is_empty loaded then seeds auto_seed clock else loaded;
      table = some table;
      clock = clock;
    } in
    returned (if is_empty loaded && auto_seed then persist_all reg else reg)

-- `RobotRegistry.__init__`
unfoldable pub new_registry :
    Option (Dict String RobotRecord) → Option RobotTable → Bool → ℕ → Outcome Error Registry
unfolding loaded_registry
new_registry (some robots) table auto_seed clock =
    returned (record { robots = robots; table = table; clock = clock })
new_registry none (some table) auto_seed clock =
    loaded_registry (load_robots_from_db table) table auto_seed clock
new_registry none none auto_seed clock =
    returned (record { robots = seeds auto_seed clock; table = none; clock = clock })

-- `_transition`: an argument that is left out (`...`) is `none`.
unfoldable pub transition :
    String
    → RobotState
    → Option (Option ℕ)
    → Option (Option String)
    → Option (Option ℕ)
    → Option ℤ
    → Call RobotRecord
unfolding upsert_robot
transition robot_id target task station heartbeat battery = do
  robot ← get_robot robot_id
  assert_transition_allowed robot.state target
  clock ← reads (λ reg. reg.clock)
  upsert_robot (record {
    robot_id = robot.robot_id;
    state = target;
    current_task_id = or_default task robot.current_task_id;
    current_station = or_default station robot.current_station;
    last_heartbeat = or_default heartbeat robot.last_heartbeat;
    battery = or_default battery robot.battery;
    updated_at = whole_second clock;
  })

abbrev pub move_to : String → RobotState → Option (Option ℕ) → Call RobotRecord
move_to robot_id target task = transition robot_id target task none none none

-- `current_station if current_station is not None else robot.current_station`
abbrev given_station : Option String → Option String → Option String
given_station none old = old
given_station (some station) old = some station

abbrev heard : RobotRecord → ℕ → Option String → Option ℤ → RobotRecord
heard robot ts station battery = record robot {
  current_station = given_station station robot.current_station;
  last_heartbeat = some ts;
  battery = or_default battery robot.battery;
  updated_at = ts;
}

-- A heartbeat of an OFFLINE robot that holds no task brings it back to IDLE.
recovered : RobotRecord → RobotRecord → Call RobotRecord
unfolding upsert_robot
recovered robot updated = do
  assert_transition_allowed robot.state RobotState.idle
  upsert_robot (record updated { state = RobotState.idle })

unfoldable pub record_heartbeat :
    String → Option ℕ → Option String → Option ℤ → Bool → Call RobotRecord
unfolding upsert_robot recovered
record_heartbeat robot_id timestamp station battery recover_offline = do
  robot ← get_robot robot_id
  clock ← reads (λ reg. reg.clock)
  let updated = heard robot (or_default timestamp (whole_second clock)) station battery
  let recovering = recover_offline && same_state robot.state RobotState.offline
  if recovering && not (is_some robot.current_task_id)
      then recovered robot updated
      else upsert_robot updated

accepts : RobotRecord → Option ℕ → ℤ → Bool
accepts robot now timeout =
    if same_state robot.state RobotState.offline
    then false
    else if has_active_task robot
    then false
    else if not (is_dispatchable_state robot.state)
    then false
    else elim now [
      | none ↦ is_some robot.last_heartbeat
      | some t ↦ is_heartbeat_valid robot t timeout
    ]

unfoldable pub can_accept_task : String → Option ℕ → ℤ → Registry → Bool
unfolding accepts
can_accept_task robot_id now timeout reg = elim (lookup robot_id reg.robots) [
  | none ↦ false
  | some robot ↦ accepts robot now timeout
]

unfoldable pub assign_task : String → ℕ → Call RobotRecord
unfolding transition
assign_task robot_id task_id = do
  robot ← get_robot robot_id
  raise_if (same_state robot.state RobotState.offline) robot_not_available
  raise_if (has_active_task robot) robot_active_task_conflict
  raise_if (not (is_dispatchable_state robot.state)) robot_not_available
  move_to robot_id RobotState.assigned (some (some task_id))

unfoldable pub mark_busy : String → Call RobotRecord
unfolding transition
mark_busy robot_id = do
  robot ← get_robot robot_id
  raise_if (not (is_some robot.current_task_id)) robot_not_available
  move_to robot_id RobotState.busy none

unfoldable pub release_task : String → Call RobotRecord
unfolding transition
release_task robot_id = do
  robot ← get_robot robot_id
  raise_if (not (is_active_state robot.state)) invalid_robot_transition
  move_to robot_id RobotState.idle (some none)

unfoldable pub mark_offline : String → Call RobotRecord
unfolding transition
mark_offline robot_id = do
  robot ← get_robot robot_id
  if same_state robot.state RobotState.offline
      then pure robot
      else move_to robot_id RobotState.offline none

unfoldable pub mark_error : String → Call RobotRecord
unfolding transition
mark_error robot_id = do robot ← get_robot robot_id; move_to robot_id RobotState.error none

unfoldable pub set_current_station : String → String → Call RobotRecord
unfolding upsert_robot
set_current_station robot_id station = do
  robot ← get_robot robot_id
  clock ← reads (λ reg. reg.clock)
  upsert_robot (record robot { current_station = some station; updated_at = whole_second clock })

unfoldable pub recover_to_idle : String → Call RobotRecord
unfolding transition
recover_to_idle robot_id = do
  robot ← get_robot robot_id
  raise_if (is_some robot.current_task_id) robot_active_task_conflict
  move_to robot_id RobotState.idle (some none)
