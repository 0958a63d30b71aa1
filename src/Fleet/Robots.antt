-- ===== src/Fleet/Robots.antt =====
-- amr_warehouse_sim/fleet/registry.py, the robot records: their rows in the `robots` table, the
-- defaults, and the test of a heartbeat.
-- A time is a number of microseconds since a fixed origin; a stored ISO text is the whole second
-- that it denotes. Battery levels are signed thousandths.
use amr_warehouse_navigation.Common.{
  Bool, false, not, ◌&&◌, Option, none, some, List, [], ◌∷◌, String, string_key, ℕ, ◌-◌, ◌%◌, ◌≡◌,
  leb, is_some, or_default, Outcome, returned, raised,
}
use amr_warehouse_navigation.Common.Int.{ℤ, pos, max_zero}
use amr_warehouse_navigation.Common.Dict.{Dict, values, insert}
use amr_warehouse_navigation.Common.Order.{text_leb, sort}
use amr_warehouse_navigation.Fleet.Errors.{Error, value_error}
use amr_warehouse_navigation.Fleet.RobotState.{
  RobotState, value, of_value, of_value-value, is_active_state, is_dispatchable_state, same_state,
}

pub record RobotRecord : Type 0 where
  pub robot_id : String
  pub state : RobotState
  pub current_task_id : Option ℕ
  pub current_station : Option String
  pub last_heartbeat : Option ℕ
  pub battery : ℤ
  pub updated_at : ℕ

-- A row of the `robots` table; `state` is text there.
pub record RobotRow : Type 0 where
  pub robot_id : String
  pub state : String
  pub current_task_id : Option ℕ
  pub current_station : Option String
  pub last_heartbeat : Option ℕ
  pub battery : ℤ
  pub updated_at : ℕ

abbrev pub default_heartbeat_timeout : ℤ
default_heartbeat_timeout = pos 30000000

abbrev pub default_station : String
default_station = "start_zone"

abbrev pub default_battery : ℤ
default_battery = pos 100000

abbrev pub default_robot_ids : List String
default_robot_ids = "robot_01" ∷ "robot_02" ∷ []

-- `.replace(microsecond=0)`
abbrev pub whole_second : ℕ → ℕ
whole_second t = t - t % 1000000

abbrev pub has_active_task : RobotRecord → Bool
has_active_task robot = is_some robot.current_task_id && is_active_state robot.state

abbrev pub is_dispatchable : RobotRecord → Bool
is_dispatchable robot =
    is_dispatchable_state robot.state
    && not (is_some robot.current_task_id)
    && not (same_state robot.state RobotState.offline)

unfoldable pub robot_to_row : RobotRecord → RobotRow
robot_to_row robot = record {
  robot_id = robot.robot_id;
  state = value robot.state;
  current_task_id = robot.current_task_id;
  current_station = robot.current_station;
  last_heartbeat = robot.last_heartbeat;
  battery = robot.battery;
  updated_at = robot.updated_at;
}

-- `RobotState(text)` raises a `ValueError` on a text that no member has.
robot_with_state : RobotRow → Option RobotState → Outcome Error RobotRecord
robot_with_state row none = raised value_error
robot_with_state row (some state) = returned (record {
  robot_id = row.robot_id;
  state = state;
  current_task_id = row.current_task_id;
  current_station = row.current_station;
  last_heartbeat = row.last_heartbeat;
  battery = row.battery;
  updated_at = row.updated_at;
})

unfoldable pub row_to_robot : RobotRow → Outcome Error RobotRecord
unfolding robot_with_state
row_to_robot row = robot_with_state row (of_value row.state)

abbrev pub RobotTable : Type 0
RobotTable = Dict String RobotRow

-- The write, where the database takes it. SQLite may refuse one (a file that is locked or cannot be
-- written, an integer beyond 64 bits, a battery that is no number); Fleet/Registry/Refusals has what
-- the registry's methods leave behind then.
unfoldable pub persist_robot_to_db : RobotRecord → RobotTable → RobotTable
persist_robot_to_db robot table = insert robot.robot_id (robot_to_row robot) table

-- The dict comprehension over the rows: one bad row raises.
unfoldable pub robots_of_rows :
    List RobotRow → Dict String RobotRecord → Outcome Error (Dict String RobotRecord)
robots_of_rows [] robots = returned robots
robots_of_rows (row ∷ rows) robots = elim (row_to_robot row) [
  | returned robot ↦ robots_of_rows rows (insert row.robot_id robot robots)
  | raised e ↦ raised e
]

abbrev pub row_leb : RobotRow → RobotRow → Bool
row_leb a b = text_leb a.robot_id b.robot_id

unfoldable pub load_robots_from_db : RobotTable → Outcome Error (Dict String RobotRecord)
unfolding robots_of_rows
load_robots_from_db table = robots_of_rows (sort row_leb (values table)) []

unfoldable pub build_default_robot : String → Option ℕ → ℕ → RobotRecord
build_default_robot robot_id timestamp clock = record {
  robot_id = robot_id;
  state = RobotState.idle;
  current_task_id = none;
  current_station = some default_station;
  last_heartbeat = some (or_default timestamp (whole_second clock));
  battery = default_battery;
  updated_at = or_default timestamp (whole_second clock);
}

unfoldable pub seed_robots : List String → Option ℕ → ℕ → Dict String RobotRecord
seed_robots [] timestamp clock = []
seed_robots (robot_id ∷ rest) timestamp clock =
    (robot_id, build_default_robot robot_id timestamp clock) ∷ seed_robots rest timestamp clock

abbrev pub seed_default_robots : ℕ → Dict String RobotRecord
seed_default_robots clock = seed_robots default_robot_ids none clock

-- `age_sec <= max(timeout_sec, 0.0)`; an age below zero passes in both readings of the difference.
heard_within : Option ℕ → ℕ → ℤ → Bool
heard_within none now timeout = false
heard_within (some last_seen) now timeout = leb (now - last_seen) (max_zero timeout)

unfoldable pub is_heartbeat_valid : RobotRecord → ℕ → ℤ → Bool
unfolding heard_within
is_heartbeat_valid robot now timeout = heard_within robot.last_heartbeat now timeout

-- A robot comes back from its row as it was written.
pub row_to_robot-robot_to_row :
    (robot : RobotRecord) → row_to_robot (robot_to_row robot) ≡ returned robot
unfolding row_to_robot robot_to_row
row_to_robot-robot_to_row robot = rw (of_value-value robot.state, robot_with_state)
