-- ===== src/Fleet/RobotState.antt =====
-- amr_warehouse_sim/fleet/robot_state.py: the robot states, their sets and the transition table.
-- A Python frozenset of states is its membership test.
use amr_warehouse_navigation.Common.{
  Bool, true, false, not, Option, none, some, String, ◌==◌, string_key, ◌≡◌, refl, if◌then◌else◌, ⊤,
  Method, raise_if,
}
use amr_warehouse_navigation.Fleet.Errors.{Error, invalid_robot_transition}

pub data RobotState : Type 0 where
  idle assigned busy offline error : RobotState

-- `RobotState(str, Enum)`: the text of each member, and the lookup of a member by its text.
unfoldable pub value : RobotState → String
value RobotState.idle = "IDLE"
value RobotState.assigned = "ASSIGNED"
value RobotState.busy = "BUSY"
value RobotState.offline = "OFFLINE"
value RobotState.error = "ERROR"

unfoldable pub of_value : String → Option RobotState
of_value s =
    if s == "IDLE"
    then some RobotState.idle
    else if s == "ASSIGNED"
    then some RobotState.assigned
    else if s == "BUSY"
    then some RobotState.busy
    else if s == "OFFLINE"
    then some RobotState.offline
    else if s == "ERROR"
    then some RobotState.error
    else none

abbrev pub same_state : RobotState → RobotState → Bool
same_state RobotState.idle RobotState.idle = true
same_state RobotState.assigned RobotState.assigned = true
same_state RobotState.busy RobotState.busy = true
same_state RobotState.offline RobotState.offline = true
same_state RobotState.error RobotState.error = true
same_state _ _ = false

-- `ACTIVE_TASK_STATES`
abbrev pub is_active_state : RobotState → Bool
is_active_state RobotState.assigned = true
is_active_state RobotState.busy = true
is_active_state _ = false

-- `DISPATCHABLE_STATES`
abbrev pub is_dispatchable_state : RobotState → Bool
is_dispatchable_state RobotState.idle = true
is_dispatchable_state _ = false

-- `target in ALLOWED_TRANSITIONS[current]`
abbrev pub allowed : RobotState → RobotState → Bool
allowed RobotState.idle RobotState.assigned = true
allowed RobotState.idle RobotState.offline = true
allowed RobotState.idle RobotState.error = true
allowed RobotState.assigned RobotState.busy = true
allowed RobotState.assigned RobotState.idle = true
allowed RobotState.assigned RobotState.offline = true
allowed RobotState.assigned RobotState.error = true
allowed RobotState.busy RobotState.idle = true
allowed RobotState.busy RobotState.offline = true
allowed RobotState.busy RobotState.error = true
allowed RobotState.offline RobotState.idle = true
allowed RobotState.offline RobotState.error = true
allowed RobotState.error RobotState.idle = true
allowed RobotState.error RobotState.offline = true
allowed _ _ = false

abbrev pub assert_transition_allowed : {S : Type 0} → RobotState → RobotState → Method Error S ⊤
assert_transition_allowed current target =
    raise_if (not (allowed current target)) invalid_robot_transition

-- A member is found again by its own text.
pub of_value-value : (s : RobotState) → of_value (value s) ≡ some s
unfolding of_value value
of_value-value RobotState.idle = refl
of_value-value RobotState.assigned = refl
of_value-value RobotState.busy = refl
of_value-value RobotState.offline = refl
of_value-value RobotState.error = refl
