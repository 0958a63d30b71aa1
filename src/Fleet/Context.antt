-- ===== src/Fleet/Context.antt =====
-- amr_warehouse_sim/fleet/execution_context.py and simulated_context.py: what a haul asks of the
-- robot that carries it, and the simulated robot.
use amr_warehouse_navigation.Common.{
  Bool, true, false, not, String, is_some, if◌then◌else◌, ⊤, Method, pure, when, ◌>>=◌, ◌>>◌,
}
use amr_warehouse_navigation.Fleet.Errors.{Error}
use amr_warehouse_navigation.Fleet.RobotState.{RobotState, same_state, is_active_state, value}
use amr_warehouse_navigation.Fleet.Robots.{RobotRecord}
use amr_warehouse_navigation.Fleet.Registry.{Registry, get_robot, mark_busy, release_task}
use amr_warehouse_navigation.Fleet.Events.{Reason}

pub record ReadyResult : Type 0 where
  pub ready : Bool
  pub reason : Reason

pub record NavigationResult : Type 0 where
  pub succeeded : Bool
  pub status : String
  pub reason : Reason

-- `navigate_to_pose(simulate_failure=…)` of a `RobotExecutionContext`, which may use the registry.
abbrev pub Navigator : Type 0
Navigator = Bool → Method Error Registry NavigationResult

abbrev not_ready : Reason → ReadyResult
not_ready reason = record { ready = false; reason = reason }

readiness : String → RobotRecord → ReadyResult
readiness robot_id robot =
    if same_state robot.state RobotState.offline
    then not_ready (Reason.about "is OFFLINE" robot_id)
    else if same_state robot.state RobotState.error
    then not_ready (Reason.about "is in ERROR" robot_id)
    else if not (is_some robot.current_task_id)
    then not_ready (Reason.about "has no assigned task" robot_id)
    else if not (is_active_state robot.state)
    then not_ready (Reason.about (value robot.state) robot_id)
    else record { ready = true; reason = Reason.text "simulated ready gate satisfied" }

unfoldable pub check_ready_gate : String → Method Error Registry ReadyResult
unfolding readiness
check_ready_gate robot_id = do robot ← get_robot robot_id; pure (readiness robot_id robot)

abbrev nav_failed : Reason → NavigationResult
nav_failed reason = record { succeeded = false; status = "failed"; reason = reason }

abbrev drive : Bool → NavigationResult
drive true = nav_failed (Reason.text "simulated navigation failure")
drive false = record {
  succeeded = true;
  status = "succeeded";
  reason = Reason.text "simulated NavigateToPose SUCCEEDED";
}

-- `SimulatedRobotContext.navigate_to_pose`
unfoldable pub simulated_navigate : String → Navigator
unfolding check_ready_gate
simulated_navigate robot_id simulate_failure = do
  gate ← check_ready_gate robot_id
  if not gate.ready then pure (nav_failed gate.reason) else (do
    robot ← get_robot robot_id
    when (same_state robot.state RobotState.assigned) (mark_busy robot_id >> pure tt)
    pure (drive simulate_failure))

unfoldable pub complete_assigned_task : String → Method Error Registry ⊤
complete_assigned_task robot_id = do
  robot ← get_robot robot_id
  when (is_active_state robot.state) (release_task robot_id >> pure tt)
