-- ===== src/Fleet/Haul/Run.antt =====
-- amr_warehouse_sim/fleet/haul_executor.py: the methods of `HaulTaskController` that take a haul
-- forward, from its creation to the acknowledged dropoff.
use amr_warehouse_navigation.Common.{
  Bool, true, false, not, Option, none, some, String, ◌==◌, string_key, ℕ, if◌then◌else◌, [], ⊤,
  Outcome, Method, pure, reads, require, when, ◌>>=◌, ◌>>◌, raise_if,
}
use amr_warehouse_navigation.Common.Int.{ℤ}
use amr_warehouse_navigation.Fleet.Errors.{Error, invalid_lifecycle_transition, value_error}
use amr_warehouse_navigation.Fleet.RobotState.{RobotState, same_state}
use amr_warehouse_navigation.Fleet.Robots.{default_heartbeat_timeout}
use amr_warehouse_navigation.Fleet.Registry.{get_robot, mark_busy, set_current_station}
use amr_warehouse_navigation.Fleet.Events.{Reason}
use amr_warehouse_navigation.Fleet.Assignment.{AssignmentStatus, AssignmentRecord}
use amr_warehouse_navigation.Fleet.Stations.{Config}
use amr_warehouse_navigation.Fleet.Tasks.{DispatchTask, new_dispatch_task}
use amr_warehouse_navigation.Fleet.Dispatcher.{Dispatcher, Terms, assign_task, emit_event}
use amr_warehouse_navigation.Fleet.Lifecycle.{WmsTaskStatus, HaulExecutionPhase, HaulTaskSnapshot}
use amr_warehouse_navigation.Fleet.Context.{Navigator, NavigationResult, simulated_navigate}
use amr_warehouse_navigation.Fleet.Haul.{
  Step, in_dispatcher, in_registry, replace, emit, set_wms_status, set_execution_phase,
  sync_assignment_status, release_robot, fail, is_requeued, is_assignable, require_phase,
}

abbrev pub fresh_snapshot : ℕ → String → String → String → HaulTaskSnapshot
fresh_snapshot task_id pickup dropoff priority = record {
  task_id = task_id;
  pickup_station = pickup;
  dropoff_station = dropoff;
  priority = priority;
  wms_status = WmsTaskStatus.pending;
  assignment_status = none;
  execution_phase = HaulExecutionPhase.idle;
  robot_id = none;
  pickup_completed = false;
  reason = none;
}

-- `HaulTaskController.__init__`
unfoldable pub new_haul : ℕ → String → String → String → Method Error Dispatcher HaulTaskSnapshot
new_haul task_id pickup dropoff priority = do
  raise_if (dropoff == "") value_error
  emit_event "TASK_CREATED" (some task_id) none (some (Reason.stations pickup dropoff)) none
  pure (fresh_snapshot task_id pickup dropoff priority)

abbrev pub dispatch_view : HaulTaskSnapshot → DispatchTask
dispatch_view s = record {
  task_id = s.task_id;
  pickup_station = s.pickup_station;
  dropoff_station = some s.dropoff_station;
  priority = s.priority;
}

-- A result computed outside the state.
abbrev pub lift : {A : Type 0} → Outcome Error A → Step A
lift r h = (r, h)

-- The end of `assign`: the haul takes note of its robot.
unfoldable pub bind_robot : Bool → AssignmentRecord → Step HaulTaskSnapshot
bind_robot again assignment = do
  replace (λ s. record s {
    robot_id = some assignment.robot_id;
    assignment_status = some assignment.status;
  })
  set_wms_status WmsTaskStatus.assigned (some assignment.dispatch_reason)
  when again (emit "TASK_REASSIGNED" (some (Reason.about "reassigned to" assignment.robot_id)))
  reads (λ h. h.snapshot)

abbrev pub haul_terms : ℕ → ℤ → Terms
haul_terms now timeout = record { now = now; heartbeat_timeout = timeout; workload_penalty = [] }

-- The call of the dispatcher for the haul's own task.
unfoldable pub take_robot : Config → ℕ → ℤ → Step AssignmentRecord
take_robot config now timeout = do
  s ← reads (λ h. h.snapshot)
  task ← lift (new_dispatch_task (dispatch_view s))
  in_dispatcher (assign_task config (haul_terms now timeout) task)

unfoldable pub assign : Config → ℕ → ℤ → Step HaulTaskSnapshot
assign config now timeout = do
  s ← reads (λ h. h.snapshot)
  raise_if (not (is_assignable s.wms_status)) invalid_lifecycle_transition
  when (is_requeued s.wms_status) (
      set_execution_phase HaulExecutionPhase.idle
        (some (Reason.text "Reset execution after requeue.")) (some false))
  assignment ← take_robot config now timeout
  bind_robot (is_requeued s.wms_status) assignment

-- The end of `start`: an ASSIGNED robot becomes BUSY.
unfoldable pub start_robot : String → Step ⊤
start_robot robot_id = do
  robot ← in_registry (get_robot robot_id)
  when (same_state robot.state RobotState.assigned) (do
    in_registry (mark_busy robot_id)
    emit "ROBOT_BUSY" (some (Reason.text "Haul navigation started.")))

unfoldable pub start : Step HaulTaskSnapshot
start = do
  s ← reads (λ h. h.snapshot)
  robot_id ← require invalid_lifecycle_transition s.robot_id
  set_wms_status WmsTaskStatus.in_progress (some (Reason.text "Haul execution started."))
  sync_assignment_status AssignmentStatus.executing
  set_execution_phase HaulExecutionPhase.navigating_to_pickup
      (some (Reason.about "Navigate to pickup" s.pickup_station)) none
  emit "NAV_STARTED" (some (Reason.about "target" s.pickup_station))
  start_robot robot_id
  reads (λ h. h.snapshot)

-- The robots that have a context of their own; any other is simulated.
abbrev pub Contexts : Type 0
Contexts = String → Option Navigator

abbrev pub context_for : Contexts → String → Navigator
context_for contexts robot_id = elim (contexts robot_id) [
  | none ↦ simulated_navigate robot_id
  | some navigator ↦ navigator
]

unfoldable pub navigate : Contexts → Bool → Step NavigationResult
navigate contexts simulate_failure = do
  s ← reads (λ h. h.snapshot)
  robot_id ← require invalid_lifecycle_transition s.robot_id
  in_registry (context_for contexts robot_id simulate_failure)

-- The robot is put at the station that it has reached, and the haul enters its next phase.
unfoldable pub arrive : HaulExecutionPhase → Reason → String → Step HaulTaskSnapshot
arrive phase reason station = do
  s ← reads (λ h. h.snapshot)
  robot_id ← require invalid_lifecycle_transition s.robot_id
  in_registry (set_current_station robot_id station)
  set_execution_phase phase (some reason) none
  emit "NAV_SUCCEEDED" (some (Reason.about "arrived" station))
  reads (λ h. h.snapshot)

unfoldable pub complete_navigation_to_pickup : Contexts → Bool → Step HaulTaskSnapshot
complete_navigation_to_pickup contexts simulate_failure = do
  require_phase HaulExecutionPhase.navigating_to_pickup
  s ← reads (λ h. h.snapshot)
  result ← navigate contexts simulate_failure
  if not result.succeeded
      then fail result.reason
      else arrive HaulExecutionPhase.pickup
          (Reason.text "Arrived at pickup; simulating acknowledgement.") s.pickup_station

unfoldable pub complete_pickup : Step HaulTaskSnapshot
complete_pickup = do
  require_phase HaulExecutionPhase.pickup
  s ← reads (λ h. h.snapshot)
  set_execution_phase HaulExecutionPhase.navigating_to_dropoff
      (some (Reason.text "Pickup acknowledged; navigating to dropoff.")) (some true)
  emit "NAV_STARTED" (some (Reason.about "target" s.dropoff_station))
  reads (λ h. h.snapshot)

unfoldable pub complete_navigation_to_dropoff : Contexts → Bool → Step HaulTaskSnapshot
complete_navigation_to_dropoff contexts simulate_failure = do
  require_phase HaulExecutionPhase.navigating_to_dropoff
  s ← reads (λ h. h.snapshot)
  result ← navigate contexts simulate_failure
  if not result.succeeded
      then fail result.reason
      else arrive HaulExecutionPhase.dropoff
          (Reason.text "Arrived at dropoff; simulating acknowledgement.") s.dropoff_station

unfoldable pub complete_dropoff : Step HaulTaskSnapshot
complete_dropoff = do
  require_phase HaulExecutionPhase.dropoff
  set_execution_phase HaulExecutionPhase.succeeded (some (Reason.text "Dropoff acknowledged.")) none
  set_wms_status WmsTaskStatus.succeeded (some (Reason.text "Haul task succeeded."))
  sync_assignment_status AssignmentStatus.completed
  release_robot
  emit "TASK_SUCCEEDED" (some (Reason.text "pickup/dropoff haul completed."))
  reads (λ h. h.snapshot)

unfoldable pub run_simulated_success : Config → Contexts → ℕ → Step HaulTaskSnapshot
run_simulated_success config contexts now = do
  assign config now default_heartbeat_timeout
  start
  complete_navigation_to_pickup contexts false
  complete_pickup
  complete_navigation_to_dropoff contexts false
  complete_dropoff
