-- ===== src/Fleet/Haul.antt =====
-- amr_warehouse_sim/fleet/haul_executor.py, `HaulTaskController`: one haul from pickup to dropoff,
-- over the dispatcher and the registry that it shares with the other hauls. Its event sink is the
-- dispatcher's, as where no other one is given.
pub mod Run
pub mod Legal
pub mod Writes
pub mod Histories
pub mod Requeues
use amr_warehouse_navigation.Common.{
  Bool, true, false, not, Option, none, some, String, ◌==◌, string_key, ℕ, if◌then◌else◌, is_some,
  or_default, ⊤, Outcome, returned, raised, Method, pure, raise, reads, update, within, when, ◌>>=◌,
  ◌>>◌, raise_if,
}
use amr_warehouse_navigation.Common.Int.{ℤ, pos}
use amr_warehouse_navigation.Fleet.Errors.{Error, invalid_lifecycle_transition, value_error}
use amr_warehouse_navigation.Fleet.RobotState.{RobotState, same_state, is_active_state}
use amr_warehouse_navigation.Fleet.Registry.{
  Registry, get_robot, mark_busy, release_task, set_current_station,
}
use amr_warehouse_navigation.Fleet.Events.{Reason}
use amr_warehouse_navigation.Fleet.Assignment.{AssignmentStatus, is_active_status}
use amr_warehouse_navigation.Fleet.Stations.{Config}
use amr_warehouse_navigation.Fleet.Tasks.{DispatchTask, new_dispatch_task}
use amr_warehouse_navigation.Fleet.Dispatcher.{
  Dispatcher, Terms, get_assignment_record, set_assignment_status, emit_event, assign_task,
}
use amr_warehouse_navigation.Fleet.Lifecycle.{
  WmsTaskStatus, HaulExecutionPhase, HaulTaskSnapshot, is_terminal_status, is_terminal_phase,
  assert_wms_transition_allowed, assert_execution_transition_allowed,
}
use amr_warehouse_navigation.Fleet.Context.{Navigator, NavigationResult, simulated_navigate}

pub record Haul : Type 0 where
  pub snapshot : HaulTaskSnapshot
  pub dispatcher : Dispatcher

abbrev pub Step : Type 0 → Type 0
Step A = Method Error Haul A

abbrev pub in_dispatcher : {A : Type 0} → Method Error Dispatcher A → Step A
in_dispatcher = within (λ h. h.dispatcher) (λ d h. record h { dispatcher = d })

abbrev pub in_registry : {A : Type 0} → Method Error Registry A → Step A
in_registry =
    within (λ h. h.dispatcher.registry)
      (λ reg h. record h { dispatcher = record (h.dispatcher) { registry = reg } })

-- `_replace_snapshot`
abbrev pub replace : (HaulTaskSnapshot → HaulTaskSnapshot) → Step ⊤
replace f = update (λ h. record h { snapshot = f h.snapshot })

unfoldable pub emit : String → Option Reason → Step ⊤
emit event reason = do
  s ← reads (λ h. h.snapshot)
  in_dispatcher (emit_event event (some s.task_id) s.robot_id reason none)
  pure tt

unfoldable pub set_wms_status : WmsTaskStatus → Option Reason → Step ⊤
set_wms_status target reason = do
  s ← reads (λ h. h.snapshot)
  assert_wms_transition_allowed s.wms_status target
  replace (λ s. record s { wms_status = target; reason = reason })

unfoldable pub set_execution_phase : HaulExecutionPhase → Option Reason → Option Bool → Step ⊤
set_execution_phase target reason pickup_completed = do
  s ← reads (λ h. h.snapshot)
  assert_execution_transition_allowed s.execution_phase target
  replace (λ s. record s {
    execution_phase = target;
    reason = reason;
    pickup_completed = or_default pickup_completed s.pickup_completed;
  })

unfoldable pub sync_assignment_status : AssignmentStatus → Step ⊤
sync_assignment_status status = do
  s ← reads (λ h. h.snapshot)
  found ← reads (λ h. get_assignment_record s.task_id h.dispatcher)
  if not (is_some found) then replace (λ s. record s { assignment_status = some status }) else (do
    updated ← in_dispatcher (set_assignment_status s.task_id status none)
    replace (λ s. record s { assignment_status = some updated.status }))

release_known : String → Method Error Registry ⊤
release_known robot_id = do
  robot ← get_robot robot_id
  when (is_active_state robot.state) (release_task robot_id >> pure tt)

unfoldable pub release_robot : Step ⊤
unfolding release_known
release_robot = do
  s ← reads (λ h. h.snapshot)
  elim s.robot_id [ none ↦ pure tt | some robot_id ↦ in_registry (release_known robot_id) ]

abbrev pub is_held : Option AssignmentStatus → Bool
is_held none = false
is_held (some status) = is_active_status status

-- The end of `fail`, `cancel` and `requeue`.
unfoldable pub give_up : AssignmentStatus → Step ⊤
give_up status = do
  s ← reads (λ h. h.snapshot)
  when (is_held s.assignment_status) (sync_assignment_status status)
  release_robot

abbrev pub is_requeued : WmsTaskStatus → Bool
is_requeued WmsTaskStatus.requeued = true
is_requeued _ = false

abbrev pub is_pending : WmsTaskStatus → Bool
is_pending WmsTaskStatus.pending = true
is_pending _ = false

abbrev pub is_assignable : WmsTaskStatus → Bool
is_assignable WmsTaskStatus.pending = true
is_assignable WmsTaskStatus.requeued = true
is_assignable _ = false

abbrev pub same_phase : HaulExecutionPhase → HaulExecutionPhase → Bool
same_phase HaulExecutionPhase.navigating_to_pickup HaulExecutionPhase.navigating_to_pickup = true
same_phase HaulExecutionPhase.pickup HaulExecutionPhase.pickup = true
same_phase HaulExecutionPhase.navigating_to_dropoff HaulExecutionPhase.navigating_to_dropoff = true
same_phase HaulExecutionPhase.dropoff HaulExecutionPhase.dropoff = true
same_phase HaulExecutionPhase.idle HaulExecutionPhase.idle = true
same_phase HaulExecutionPhase.succeeded HaulExecutionPhase.succeeded = true
same_phase HaulExecutionPhase.failed HaulExecutionPhase.failed = true
same_phase HaulExecutionPhase.canceled HaulExecutionPhase.canceled = true
same_phase HaulExecutionPhase.requeued HaulExecutionPhase.requeued = true
same_phase _ _ = false

unfoldable pub require_phase : HaulExecutionPhase → Step ⊤
require_phase phase = do
  s ← reads (λ h. h.snapshot)
  raise_if (not (same_phase s.execution_phase phase)) invalid_lifecycle_transition

unfoldable pub fail : Reason → Step HaulTaskSnapshot
fail reason = do
  s ← reads (λ h. h.snapshot)
  when (not (is_terminal_phase s.execution_phase))
      (set_execution_phase HaulExecutionPhase.failed (some reason) none)
  when (not (is_terminal_status s.wms_status)) (do
    raise_if (is_pending s.wms_status) invalid_lifecycle_transition
    set_wms_status WmsTaskStatus.failed (some reason))
  give_up AssignmentStatus.failed
  reads (λ h. h.snapshot)

unfoldable pub cancel : Reason → Step HaulTaskSnapshot
cancel reason = do
  s ← reads (λ h. h.snapshot)
  raise_if s.pickup_completed invalid_lifecycle_transition
  set_execution_phase HaulExecutionPhase.canceled (some reason) none
  set_wms_status WmsTaskStatus.canceled (some reason)
  give_up AssignmentStatus.canceled
  reads (λ h. h.snapshot)

unfoldable pub requeue : Reason → Step HaulTaskSnapshot
requeue reason = do
  s ← reads (λ h. h.snapshot)
  raise_if s.pickup_completed invalid_lifecycle_transition
  set_execution_phase HaulExecutionPhase.requeued (some reason) none
  set_wms_status WmsTaskStatus.requeued (some reason)
  give_up AssignmentStatus.released
  replace (λ s. record s { robot_id = none })
  emit "TASK_REQUEUED" (some reason)
  reads (λ h. h.snapshot)
