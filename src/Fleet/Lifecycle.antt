-- ===== src/Fleet/Lifecycle.antt =====
-- amr_warehouse_sim/fleet/task_lifecycle.py: the statuses of a haul task, the phases of its
-- execution, their transition tables, and the snapshot of a haul.
use amr_warehouse_navigation.Common.{Bool, true, false, not, Option, String, ℕ, ⊤, Method, raise_if}
use amr_warehouse_navigation.Fleet.Errors.{Error, invalid_lifecycle_transition}
use amr_warehouse_navigation.Fleet.Events.{Reason}
use amr_warehouse_navigation.Fleet.Assignment.{AssignmentStatus}

pub data WmsTaskStatus : Type 0 where
  pending assigned in_progress succeeded failed canceled requeued : WmsTaskStatus

pub data HaulExecutionPhase : Type 0 where
  idle navigating_to_pickup pickup navigating_to_dropoff dropoff : HaulExecutionPhase
  succeeded failed canceled requeued : HaulExecutionPhase

-- `TERMINAL_WMS_STATUSES`
abbrev pub is_terminal_status : WmsTaskStatus → Bool
is_terminal_status WmsTaskStatus.succeeded = true
is_terminal_status WmsTaskStatus.failed = true
is_terminal_status WmsTaskStatus.canceled = true
is_terminal_status _ = false

-- `TERMINAL_EXECUTION_PHASES`
abbrev pub is_terminal_phase : HaulExecutionPhase → Bool
is_terminal_phase HaulExecutionPhase.succeeded = true
is_terminal_phase HaulExecutionPhase.failed = true
is_terminal_phase HaulExecutionPhase.canceled = true
is_terminal_phase HaulExecutionPhase.requeued = true
is_terminal_phase _ = false

-- `target in ALLOWED_WMS_TRANSITIONS[current]`
abbrev pub wms_allowed : WmsTaskStatus → WmsTaskStatus → Bool
wms_allowed WmsTaskStatus.pending WmsTaskStatus.assigned = true
wms_allowed WmsTaskStatus.pending WmsTaskStatus.canceled = true
wms_allowed WmsTaskStatus.assigned WmsTaskStatus.in_progress = true
wms_allowed WmsTaskStatus.assigned WmsTaskStatus.canceled = true
wms_allowed WmsTaskStatus.assigned WmsTaskStatus.requeued = true
wms_allowed WmsTaskStatus.assigned WmsTaskStatus.failed = true
wms_allowed WmsTaskStatus.in_progress WmsTaskStatus.succeeded = true
wms_allowed WmsTaskStatus.in_progress WmsTaskStatus.failed = true
wms_allowed WmsTaskStatus.in_progress WmsTaskStatus.canceled = true
wms_allowed WmsTaskStatus.in_progress WmsTaskStatus.requeued = true
wms_allowed WmsTaskStatus.requeued WmsTaskStatus.assigned = true
wms_allowed WmsTaskStatus.requeued WmsTaskStatus.canceled = true
wms_allowed _ _ = false

-- `target in ALLOWED_EXECUTION_TRANSITIONS[current]`
abbrev pub phase_allowed : HaulExecutionPhase → HaulExecutionPhase → Bool
phase_allowed HaulExecutionPhase.idle HaulExecutionPhase.navigating_to_pickup = true
phase_allowed HaulExecutionPhase.idle HaulExecutionPhase.failed = true
phase_allowed HaulExecutionPhase.idle HaulExecutionPhase.canceled = true
phase_allowed HaulExecutionPhase.idle HaulExecutionPhase.requeued = true
phase_allowed HaulExecutionPhase.navigating_to_pickup HaulExecutionPhase.pickup = true
phase_allowed HaulExecutionPhase.navigating_to_pickup HaulExecutionPhase.failed = true
phase_allowed HaulExecutionPhase.navigating_to_pickup HaulExecutionPhase.canceled = true
phase_allowed HaulExecutionPhase.navigating_to_pickup HaulExecutionPhase.requeued = true
phase_allowed HaulExecutionPhase.pickup HaulExecutionPhase.navigating_to_dropoff = true
phase_allowed HaulExecutionPhase.pickup HaulExecutionPhase.failed = true
phase_allowed HaulExecutionPhase.pickup HaulExecutionPhase.canceled = true
phase_allowed HaulExecutionPhase.navigating_to_dropoff HaulExecutionPhase.dropoff = true
phase_allowed HaulExecutionPhase.navigating_to_dropoff HaulExecutionPhase.failed = true
phase_allowed HaulExecutionPhase.navigating_to_dropoff HaulExecutionPhase.canceled = true
phase_allowed HaulExecutionPhase.dropoff HaulExecutionPhase.succeeded = true
phase_allowed HaulExecutionPhase.dropoff HaulExecutionPhase.failed = true
phase_allowed HaulExecutionPhase.dropoff HaulExecutionPhase.canceled = true
phase_allowed HaulExecutionPhase.requeued HaulExecutionPhase.idle = true
phase_allowed _ _ = false

-- `COARSE_MOCK_WMS_STATUS`
unfoldable pub coarse_status : WmsTaskStatus → String
coarse_status WmsTaskStatus.pending = "pending"
coarse_status WmsTaskStatus.assigned = "running"
coarse_status WmsTaskStatus.in_progress = "running"
coarse_status WmsTaskStatus.succeeded = "succeeded"
coarse_status WmsTaskStatus.failed = "failed"
coarse_status WmsTaskStatus.canceled = "canceled"
coarse_status WmsTaskStatus.requeued = "pending"

abbrev pub assert_wms_transition_allowed :
    {S : Type 0} → WmsTaskStatus → WmsTaskStatus → Method Error S ⊤
assert_wms_transition_allowed current target =
    raise_if (not (wms_allowed current target)) invalid_lifecycle_transition

abbrev pub assert_execution_transition_allowed :
    {S : Type 0} → HaulExecutionPhase → HaulExecutionPhase → Method Error S ⊤
assert_execution_transition_allowed current target =
    raise_if (not (phase_allowed current target)) invalid_lifecycle_transition

pub record HaulTaskSnapshot : Type 0 where
  pub task_id : ℕ
  pub pickup_station : String
  pub dropoff_station : String
  pub priority : String
  pub wms_status : WmsTaskStatus
  pub assignment_status : Option AssignmentStatus
  pub execution_phase : HaulExecutionPhase
  pub robot_id : Option String
  pub pickup_completed : Bool
  pub reason : Option Reason
