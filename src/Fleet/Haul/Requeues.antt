-- ===== src/Fleet/Haul/Requeues.antt =====
-- Requeueing and canceling a haul: what is refused, and what a refused call leaves behind.
use amr_warehouse_navigation.Common.{
  true, false, ◌≡◌, refl, none, some, ◌==◌, string_key, ℕ, ◌||◌, raised, arith, inr,
}
use amr_warehouse_navigation.Common.Int.{ℤ}
use amr_warehouse_navigation.Fleet.Errors.{invalid_lifecycle_transition, no_available_robot}
use amr_warehouse_navigation.Fleet.Events.{Reason}
use amr_warehouse_navigation.Fleet.Stations.{Config}
use amr_warehouse_navigation.Fleet.Tasks.{new_dispatch_task}
use amr_warehouse_navigation.Fleet.Dispatcher.{get_assignment_for_task, select_robot}
use amr_warehouse_navigation.Fleet.Dispatcher.Assigning.{dispatch_refused}
use amr_warehouse_navigation.Fleet.Lifecycle.{WmsTaskStatus, HaulExecutionPhase}
use amr_warehouse_navigation.Fleet.Haul.{Haul, set_execution_phase, cancel, requeue}
use amr_warehouse_navigation.Fleet.Haul.Run.{dispatch_view, haul_terms, take_robot, assign}

-- At the pickup station a haul cannot be requeued, whether or not its load is on board: the call
-- raises and changes nothing.
pub requeue_at_pickup :
    (reason : Reason) (h : Haul)
    → h.snapshot.execution_phase ≡ HaulExecutionPhase.pickup
    → requeue reason h ≡ (raised invalid_lifecycle_transition, h)
unfolding requeue set_execution_phase
requeue_at_pickup reason h at = ground arith

-- A haul in phase REQUEUED cannot be canceled, whatever its WMS status: the call raises and changes
-- nothing.
pub cancel-requeued :
    (reason : Reason) (h : Haul)
    → h.snapshot.execution_phase ≡ HaulExecutionPhase.requeued
    → cancel reason h ≡ (raised invalid_lifecycle_transition, h)
unfolding cancel set_execution_phase
cancel-requeued reason h at = ground arith

-- A haul that is REQUEUED but whose phase is IDLE again refuses every `assign`, unchanged.
idle_refuses_assign :
    (config : Config) (now : ℕ) (timeout : ℤ) (h : Haul)
    → h.snapshot.wms_status ≡ WmsTaskStatus.requeued
    → h.snapshot.execution_phase ≡ HaulExecutionPhase.idle
    → assign config now timeout h ≡ (raised invalid_lifecycle_transition, h)
unfolding assign set_execution_phase
idle_refuses_assign config now timeout h w p = ground arith

-- The haul after `assign` has reset the phase.
abbrev pub reset : Haul → Haul
reset h = record h {
  snapshot = record (h.snapshot) {
    execution_phase = HaulExecutionPhase.idle;
    reason = some (Reason.text "Reset execution after requeue.");
    pickup_completed = false;
  };
}

take_robot_nobody :
    (config : Config) (now : ℕ) (timeout : ℤ) (h : Haul)
    → ((h.snapshot.priority == "normal") || (h.snapshot.priority == "high")) ≡ true
    → get_assignment_for_task h.snapshot.task_id h.dispatcher ≡ none
    → select_robot config (haul_terms now timeout) (dispatch_view h.snapshot) h.dispatcher.registry
      ≡ none
    → take_robot config now timeout h ≡ (raised no_available_robot, h)
unfolding take_robot new_dispatch_task
take_robot_nobody config now timeout h ok free nobody = ground (
  arith,
  dispatch_refused config (haul_terms now timeout) (dispatch_view h.snapshot) h.dispatcher
      (inr (free, nobody)),
)

-- When a requeued haul that has a valid priority and no active assignment is to be assigned again
-- and no robot can take it, `assign` raises `NoAvailableRobotError` after it has already reset the
-- phase to IDLE. In the state that is left every `assign`, at any time, raises
-- `InvalidLifecycleTransitionError` and changes nothing.
pub reassign_wedges :
    (config : Config) (now later : ℕ) (timeout timeout' : ℤ) (h : Haul)
    → h.snapshot.wms_status ≡ WmsTaskStatus.requeued
    → h.snapshot.execution_phase ≡ HaulExecutionPhase.requeued
    → ((h.snapshot.priority == "normal") || (h.snapshot.priority == "high")) ≡ true
    → get_assignment_for_task h.snapshot.task_id h.dispatcher ≡ none
    → select_robot config (haul_terms now timeout) (dispatch_view h.snapshot) h.dispatcher.registry
      ≡ none
    → (assign config now timeout h ≡ (raised no_available_robot, reset h))
      × (assign config later timeout' (reset h) ≡ (raised invalid_lifecycle_transition, reset h))
unfolding assign set_execution_phase
reassign_wedges config now later timeout timeout' h w p ok free nobody = (
  ground (arith, take_robot_nobody config now timeout (reset h) ok free nobody),
  idle_refuses_assign config later timeout' (reset h) w refl,
)
