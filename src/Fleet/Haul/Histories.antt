-- ===== src/Fleet/Haul/Histories.antt =====
-- The methods of `HaulTaskController` that take a haul forward, and histories of all its methods.
use amr_warehouse_navigation.Common.{
  Bool, false, not, ◌≡◌, refl, none, some, String, ℕ, List, [], ◌∷◌, Outcome, subst, arith, true,
}
use amr_warehouse_navigation.Common.Int.{ℤ}
use amr_warehouse_navigation.Fleet.Errors.{Error, invalid_lifecycle_transition}
use amr_warehouse_navigation.Fleet.RobotState.{RobotState, same_state}
use amr_warehouse_navigation.Fleet.Registry.{get_robot, mark_busy, set_current_station}
use amr_warehouse_navigation.Fleet.Events.{Reason}
use amr_warehouse_navigation.Fleet.Assignment.{AssignmentStatus, AssignmentRecord}
use amr_warehouse_navigation.Fleet.Stations.{Config}
use amr_warehouse_navigation.Fleet.Tasks.{new_dispatch_task}
use amr_warehouse_navigation.Fleet.Dispatcher.{assign_task}
use amr_warehouse_navigation.Fleet.Lifecycle.{
  WmsTaskStatus, HaulExecutionPhase, wms_allowed, is_terminal_status,
}
use amr_warehouse_navigation.Fleet.Haul.{
  Haul, same_phase, require_phase, is_requeued, is_assignable,
}
use amr_warehouse_navigation.Fleet.Haul.Run.{
  Contexts, context_for, dispatch_view, lift, haul_terms, take_robot, bind_robot, assign,
  start_robot, start, navigate, arrive, complete_navigation_to_pickup, complete_pickup,
  complete_navigation_to_dropoff, complete_dropoff,
}
use amr_warehouse_navigation.Fleet.Haul.Legal.{
  HaulCall, run_haul, Legal, Moves, stay, move, Legal-trans, LegalStep, legal, Legal-run,
  then_legal, next_legal, snapshot_legal, raise_if_legal, require_legal, in_dispatcher_legal,
  in_registry_legal, when_legal, if_legal, Legal-refl,
}
use amr_warehouse_navigation.Fleet.Haul.Writes.{
  emit_legal, set_wms_status_legal, set_execution_phase_legal, sync_legal, release_robot_legal,
  fail_legal, cancel_legal, requeue_legal, other_fields, replace-Legal,
}

bind_robot_legal : (again : Bool) (a : AssignmentRecord) → LegalStep (bind_robot again a)
unfolding bind_robot
bind_robot_legal again a =
    next_legal
      (replace-Legal
        (λ s. record s { robot_id = some a.robot_id; assignment_status = some a.status })
        (λ s. other_fields s (some a.robot_id) (some a.status)))
      (next_legal (set_wms_status_legal WmsTaskStatus.assigned (some a.dispatch_reason)) (
        next_legal
          (when_legal again
            (emit_legal "TASK_REASSIGNED" (some (Reason.about "reassigned to" a.robot_id))))
          snapshot_legal))

lift_legal : {A : Type 0} (r : Outcome Error A) → LegalStep (lift r)
lift_legal r = legal λ h. Legal-refl h.snapshot

take_robot_legal :
    (config : Config) (now : ℕ) (timeout : ℤ) → LegalStep (take_robot config now timeout)
unfolding take_robot
take_robot_legal config now timeout = then_legal snapshot_legal λ s.
    then_legal {m = lift (new_dispatch_task (dispatch_view s))}
      (lift_legal (new_dispatch_task (dispatch_view s)))
      λ task. in_dispatcher_legal (assign_task config (haul_terms now timeout) task)

assign_legal : (config : Config) (now : ℕ) (timeout : ℤ) → LegalStep (assign config now timeout)
unfolding assign
assign_legal config now timeout = then_legal snapshot_legal λ s.
    next_legal (raise_if_legal (not (is_assignable s.wms_status)) invalid_lifecycle_transition) (
      next_legal
        (when_legal (is_requeued s.wms_status) (
          set_execution_phase_legal HaulExecutionPhase.idle
            (some (Reason.text "Reset execution after requeue.")) (some false)))
        (then_legal (take_robot_legal config now timeout)
          λ a. bind_robot_legal (is_requeued s.wms_status) a))

start_robot_legal : (i : String) → LegalStep (start_robot i)
unfolding start_robot
start_robot_legal i = then_legal (in_registry_legal (get_robot i)) λ robot.
    when_legal (same_state robot.state RobotState.assigned) (
      next_legal (in_registry_legal (mark_busy i))
        (emit_legal "ROBOT_BUSY" (some (Reason.text "Haul navigation started."))))

start_legal : LegalStep start
unfolding start
start_legal = then_legal snapshot_legal λ s.
    then_legal (require_legal invalid_lifecycle_transition s.robot_id) λ i.
      next_legal
        (set_wms_status_legal WmsTaskStatus.in_progress
          (some (Reason.text "Haul execution started.")))
        (next_legal (sync_legal AssignmentStatus.executing) (
          next_legal
            (set_execution_phase_legal HaulExecutionPhase.navigating_to_pickup
              (some (Reason.about "Navigate to pickup" s.pickup_station)) none)
            (next_legal (emit_legal "NAV_STARTED" (some (Reason.about "target" s.pickup_station)))
              (next_legal (start_robot_legal i) snapshot_legal))))

require_phase_legal : (phase : HaulExecutionPhase) → LegalStep (require_phase phase)
unfolding require_phase
require_phase_legal phase =
    then_legal snapshot_legal
      λ s. raise_if_legal (not (same_phase s.execution_phase phase)) invalid_lifecycle_transition

navigate_legal : (contexts : Contexts) (failing : Bool) → LegalStep (navigate contexts failing)
unfolding navigate
navigate_legal contexts failing = then_legal snapshot_legal λ s.
    then_legal (require_legal invalid_lifecycle_transition s.robot_id)
      λ i. in_registry_legal (context_for contexts i failing)

arrive_legal :
    (phase : HaulExecutionPhase) (reason : Reason) (station : String)
    → LegalStep (arrive phase reason station)
unfolding arrive
arrive_legal phase reason station = then_legal snapshot_legal λ s.
    then_legal (require_legal invalid_lifecycle_transition s.robot_id) λ i.
      next_legal (in_registry_legal (set_current_station i station)) (
        next_legal (set_execution_phase_legal phase (some reason) none) (
          next_legal (emit_legal "NAV_SUCCEEDED" (some (Reason.about "arrived" station)))
            snapshot_legal))

to_pickup_legal :
    (contexts : Contexts) (failing : Bool)
    → LegalStep (complete_navigation_to_pickup contexts failing)
unfolding complete_navigation_to_pickup
to_pickup_legal contexts failing =
    next_legal (require_phase_legal HaulExecutionPhase.navigating_to_pickup) (
      then_legal snapshot_legal λ s. then_legal (navigate_legal contexts failing) λ result.
        if_legal (not result.succeeded) (fail_legal result.reason) (
          arrive_legal HaulExecutionPhase.pickup
            (Reason.text "Arrived at pickup; simulating acknowledgement.") s.pickup_station))

to_dropoff_legal :
    (contexts : Contexts) (failing : Bool)
    → LegalStep (complete_navigation_to_dropoff contexts failing)
unfolding complete_navigation_to_dropoff
to_dropoff_legal contexts failing =
    next_legal (require_phase_legal HaulExecutionPhase.navigating_to_dropoff) (
      then_legal snapshot_legal λ s. then_legal (navigate_legal contexts failing) λ result.
        if_legal (not result.succeeded) (fail_legal result.reason) (
          arrive_legal HaulExecutionPhase.dropoff
            (Reason.text "Arrived at dropoff; simulating acknowledgement.") s.dropoff_station))

complete_pickup_legal : LegalStep complete_pickup
unfolding complete_pickup
complete_pickup_legal = next_legal (require_phase_legal HaulExecutionPhase.pickup) (
    then_legal snapshot_legal λ s.
      next_legal
        (set_execution_phase_legal HaulExecutionPhase.navigating_to_dropoff
          (some (Reason.text "Pickup acknowledged; navigating to dropoff.")) (some true))
        (next_legal (emit_legal "NAV_STARTED" (some (Reason.about "target" s.dropoff_station)))
          snapshot_legal))

complete_dropoff_legal : LegalStep complete_dropoff
unfolding complete_dropoff
complete_dropoff_legal = next_legal (require_phase_legal HaulExecutionPhase.dropoff) (
    next_legal
      (set_execution_phase_legal HaulExecutionPhase.succeeded
        (some (Reason.text "Dropoff acknowledged.")) none)
      (next_legal
        (set_wms_status_legal WmsTaskStatus.succeeded (some (Reason.text "Haul task succeeded.")))
        (next_legal (sync_legal AssignmentStatus.completed) (
          next_legal release_robot_legal (
            next_legal
              (emit_legal "TASK_SUCCEEDED" (some (Reason.text "pickup/dropoff haul completed.")))
              snapshot_legal)))))

module _ (config : Config) (contexts : Contexts) where
  run_haul_legal : (c : HaulCall) → LegalStep (run_haul config contexts c)
  unfolding run_haul
  run_haul_legal (HaulCall.assigns now timeout) = assign_legal config now timeout
  run_haul_legal HaulCall.starts = start_legal
  run_haul_legal HaulCall.acknowledges_pickup = complete_pickup_legal
  run_haul_legal HaulCall.acknowledges_dropoff = complete_dropoff_legal
  run_haul_legal (HaulCall.reaches_pickup failing) = to_pickup_legal contexts failing
  run_haul_legal (HaulCall.reaches_dropoff failing) = to_dropoff_legal contexts failing
  run_haul_legal (HaulCall.fails reason) = fail_legal reason
  run_haul_legal (HaulCall.cancels reason) = cancel_legal reason
  run_haul_legal (HaulCall.requeues reason) = requeue_legal reason

  -- One method after another on the same haul, whether they return or raise.
  unfoldable pub run_hauls : List HaulCall → Haul → Haul
  run_hauls [] h = h
  run_hauls (c ∷ cs) h = run_hauls cs (run_haul config contexts c h).1

  -- Whatever methods are called, in whatever order, and whether they return or raise, the task and
  -- its stations stay, and its status and its phase move along their tables alone.
  pub run_hauls-Legal : (cs : List HaulCall) (h : Haul) → Legal h.snapshot (run_hauls cs h).snapshot
  unfolding run_hauls
  run_hauls-Legal [] h = Legal-refl h.snapshot
  run_hauls-Legal (c ∷ cs) h =
      Legal-trans (Legal-run (run_haul_legal c) h)
        (run_hauls-Legal cs (run_haul config contexts c h).1)

terminal_step : (a b : WmsTaskStatus) → is_terminal_status a ≡ true → wms_allowed a b ≡ true → ⊥
terminal_step a b over e = ground arith

terminal_stays : {a b : WmsTaskStatus} → is_terminal_status a ≡ true → Moves wms_allowed a b → b ≡ a
terminal_stays over stay = refl
terminal_stays {a} over (move {b} {c} m e) =
    absurd (terminal_step a c over (subst (λ x. wms_allowed x c ≡ true) (terminal_stays over m) e))

-- SUCCEEDED, FAILED and CANCELED are final: no history of methods changes such a status.
pub terminal_forever :
    (config : Config) (contexts : Contexts) (cs : List HaulCall) (h : Haul)
    → is_terminal_status h.snapshot.wms_status ≡ true
    → (run_hauls config contexts cs h).snapshot.wms_status ≡ h.snapshot.wms_status
terminal_forever config contexts cs h over =
    terminal_stays over (run_hauls-Legal config contexts cs h).status_moves
