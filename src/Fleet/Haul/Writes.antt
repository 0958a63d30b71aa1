-- ===== src/Fleet/Haul/Writes.antt =====
-- The writes that the methods of `HaulTaskController` share, and `fail`, `cancel` and `requeue`,
-- move a haul along its tables.
use amr_warehouse_navigation.Common.{
  Bool, not, refl, Option, none, some, String, string_key, is_some, ⊤, pure, Bool-cases, inl, inr,
}
use amr_warehouse_navigation.Fleet.Errors.{invalid_lifecycle_transition}
use amr_warehouse_navigation.Fleet.Events.{Reason}
use amr_warehouse_navigation.Fleet.Assignment.{AssignmentStatus}
use amr_warehouse_navigation.Fleet.Dispatcher.{
  emit_event, set_assignment_status, get_assignment_record,
}
use amr_warehouse_navigation.Fleet.Lifecycle.{
  WmsTaskStatus, HaulExecutionPhase, HaulTaskSnapshot, wms_allowed, phase_allowed,
  is_terminal_status, is_terminal_phase,
}
use amr_warehouse_navigation.Fleet.Haul.{
  Haul, Step, in_registry, replace, is_held, is_pending, release_known, emit, set_wms_status,
  set_execution_phase, sync_assignment_status, release_robot, give_up, fail, cancel, requeue,
}
use amr_warehouse_navigation.Fleet.Haul.Legal.{
  Legal, Legal-refl, LegalStep, then_legal, next_legal, reads_legal, pure_legal, raise_if_legal,
  in_dispatcher_legal, when_legal, if_legal, snapshot_legal, legal, stay, move,
}

pub emit_legal : (event : String) (reason : Option Reason) → LegalStep (emit event reason)
unfolding emit
emit_legal event reason = then_legal snapshot_legal λ s.
    next_legal (in_dispatcher_legal (emit_event event (some s.task_id) s.robot_id reason none))
      (pure_legal tt)

pub set_wms_status_legal :
    (target : WmsTaskStatus) (reason : Option Reason) → LegalStep (set_wms_status target reason)
unfolding set_wms_status
set_wms_status_legal target reason = legal λ h.
    elim (Bool-cases (wms_allowed h.snapshot.wms_status target)) [
      | inl e ↦
          rw (e, set_wms_status)
            (record {
              same_task = refl;
              same_pickup = refl;
              same_dropoff = refl;
              status_moves = move stay e;
              phase_moves = stay;
            })
      | inr e ↦ rw (e, set_wms_status) (Legal-refl h.snapshot)
    ]

pub set_execution_phase_legal :
    (target : HaulExecutionPhase) (reason : Option Reason) (loaded : Option Bool)
    → LegalStep (set_execution_phase target reason loaded)
unfolding set_execution_phase
set_execution_phase_legal target reason loaded = legal λ h.
    elim (Bool-cases (phase_allowed h.snapshot.execution_phase target)) [
      | inl e ↦
          rw (e, set_execution_phase)
            (record {
              same_task = refl;
              same_pickup = refl;
              same_dropoff = refl;
              status_moves = stay;
              phase_moves = move stay e;
            })
      | inr e ↦ rw (e, set_execution_phase) (Legal-refl h.snapshot)
    ]

-- The fields that `Legal` does not speak of.
pub other_fields :
    (s : HaulTaskSnapshot) (i : Option String) (a : Option AssignmentStatus)
    → Legal s (record s { robot_id = i; assignment_status = a })
other_fields s i a = record {
  same_task = refl;
  same_pickup = refl;
  same_dropoff = refl;
  status_moves = stay;
  phase_moves = stay;
}

pub replace-Legal :
    (f : HaulTaskSnapshot → HaulTaskSnapshot)
    → ((s : HaulTaskSnapshot) → Legal s (f s))
    → LegalStep (replace f)
replace-Legal f p = legal λ h. p h.snapshot

pub sync_legal : (status : AssignmentStatus) → LegalStep (sync_assignment_status status)
unfolding sync_assignment_status
sync_legal status = then_legal snapshot_legal λ s.
    then_legal (reads_legal (λ h. get_assignment_record s.task_id h.dispatcher)) λ found.
      if_legal (not (is_some found))
        (replace-Legal (λ s. record s { assignment_status = some status })
          (λ s. other_fields s s.robot_id (some status)))
        (then_legal (in_dispatcher_legal (set_assignment_status s.task_id status none)) λ updated.
          replace-Legal (λ s. record s { assignment_status = some updated.status })
            (λ s. other_fields s s.robot_id (some updated.status)))

pub release_robot_legal : LegalStep release_robot
unfolding release_robot
release_robot_legal = legal λ h. by_robot h h.snapshot.robot_id
  where
    by_robot :
        (h : Haul) (o : Option String)
        → Legal h.snapshot
            (elim o as (λ _. Step ⊤) [
              | none ↦ pure tt
              | some robot_id ↦ in_registry (release_known robot_id)
            ]
              h).1.snapshot
    by_robot h none = Legal-refl h.snapshot
    by_robot h (some i) = Legal-refl h.snapshot

give_up_legal : (status : AssignmentStatus) → LegalStep (give_up status)
unfolding give_up
give_up_legal status = then_legal snapshot_legal λ s.
    next_legal (when_legal (is_held s.assignment_status) (sync_legal status)) release_robot_legal

pub fail_legal : (reason : Reason) → LegalStep (fail reason)
unfolding fail
fail_legal reason = then_legal snapshot_legal λ s.
    next_legal
      (when_legal (not (is_terminal_phase s.execution_phase))
        (set_execution_phase_legal HaulExecutionPhase.failed (some reason) none))
      (next_legal
        (when_legal (not (is_terminal_status s.wms_status)) (
          next_legal (raise_if_legal (is_pending s.wms_status) invalid_lifecycle_transition)
            (set_wms_status_legal WmsTaskStatus.failed (some reason))))
        (next_legal (give_up_legal AssignmentStatus.failed) snapshot_legal))

pub cancel_legal : (reason : Reason) → LegalStep (cancel reason)
unfolding cancel
cancel_legal reason = then_legal snapshot_legal λ s.
    next_legal (raise_if_legal s.pickup_completed invalid_lifecycle_transition) (
      next_legal (set_execution_phase_legal HaulExecutionPhase.canceled (some reason) none) (
        next_legal (set_wms_status_legal WmsTaskStatus.canceled (some reason))
          (next_legal (give_up_legal AssignmentStatus.canceled) snapshot_legal)))

pub requeue_legal : (reason : Reason) → LegalStep (requeue reason)
unfolding requeue
requeue_legal reason = then_legal snapshot_legal λ s.
    next_legal (raise_if_legal s.pickup_completed invalid_lifecycle_transition) (
      next_legal (set_execution_phase_legal HaulExecutionPhase.requeued (some reason) none) (
        next_legal (set_wms_status_legal WmsTaskStatus.requeued (some reason)) (
          next_legal (give_up_legal AssignmentStatus.released) (
            next_legal
              (replace-Legal (λ s. record s { robot_id = none })
                (λ s. other_fields s none s.assignment_status))
              (next_legal (emit_legal "TASK_REQUEUED" (some reason)) snapshot_legal)))))
