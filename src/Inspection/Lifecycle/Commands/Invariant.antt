-- ===== src/Inspection/Lifecycle/Commands/Invariant.antt =====
-- Every call keeps the invariant of the controller.
use amr_warehouse_navigation.Common.{
  Bool, true, false, ◌≡◌, refl, ap, List, [], ◌∷◌, ◌++◌, String, ◌+◌, if◌then◌else◌, arith, length,
  returned,
}
use amr_warehouse_navigation.Inspection.Models.{InspectionTask}
use amr_warehouse_navigation.Inspection.Lifecycle.{
  Phase, is_retryable, PointAttempt, Controller, fresh_controller, edits, observed,
}
use amr_warehouse_navigation.Inspection.Lifecycle.Commands.{
  start_navigation, record_navigation_result, confirm_arrival, complete_stabilization,
  record_observation, record_sensor_failure, validate_at, evaluate_at, validate_observation,
  evaluation_of, evaluate, keeps_evidence, store_evidence, persist_evidence, finish_point,
  complete_point, complete_run, next_attempt, retry_point, is_cancelable, cancel, begin_navigation,
  with_navigation, with_arrival, with_stabilization, with_reading, without_reading, end_run,
  with_cancellation, Command, perform, after_commands,
}
use amr_warehouse_navigation.Inspection.Lifecycle.Commands.Sound.{
  Attested, History-snoc, Sound, fresh-Sound, ended_keeps, guarded_keeps, in_phase_keeps,
  observed_keeps, with_quality_keeps, store_evaluation_keeps, store_evidence_keeps,
  finish_point_keeps,
}

-- An attempt that fails keeps what has been attested before.
branch_keeps :
    (c : Controller) (ok : Bool) (good bad : Phase) (a : PointAttempt)
    → (ok ≡ true → Attested c.run_id c.robot_id c.task a good)
    → Attested c.run_id c.robot_id c.task a bad
    → Attested c.run_id c.robot_id c.task a (if ok then good else bad)
branch_keeps c true good bad a y n = y refl
branch_keeps c false good bad a y n = n

length-snoc : {A : Type 0} (xs : List A) (x : A) → 1 + length (xs ++ x ∷ []) ≡ length xs + 2
length-snoc [] x = refl
length-snoc (y ∷ xs) x = omega (arith, length-snoc xs x)

retry_keeps :
    (c : Controller) → Sound c → is_retryable c.attempt.phase ≡ true → Sound (next_attempt c)
retry_keeps c sound ready =
    let next : c.attempt.attempt_number + 1 ≡ 1 + length (c.completed_attempts ++ c.attempt ∷ []) =
      omega (arith, sound.1.0, length-snoc c.completed_attempts c.attempt) in
    (
      History-snoc c.run_id c.robot_id c.task 1 c.completed_attempts c.attempt sound.0 sound.1
          ready,
      (
        next,
        ap (λ n. record { run_id = c.run_id; point_id = c.task.point.point_id; number = n }) next,
        tt,
        tt,
      ),
    )

perform-Sound : (command : Command) (c : Controller) → Sound c → Sound (perform command c).1
unfolding perform start_navigation record_navigation_result confirm_arrival complete_stabilization
    record_observation record_sensor_failure validate_observation evaluate persist_evidence
    complete_point complete_run retry_point cancel
perform-Sound Command.start c sound = ended_keeps (start_navigation c) (
    in_phase_keeps Phase.idle (edits (begin_navigation)) c sound
      (λ here past. (sound.0, (sound.1.0, sound.1.1, sound.1.2, tt))))
perform-Sound (Command.navigated ok reason) c sound =
    ended_keeps (record_navigation_result ok reason c) (
      in_phase_keeps Phase.navigating (edits (with_navigation ok reason)) c sound (λ here past. (
        sound.0,
        (
          sound.1.0,
          sound.1.1,
          sound.1.2,
          branch_keeps c ok Phase.arrived Phase.navigation_failed
              (with_navigation ok reason c.attempt) (λ good. good) tt,
        ),
      )))
perform-Sound (Command.arrive ok reason) c sound = ended_keeps (confirm_arrival ok reason c) (
    in_phase_keeps Phase.arrived (edits (with_arrival ok reason)) c sound (λ here past. (
      sound.0,
      (
        sound.1.0,
        sound.1.1,
        sound.1.2,
        branch_keeps c ok Phase.stabilizing Phase.inspection_failed
            (with_arrival ok reason c.attempt) (λ good. (past, good)) past,
      ),
    )))
perform-Sound (Command.stabilize ok reason) c sound =
    ended_keeps (complete_stabilization ok reason c) (
      in_phase_keeps Phase.stabilizing (edits (with_stabilization ok reason)) c sound (λ here past.
        (
          sound.0,
          (
            sound.1.0,
            sound.1.1,
            sound.1.2,
            branch_keeps c ok Phase.acquiring Phase.inspection_failed
                (with_stabilization ok reason c.attempt) (λ good. (past, good)) past.0,
          ),
        )))
perform-Sound (Command.observe o) c sound = ended_keeps (record_observation o c) (
    in_phase_keeps Phase.acquiring (edits (with_reading o)) c sound
      (λ here past. (sound.0, (sound.1.0, sound.1.1, sound.1.2, past))))
perform-Sound (Command.lose_sensor reason) c sound = ended_keeps (record_sensor_failure reason c) (
    in_phase_keeps Phase.acquiring (edits (without_reading reason)) c sound
      (λ here past. (sound.0, (sound.1.0, sound.1.1, sound.1.2, past))))
perform-Sound (Command.validate now) c sound = ended_keeps (validate_observation now c) (
    in_phase_keeps Phase.validating (observed (validate_at now)) c sound (λ here past.
      observed_keeps (validate_at now) c c.attempt.observation refl sound
        (λ o seen. with_quality_keeps c o now sound past seen)))
perform-Sound (Command.judge evaluator now) c sound = ended_keeps (evaluate evaluator now c) (
    in_phase_keeps Phase.evaluating (observed (evaluate_at evaluator now)) c sound (λ here past.
      observed_keeps (evaluate_at evaluator now) c c.attempt.observation refl sound
        (λ o seen. store_evaluation_keeps c (evaluation_of c evaluator now o) sound here past)))
perform-Sound (Command.persist e) c sound = ended_keeps (persist_evidence e c) (
    guarded_keeps keeps_evidence (store_evidence e) c sound
      (λ allowed. store_evidence_keeps c e sound))
perform-Sound Command.finish_the_point c sound = ended_keeps (complete_point c) (
    in_phase_keeps Phase.evaluating finish_point c sound
      (λ here past. finish_point_keeps c sound past))
perform-Sound Command.finish_the_run c sound = ended_keeps (complete_run c) (
    in_phase_keeps Phase.point_succeeded (edits (end_run)) c sound
      (λ here past. (sound.0, (sound.1.0, sound.1.1, sound.1.2, past))))
perform-Sound Command.retry c sound = ended_keeps (retry_point c) (
    guarded_keeps is_retryable (λ x. (returned tt, next_attempt x)) c sound
      (λ ready. retry_keeps c sound ready))
perform-Sound (Command.give_up reason) c sound = ended_keeps (cancel reason c) (
    guarded_keeps is_cancelable (edits (with_cancellation reason)) c sound
      (λ allowed. (sound.0, (sound.1.0, sound.1.1, sound.1.2, tt))))

kept-Sound :
    (commands : List Command) (c : Controller) → Sound c → Sound (after_commands commands c)
unfolding after_commands
kept-Sound [] c sound = sound
kept-Sound (command ∷ rest) c sound =
    kept-Sound rest ((perform command c).1) (perform-Sound command c sound)

-- Whatever is called on a new controller, in any order, its attempts are numbered from one, those
-- that are completed have failed in a way that allows another, and each attempt has what its phase
-- attests: one that succeeded was navigated to, accepted and stabilized, has a faithful observation
-- that passed, an evaluation for the item's maximum, and evidence.
pub after_commands-Sound :
    (run_id robot_id : String) (task : InspectionTask) (commands : List Command)
    → Sound (after_commands commands (fresh_controller run_id robot_id task))
after_commands-Sound run_id robot_id task commands =
    kept-Sound commands _ (fresh-Sound run_id robot_id task)
