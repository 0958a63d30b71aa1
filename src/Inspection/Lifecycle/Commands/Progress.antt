-- ===== src/Inspection/Lifecycle/Commands/Progress.antt =====
-- What a call on the controller changes, and the calls of an inspection that goes well.
use amr_warehouse_navigation.Common.{
  Bool, true, false, not, ◌≡◌, refl, sym, subst, ◌⊎◌, inl, inr, ⊤, Option, none, some, is_some,
  List, [], ◌∷◌, ◌++◌, String, ◌+◌, if◌then◌else◌, if_cases, Outcome, returned, raised,
}
use amr_warehouse_navigation.Common.Int.{ℤ}
use amr_warehouse_navigation.Inspection.Models.{
  InspectionError, bad_value, InspectionTask, MockObservation, ObservationQuality, passed,
  EvaluationResult, EvidenceReference, same_measure,
}
use amr_warehouse_navigation.Inspection.Lifecycle.{
  Phase, same_phase, is_retryable, PointAttempt, Controller, Step, new_attempt, fresh_controller,
  edit, edits, guarded, observed, with_observation,
}
use amr_warehouse_navigation.Inspection.Lifecycle.Commands.{
  start_navigation, record_navigation_result, confirm_arrival, complete_stabilization,
  record_observation, record_sensor_failure, judge_observation, with_quality, evaluation_of,
  validate_observation, evaluate, keeps_evidence, store_evaluation, store_evidence,
  persist_evidence, finish_point, complete_point, complete_run, next_attempt, retry_point,
  is_cancelable, cancel, Command, ended, perform, after_commands, is_contracted, is_complete,
  begin_navigation, with_navigation, with_arrival, with_stabilization, with_reading,
  without_reading, end_run, with_cancellation, validate_at, evaluate_at,
}

-- Evidence that is there stays.
abbrev KeepsEvidence : Option EvidenceReference → Option EvidenceReference → Type 0
KeepsEvidence none after = Unit
KeepsEvidence (some e) after = after ≡ some e

-- The same attempt, with the evidence that it had.
abbrev Continues : Controller → Controller → Type 0
Continues c c' =
    (c'.completed_attempts ≡ c.completed_attempts)
    × (c'.attempt.attempt_number ≡ c.attempt.attempt_number)
    × KeepsEvidence c.attempt.evidence_reference c'.attempt.evidence_reference

-- Another attempt after one that failed, which is kept as it was.
abbrev Retries : Controller → Controller → Type 0
Retries c c' =
    (is_retryable c.attempt.phase ≡ true)
    × (c'.completed_attempts ≡ c.completed_attempts ++ c.attempt ∷ [])
    × (c'.attempt ≡ new_attempt c.run_id c.task (c.attempt.attempt_number + 1))

-- What has become of a controller after a call, and whether the call returned.
abbrev pub Follows : Controller → Bool × Controller → Type 0
Follows c (false, c') = c' ≡ c
Follows c (true, c') =
    (c'.run_id ≡ c.run_id)
    × (c'.robot_id ≡ c.robot_id)
    × (c'.task ≡ c.task)
    × (Continues c c' ⊎ Retries c c')

KeepsEvidence-refl : (e : Option EvidenceReference) → KeepsEvidence e e
KeepsEvidence-refl none = tt
KeepsEvidence-refl (some e) = refl

-- An edit that leaves number and evidence alone.
edited :
    (f : PointAttempt → PointAttempt) (c : Controller)
    → (f c.attempt).attempt_number ≡ c.attempt.attempt_number
    → (f c.attempt).evidence_reference ≡ c.attempt.evidence_reference
    → Follows c (true, edit f c)
edited f c same kept = (
  refl,
  refl,
  refl,
  inl (
    refl,
    same,
    subst (KeepsEvidence c.attempt.evidence_reference) (sym kept)
        (KeepsEvidence-refl c.attempt.evidence_reference),
  ),
)

guarded-Follows :
    {A : Type 0} (test : Phase → Bool) (m : Step A) (c : Controller)
    → (test c.attempt.phase ≡ true → Follows c (ended (m c)))
    → Follows c (ended (guarded test m c))
guarded-Follows test m c h =
    if_cases (λ p. Follows c (ended p)) (test c.attempt.phase) (m c) _ h (λ other. refl)

observed-Follows :
    {A : Type 0} (f : MockObservation → Step A) (c : Controller) (seen : Option MockObservation)
    → ((o : MockObservation) → Follows c (ended (f o c)))
    → Follows c (ended (with_observation seen f c))
observed-Follows f c none h = refl
observed-Follows f c (some o) h = h o

no_evidence :
    (e : EvidenceReference) (stored : Option EvidenceReference)
    → is_some stored ≡ false
    → KeepsEvidence stored (some e)
no_evidence e none h = tt
no_evidence e (some e') h = cc

edited-Follows :
    (test : Phase → Bool) (f : PointAttempt → PointAttempt) (c : Controller)
    → (f c.attempt).attempt_number ≡ c.attempt.attempt_number
    → (f c.attempt).evidence_reference ≡ c.attempt.evidence_reference
    → Follows c (ended (guarded test (edits f) c))
edited-Follows test f c same kept = guarded-Follows test (edits f) c (λ here. edited f c same kept)

store_evaluation-Follows :
    (r : EvaluationResult) (c : Controller) → Follows c (ended (store_evaluation r c))
store_evaluation-Follows r c =
    if_cases (λ (p : Outcome InspectionError EvaluationResult × Controller). Follows c (ended p))
      (not (is_contracted c.task r)) _ _ (λ foreign. refl)
      (λ own. edited (λ a. record a { evaluation_result = some r }) c refl refl)

finish_point-Follows : (c : Controller) → Follows c (ended (finish_point c))
finish_point-Follows c =
    if_cases (λ (p : Outcome InspectionError ⊤ × Controller). Follows c (ended p))
      (not (is_complete c.attempt)) _ _ (λ missing. refl)
      (λ whole. edited (λ a. record a { phase = Phase.point_succeeded }) c refl refl)

store_evidence-Follows :
    (e : EvidenceReference) (c : Controller) → Follows c (ended (store_evidence e c))
store_evidence-Follows e c =
    if_cases (λ (p : Outcome InspectionError ⊤ × Controller). Follows c (ended p))
      (is_some c.attempt.evidence_reference) _ _ (λ again. refl)
      (λ first.
        (refl, refl, refl, inl (refl, refl, no_evidence e c.attempt.evidence_reference first)))

-- A call that raises changes nothing. One that returns keeps the run, the robot and the task; it
-- goes on with the attempt, whose evidence, once there, it never replaces, or it starts another
-- attempt after one that failed, and then keeps that one unchanged after those completed before.
pub perform-Follows : (command : Command) (c : Controller) → Follows c (perform command c)
unfolding perform start_navigation record_navigation_result confirm_arrival complete_stabilization
    record_observation record_sensor_failure validate_observation evaluate persist_evidence
    complete_point complete_run retry_point cancel
perform-Follows Command.start c =
    edited-Follows (λ p. same_phase p Phase.idle) (begin_navigation) c refl refl
perform-Follows (Command.navigated ok reason) c =
    edited-Follows (λ p. same_phase p Phase.navigating) (with_navigation ok reason) c refl refl
perform-Follows (Command.arrive ok reason) c =
    edited-Follows (λ p. same_phase p Phase.arrived) (with_arrival ok reason) c refl refl
perform-Follows (Command.stabilize ok reason) c =
    edited-Follows (λ p. same_phase p Phase.stabilizing) (with_stabilization ok reason) c refl refl
perform-Follows (Command.observe o) c =
    edited-Follows (λ p. same_phase p Phase.acquiring) (with_reading o) c refl refl
perform-Follows (Command.lose_sensor reason) c =
    edited-Follows (λ p. same_phase p Phase.acquiring) (without_reading reason) c refl refl
perform-Follows (Command.validate now) c =
    guarded-Follows (λ p. same_phase p Phase.validating) (observed (validate_at now)) c
      (λ here.
        observed-Follows (validate_at now) c c.attempt.observation
          (λ o. edited (with_quality (judge_observation c.robot_id c.task o now)) c refl refl))
perform-Follows (Command.judge evaluator now) c =
    guarded-Follows (λ p. same_phase p Phase.evaluating) (observed (evaluate_at evaluator now)) c
      (λ here.
        observed-Follows (evaluate_at evaluator now) c c.attempt.observation
          (λ o. store_evaluation-Follows (evaluation_of c evaluator now o) c))
perform-Follows (Command.persist e) c =
    guarded-Follows keeps_evidence (store_evidence e) c (λ here. store_evidence-Follows e c)
perform-Follows Command.finish_the_point c =
    guarded-Follows (λ p. same_phase p Phase.evaluating) finish_point c
      (λ here. finish_point-Follows c)
perform-Follows Command.finish_the_run c =
    edited-Follows (λ p. same_phase p Phase.point_succeeded) (end_run) c refl refl
perform-Follows Command.retry c =
    guarded-Follows is_retryable (λ x. (returned tt, next_attempt x)) c
      (λ ready. (refl, refl, refl, inr (ready, refl, refl)))
perform-Follows (Command.give_up reason) c =
    edited-Follows is_cancelable (with_cancellation reason) c refl refl

-- The phase of a controller; the calls up to the observation, where navigation, arrival and stabilization go well, and those
-- after its validation.
abbrev pub phase_of : Controller → Phase
phase_of c = c.attempt.phase

abbrev first_calls : MockObservation → List Command
first_calls o =
    Command.start
    ∷ Command.navigated true none
    ∷ Command.arrive true none
    ∷ Command.stabilize true none
    ∷ Command.observe o
    ∷ []

abbrev last_calls : EvidenceReference → List Command
last_calls e =
    Command.judge none none
    ∷ Command.persist e
    ∷ Command.finish_the_point
    ∷ Command.finish_the_run
    ∷ []

abbrev pub smooth_calls : MockObservation → ℤ → EvidenceReference → List Command
smooth_calls o now e = first_calls o ++ Command.validate now ∷ last_calls e

module _ (run_id robot_id : String) (task : InspectionTask) (o : MockObservation)
    (e : EvidenceReference)
    (own : same_measure task.point.item.maximum_value task.point.item.maximum_value ≡ true) where
  after_judgement :
      (quality : ObservationQuality) (reason : String)
      → phase_of (
          after_commands (last_calls e) (
            edit
              (with_quality (record { quality = quality; reason = reason }))
              (after_commands (first_calls o) (fresh_controller run_id robot_id task))))
        ≡ (if passed (record { quality = quality; reason = reason })
            then Phase.succeeded
            else Phase.data_invalid)
  unfolding after_commands perform start_navigation record_navigation_result confirm_arrival
      complete_stabilization record_observation validate_observation evaluate persist_evidence
      complete_point complete_run same_phase
  after_judgement ObservationQuality.pass reason =
      let c : Controller =
        edit (with_quality (record { quality = ObservationQuality.pass; reason = reason }))
          (after_commands (first_calls o) (fresh_controller run_id robot_id task)) in
      let r : EvaluationResult = evaluation_of c none none o in
      let rest : List Command =
        Command.persist e ∷ Command.finish_the_point ∷ Command.finish_the_run ∷ [] in
      subst
        (λ b.
          phase_of (
            after_commands rest (
              (ended {A = EvaluationResult} (
                if not b
                then (raised bad_value, c)
                else (returned r, edit (λ a. record a { evaluation_result = some r }) c))).1))
          ≡ Phase.succeeded)
        (sym own) refl
  after_judgement ObservationQuality.stale reason = refl
  after_judgement ObservationQuality.incomplete reason = refl
  after_judgement ObservationQuality.invalid reason = refl

  -- An inspection in which navigation, arrival and stabilization go well, for an item with a
  -- maximum that equals itself: it succeeds where the observation passes, and after the same calls
  -- it ends with invalid data where it does not.
  pub after_commands_smooth :
      (now : ℤ)
      → phase_of (after_commands (smooth_calls o now e) (fresh_controller run_id robot_id task)) ≡ (
          if passed (judge_observation robot_id task o now)
          then Phase.succeeded
          else Phase.data_invalid)
  unfolding after_commands perform start_navigation record_navigation_result confirm_arrival
      complete_stabilization record_observation validate_observation same_phase
  after_commands_smooth now =
      let q = judge_observation robot_id task o now in after_judgement q.quality q.reason
