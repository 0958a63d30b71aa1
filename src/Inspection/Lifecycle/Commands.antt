-- ===== src/Inspection/Lifecycle/Commands.antt =====
-- The operations of `InspectionRunController`.
pub mod Sound
pub mod Invariant
pub mod Progress
use amr_warehouse_navigation.Common.{
  Bool, true, false, not, ◌&&◌, ◌||◌, ⊤, Option, none, some, is_some, or_default, List, [], ◌∷◌,
  ◌++◌, String, ◌==◌, string_key, ℕ, ◌+◌, if◌then◌else◌, Outcome, returned, raised, Method, pure,
  raise, ◌>>=◌, ◌>>◌,
}
use amr_warehouse_navigation.Common.Int.{ℤ, ◌-ℤ◌, leb_ℤ, ltb_ℤ}
use amr_warehouse_navigation.Inspection.Models.{
  InspectionError, bad_value, invalid_transition, is_finite, same_measure, InspectionTask,
  MockObservation, ObservationQuality, QualityResult, passed, EvaluationResult, EvidenceReference,
}
use amr_warehouse_navigation.Inspection.Rules.{
  ObservationEvaluator, MaximumThresholdRule, threshold_evaluator,
}
use amr_warehouse_navigation.Inspection.Lifecycle.{
  Phase, same_phase, is_retryable, PointAttempt, Controller, Step, new_attempt, edit, edits,
  guarded, in_phase, observed, reason_or,
}

abbrev pub begin_navigation : PointAttempt → PointAttempt
begin_navigation a = record a { phase = Phase.navigating }

unfoldable pub start_navigation : Step ⊤
start_navigation = in_phase Phase.idle (edits begin_navigation)

abbrev pub with_navigation : Bool → Option String → PointAttempt → PointAttempt
with_navigation succeeded reason a = record a {
  navigation_succeeded = succeeded;
  phase = if succeeded then Phase.arrived else Phase.navigation_failed;
  reason = if succeeded then none else reason_or reason "navigation_failed";
}

unfoldable pub record_navigation_result : Bool → Option String → Step ⊤
record_navigation_result succeeded reason =
    in_phase Phase.navigating (edits (with_navigation succeeded reason))

abbrev pub with_arrival : Bool → Option String → PointAttempt → PointAttempt
with_arrival accepted reason a = record a {
  arrival_accepted = accepted;
  phase = if accepted then Phase.stabilizing else Phase.inspection_failed;
  reason = if accepted then a.reason else reason_or reason "arrival_not_accepted";
}

unfoldable pub confirm_arrival : Bool → Option String → Step ⊤
confirm_arrival accepted reason = in_phase Phase.arrived (edits (with_arrival accepted reason))

abbrev pub with_stabilization : Bool → Option String → PointAttempt → PointAttempt
with_stabilization succeeded reason a = record a {
  stabilization_succeeded = succeeded;
  phase = if succeeded then Phase.acquiring else Phase.inspection_failed;
  reason = if succeeded then a.reason else reason_or reason "stabilization_failed";
}

unfoldable pub complete_stabilization : Bool → Option String → Step ⊤
complete_stabilization succeeded reason =
    in_phase Phase.stabilizing (edits (with_stabilization succeeded reason))

abbrev pub with_reading : MockObservation → PointAttempt → PointAttempt
with_reading o a = record a { observation = some o; phase = Phase.validating }

unfoldable pub record_observation : MockObservation → Step ⊤
record_observation o = in_phase Phase.acquiring (edits (with_reading o))

abbrev pub without_reading : String → PointAttempt → PointAttempt
without_reading reason a = record a { phase = Phase.sensor_failed; reason = some reason }

unfoldable pub record_sensor_failure : String → Step ⊤
record_sensor_failure reason = in_phase Phase.acquiring (edits (without_reading reason))

abbrev pub provenance_matches : String → InspectionTask → MockObservation → Bool
provenance_matches robot_id task o =
    (o.item_id == task.point.item.item_id)
    && (o.robot_id == robot_id)
    && (o.point_id == task.point.point_id)
    && (o.frame_id == task.point.frame_id)

abbrev timestamps_valid : MockObservation → ℤ → Bool
timestamps_valid o now = leb_ℤ o.captured_at_ms o.received_at_ms && leb_ℤ o.received_at_ms now

unfoldable pub judge_observation : String → InspectionTask → MockObservation → ℤ → QualityResult
judge_observation robot_id task o now =
    if not (provenance_matches robot_id task o) || not (is_finite o.value)
    then record { quality = ObservationQuality.invalid; reason = "observation_invalid" }
    else if not o.complete
    then record { quality = ObservationQuality.incomplete; reason = "observation_incomplete" }
    else if not (timestamps_valid o now)
    then record { quality = ObservationQuality.invalid; reason = "observation_timestamp_invalid" }
    else if ltb_ℤ task.point.maximum_observation_age_ms (now -ℤ o.captured_at_ms)
    then record { quality = ObservationQuality.stale; reason = "observation_stale" }
    else record { quality = ObservationQuality.pass; reason = "observation_valid" }

abbrev pub with_quality : QualityResult → PointAttempt → PointAttempt
with_quality q a = record a {
  quality_result = some q;
  phase = if passed q then Phase.evaluating else Phase.data_invalid;
  reason = if passed q then a.reason else some q.reason;
}

abbrev record_quality : QualityResult → Step QualityResult
record_quality q c = (returned q, edit (with_quality q) c)

abbrev pub validate_at : ℤ → MockObservation → Step QualityResult
validate_at now o c = record_quality (judge_observation c.robot_id c.task o now) c

unfoldable pub validate_observation : ℤ → Step QualityResult
validate_observation now = in_phase Phase.validating (observed (validate_at now))

-- `evaluator or MaximumThresholdRule(…)`, whose texts are not empty.
abbrev active_evaluator : Controller → Option ObservationEvaluator → ObservationEvaluator
active_evaluator c evaluator = or_default evaluator (
    threshold_evaluator (record {
      evaluator_id = "p0-maximum-threshold";
      version = "1";
      maximum_value = c.task.point.item.maximum_value;
    }))

abbrev pub evaluation_of :
    Controller → Option ObservationEvaluator → Option ℤ → MockObservation → EvaluationResult
evaluation_of c evaluator evaluated_at o =
    (active_evaluator c evaluator).evaluate o c.attempt.attempt_id
      (or_default evaluated_at o.received_at_ms)

-- A result for another maximum than the item's is refused.
abbrev pub is_contracted : InspectionTask → EvaluationResult → Bool
is_contracted task r = same_measure r.maximum_value task.point.item.maximum_value

abbrev pub store_evaluation : EvaluationResult → Step EvaluationResult
store_evaluation r c =
    if not (is_contracted c.task r)
    then (raised bad_value, c)
    else (returned r, edit (λ a. record a { evaluation_result = some r }) c)

abbrev pub evaluate_at :
    Option ObservationEvaluator → Option ℤ → MockObservation → Step EvaluationResult
evaluate_at evaluator evaluated_at o c =
    store_evaluation (evaluation_of c evaluator evaluated_at o) c

unfoldable pub evaluate : Option ObservationEvaluator → Option ℤ → Step EvaluationResult
evaluate evaluator evaluated_at =
    in_phase Phase.evaluating (observed (evaluate_at evaluator evaluated_at))

-- The phases that `persist_evidence` allows.
abbrev pub keeps_evidence : Phase → Bool
keeps_evidence Phase.navigation_failed = true
keeps_evidence Phase.evaluating = true
keeps_evidence Phase.data_invalid = true
keeps_evidence Phase.sensor_failed = true
keeps_evidence Phase.inspection_failed = true
keeps_evidence Phase.canceled = true
keeps_evidence _ = false

abbrev pub store_evidence : EvidenceReference → Step ⊤
store_evidence e c =
    if is_some c.attempt.evidence_reference
    then (raised invalid_transition, c)
    else edits (λ a. record a { evidence_reference = some e }) c

unfoldable pub persist_evidence : EvidenceReference → Step ⊤
persist_evidence e = guarded keeps_evidence (store_evidence e)

abbrev pub quality_passed : Option QualityResult → Bool
quality_passed none = false
quality_passed (some q) = passed q

-- No prerequisite is missing.
abbrev pub is_complete : PointAttempt → Bool
is_complete a =
    a.navigation_succeeded
    && a.arrival_accepted
    && a.stabilization_succeeded
    && quality_passed a.quality_result
    && is_some a.evaluation_result
    && is_some a.evidence_reference

abbrev pub finish_point : Step ⊤
finish_point c =
    if not (is_complete c.attempt)
    then (raised invalid_transition, c)
    else edits (λ a. record a { phase = Phase.point_succeeded }) c

unfoldable pub complete_point : Step ⊤
complete_point = in_phase Phase.evaluating finish_point

abbrev pub end_run : PointAttempt → PointAttempt
end_run a = record a { phase = Phase.succeeded }

unfoldable pub complete_run : Step ⊤
complete_run = in_phase Phase.point_succeeded (edits end_run)

abbrev pub next_attempt : Controller → Controller
next_attempt c = record c {
  completed_attempts = c.completed_attempts ++ c.attempt ∷ [];
  attempt = new_attempt c.run_id c.task (c.attempt.attempt_number + 1);
}

unfoldable pub retry_point : Step ⊤
retry_point = guarded is_retryable (λ c. (returned tt, next_attempt c))

-- The phases that `cancel` refuses.
abbrev pub is_cancelable : Phase → Bool
is_cancelable Phase.point_succeeded = false
is_cancelable Phase.succeeded = false
is_cancelable Phase.canceled = false
is_cancelable _ = true

abbrev pub with_cancellation : String → PointAttempt → PointAttempt
with_cancellation reason a = record a { phase = Phase.canceled; reason = some reason }

unfoldable pub cancel : String → Step ⊤
cancel reason = guarded is_cancelable (edits (with_cancellation reason))

-- A call on the controller.
pub data Command : Type 0 where
  start : Command
  navigated : Bool → Option String → Command
  arrive : Bool → Option String → Command
  stabilize : Bool → Option String → Command
  observe : MockObservation → Command
  lose_sensor : String → Command
  validate : ℤ → Command
  judge : Option ObservationEvaluator → Option ℤ → Command
  persist : EvidenceReference → Command
  finish_the_point finish_the_run retry : Command
  give_up : String → Command

-- The controller after a call, and whether the call returned.
abbrev pub ended : {A : Type 0} → Outcome InspectionError A × Controller → Bool × Controller
ended (returned _, c) = (true, c)
ended (raised _, c) = (false, c)

unfoldable pub perform : Command → Controller → Bool × Controller
perform Command.start c = ended (start_navigation c)
perform (Command.navigated ok reason) c = ended (record_navigation_result ok reason c)
perform (Command.arrive ok reason) c = ended (confirm_arrival ok reason c)
perform (Command.stabilize ok reason) c = ended (complete_stabilization ok reason c)
perform (Command.observe o) c = ended (record_observation o c)
perform (Command.lose_sensor reason) c = ended (record_sensor_failure reason c)
perform (Command.validate now) c = ended (validate_observation now c)
perform (Command.judge evaluator now) c = ended (evaluate evaluator now c)
perform (Command.persist e) c = ended (persist_evidence e c)
perform Command.finish_the_point c = ended (complete_point c)
perform Command.finish_the_run c = ended (complete_run c)
perform Command.retry c = ended (retry_point c)
perform (Command.give_up reason) c = ended (cancel reason c)

-- The controller after calls, whose exceptions the caller catches.
unfoldable pub after_commands : List Command → Controller → Controller
after_commands [] c = c
after_commands (command ∷ rest) c = after_commands rest ((perform command c).1)
