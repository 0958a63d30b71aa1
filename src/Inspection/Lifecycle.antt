-- ===== src/Inspection/Lifecycle.antt =====
-- amr_warehouse_sim/inspection/lifecycle.py: `InspectionRunController`, the lifecycle of an
-- inspection run of one point. Messages of exceptions are not kept.
pub mod Commands
use amr_warehouse_navigation.Common.{
  Bool, true, false, not, ◌&&◌, ◌||◌, ⊤, Option, none, some, is_some, or_default, List, [], ◌∷◌,
  ◌++◌, String, ◌==◌, nat_key, string_key, ℕ, ◌+◌, if◌then◌else◌, Outcome, returned, raised, Method,
  contains,
}
use amr_warehouse_navigation.Common.Int.{ℤ, ◌-ℤ◌, leb_ℤ, ltb_ℤ}
use amr_warehouse_navigation.Inspection.Models.{
  InspectionError, bad_value, invalid_transition, Measure, is_finite, same_measure, is_blank,
  InspectionTask, InspectionPoint, InspectionItem, MockObservation, ObservationQuality,
  QualityResult, passed, AttemptId, EvaluationResult, EvidenceReference,
}
use amr_warehouse_navigation.Inspection.Rules.{
  ObservationEvaluator, MaximumThresholdRule, threshold_evaluator,
}

pub data Phase : Type 0 where
  idle navigating arrived stabilizing acquiring validating evaluating point_succeeded : Phase
  succeeded navigation_failed sensor_failed data_invalid inspection_failed canceled : Phase

-- Where a phase stands in `InspectionExecutionPhase`, by which phases are compared.
abbrev pub phase_index : Phase → ℕ
phase_index Phase.idle = 0
phase_index Phase.navigating = 1
phase_index Phase.arrived = 2
phase_index Phase.stabilizing = 3
phase_index Phase.acquiring = 4
phase_index Phase.validating = 5
phase_index Phase.evaluating = 6
phase_index Phase.point_succeeded = 7
phase_index Phase.succeeded = 8
phase_index Phase.navigation_failed = 9
phase_index Phase.sensor_failed = 10
phase_index Phase.data_invalid = 11
phase_index Phase.inspection_failed = 12
phase_index Phase.canceled = 13

unfoldable pub same_phase : Phase → Phase → Bool
same_phase p q = phase_index p == phase_index q

-- `RETRYABLE_PHASES`
abbrev pub is_retryable : Phase → Bool
is_retryable Phase.navigation_failed = true
is_retryable Phase.sensor_failed = true
is_retryable Phase.data_invalid = true
is_retryable Phase.inspection_failed = true
is_retryable _ = false

-- A `_PointAttempt`, and the snapshot of one, which holds the same values.
pub record PointAttempt : Type 0 where
  pub attempt_id : AttemptId
  pub attempt_number : ℕ
  pub point_id : String
  pub phase : Phase
  pub navigation_succeeded : Bool
  pub arrival_accepted : Bool
  pub stabilization_succeeded : Bool
  pub observation : Option MockObservation
  pub quality_result : Option QualityResult
  pub evaluation_result : Option EvaluationResult
  pub evidence_reference : Option EvidenceReference
  pub reason : Option String

pub record Controller : Type 0 where
  pub run_id : String
  pub robot_id : String
  pub task : InspectionTask
  pub completed_attempts : List PointAttempt
  pub attempt : PointAttempt

abbrev pub Step : Type 0 → Type 0
Step A = Method InspectionError Controller A

abbrev pub new_attempt : String → InspectionTask → ℕ → PointAttempt
new_attempt run_id task number = record {
  attempt_id = record { run_id = run_id; point_id = task.point.point_id; number = number };
  attempt_number = number;
  point_id = task.point.point_id;
  phase = Phase.idle;
  navigation_succeeded = false;
  arrival_accepted = false;
  stabilization_succeeded = false;
  observation = none;
  quality_result = none;
  evaluation_result = none;
  evidence_reference = none;
  reason = none;
}

abbrev pub fresh_controller : String → String → InspectionTask → Controller
fresh_controller run_id robot_id task = record {
  run_id = run_id;
  robot_id = robot_id;
  task = task;
  completed_attempts = [];
  attempt = new_attempt run_id task 1;
}

-- `InspectionRunController(…)`
unfoldable new_controller : String → String → InspectionTask → Outcome InspectionError Controller
new_controller run_id robot_id task =
    if is_blank run_id || is_blank robot_id
    then raised bad_value
    else returned (fresh_controller run_id robot_id task)

pub record InspectionRunSnapshot : Type 0 where
  pub run_id : String
  pub task_id : String
  pub robot_id : String
  pub point_id : String
  pub execution_phase : Phase
  pub attempts : List PointAttempt

unfoldable snapshot : Controller → InspectionRunSnapshot
snapshot c = record {
  run_id = c.run_id;
  task_id = c.task.task_id;
  robot_id = c.robot_id;
  point_id = c.task.point.point_id;
  execution_phase = c.attempt.phase;
  attempts = c.completed_attempts ++ c.attempt ∷ [];
}

abbrev pub edit : (PointAttempt → PointAttempt) → Controller → Controller
edit f c = record c { attempt = f c.attempt }

-- A test of the current phase, before what follows.
abbrev pub guarded : {A : Type 0} → (Phase → Bool) → Step A → Step A
guarded test m c = if test c.attempt.phase then m c else (raised invalid_transition, c)

-- `_require_phase`
abbrev pub in_phase : {A : Type 0} → Phase → Step A → Step A
in_phase expected = guarded (λ p. same_phase p expected)

abbrev pub with_observation :
    {A : Type 0} → Option MockObservation → (MockObservation → Step A) → Step A
with_observation none f c = (raised invalid_transition, c)
with_observation (some o) f c = f o c

-- `_require_observation`
abbrev pub observed : {A : Type 0} → (MockObservation → Step A) → Step A
observed f c = with_observation c.attempt.observation f c

abbrev pub edits : (PointAttempt → PointAttempt) → Step ⊤
edits f c = (returned tt, edit f c)

-- Python's `reason or default`.
abbrev pub reason_or : Option String → String → Option String
reason_or none d = some d
reason_or (some r) d = if r == "" then some d else some r
