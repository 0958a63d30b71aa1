-- ===== src/Inspection/Rules.antt =====
-- amr_warehouse_sim/inspection/rules.py: the evaluators of an observation.
use amr_warehouse_navigation.Common.{
  not, ◌||◌, none, some, [], ◌∷◌, String, if◌then◌else◌, Outcome, returned, raised,
}
use amr_warehouse_navigation.Common.Int.{ℤ}
use amr_warehouse_navigation.Inspection.Models.{
  InspectionError, bad_value, Measure, is_finite, exceeds, any_blank, MockObservation, AttemptId,
  FindingOutcome, warning, InspectionFinding, EvaluationResult,
}

-- `ObservationEvaluator`
pub record ObservationEvaluator : Type 0 where
  pub evaluate : MockObservation → AttemptId → ℤ → EvaluationResult

pub record MaximumThresholdRule : Type 0 where
  pub evaluator_id : String
  pub version : String
  pub maximum_value : Measure

unfoldable build_rule : MaximumThresholdRule → Outcome InspectionError MaximumThresholdRule
build_rule r =
    if any_blank (r.evaluator_id ∷ r.version ∷ []) || not (is_finite r.maximum_value)
    then raised bad_value
    else returned r

unfoldable pub rule_finding : MaximumThresholdRule → MockObservation → AttemptId → InspectionFinding
rule_finding r o finding_id =
    if exceeds o.value r.maximum_value
    then record {
      finding_id = finding_id;
      outcome = FindingOutcome.anomalous;
      reason = "value_above_maximum";
      severity = some warning;
    }
    else record {
      finding_id = finding_id;
      outcome = FindingOutcome.normal;
      reason = "value_within_maximum";
      severity = none;
    }

abbrev pub threshold_evaluator : MaximumThresholdRule → ObservationEvaluator
threshold_evaluator r = record {
  evaluate = λ o finding_id now. record {
    observation_id = o.observation_id;
    measured_value = o.value;
    maximum_value = r.maximum_value;
    evaluator_id = r.evaluator_id;
    evaluator_version = r.version;
    evaluated_at_ms = now;
    finding = rule_finding r o finding_id;
  };
}
