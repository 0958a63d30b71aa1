-- ===== src/Inspection/Models.antt =====
-- amr_warehouse_sim/inspection/models.py. Times are milliseconds, other floats signed thousandths or
-- one of the values that are not finite.
use Prim.Native.Char.{code}
use amr_warehouse_navigation.Common.{
  Bool, true, false, not, ◌&&◌, ◌||◌, Option, List, [], ◌∷◌, String, ◌==◌, nat_key, ℕ, ◌+◌, leb,
  Outcome, returned, raised, contains,
}
use amr_warehouse_navigation.Common.Int.{ℤ, pos, ltb_ℤ, leb_ℤ}

pub data InspectionError : Type 0 where
  -- `ValueError` and `InvalidInspectionTransitionError`
  bad_value invalid_transition : InspectionError

-- A float.
pub data Measure : Type 0 where
  finite : ℤ → Measure
  infinite minus_infinite not_a_number : Measure

abbrev pub is_finite : Measure → Bool
is_finite (Measure.finite _) = true
is_finite _ = false

-- `a > b`
abbrev pub exceeds : Measure → Measure → Bool
exceeds (Measure.finite a) (Measure.finite b) = ltb_ℤ b a
exceeds (Measure.finite _) Measure.minus_infinite = true
exceeds Measure.infinite (Measure.finite _) = true
exceeds Measure.infinite Measure.minus_infinite = true
exceeds _ _ = false

-- `a == b`
abbrev pub same_measure : Measure → Measure → Bool
same_measure (Measure.finite a) (Measure.finite b) = leb_ℤ a b && leb_ℤ b a
same_measure Measure.infinite Measure.infinite = true
same_measure Measure.minus_infinite Measure.minus_infinite = true
same_measure _ _ = false

-- The characters that `str.strip` takes off.
abbrev pub is_space : ℕ → Bool
is_space c =
    (leb 9 c && leb c 13)
    || (leb 28 c && leb c 32)
    || contains (133 ∷ 160 ∷ 5760 ∷ 8232 ∷ 8233 ∷ 8239 ∷ 8287 ∷ 12288 ∷ []) c
    || (leb 8192 c && leb c 8202)

-- `not value.strip()`
abbrev pub is_blank : String → Bool
is_blank String.[] = true
is_blank (String.◌∷◌ c s) = is_space (code c) && is_blank s

-- `_require_non_empty` for each of the texts.
abbrev pub any_blank : List String → Bool
any_blank [] = false
any_blank (s ∷ rest) = is_blank s || any_blank rest

abbrev unless : {A : Type 0} → Bool → A → Outcome InspectionError A
unless true a = raised bad_value
unless false a = returned a

pub data ObservationQuality : Type 0 where
  pass stale incomplete invalid : ObservationQuality

pub data FindingOutcome : Type 0 where
  normal anomalous : FindingOutcome

pub data FindingSeverity : Type 0 where
  warning : FindingSeverity

pub record InspectionItem : Type 0 where
  pub item_id : String
  pub kind : String
  pub maximum_value : Measure

unfoldable build_item : InspectionItem → Outcome InspectionError InspectionItem
build_item i = unless (any_blank (i.item_id ∷ i.kind ∷ []) || not (is_finite i.maximum_value)) i

pub record InspectionPoint : Type 0 where
  pub point_id : String
  pub frame_id : String
  pub x : Measure
  pub y : Measure
  pub yaw : Measure
  pub maximum_observation_age_ms : ℤ
  pub item : InspectionItem

unfoldable build_point : InspectionPoint → Outcome InspectionError InspectionPoint
build_point p =
    unless
      (any_blank (p.point_id ∷ p.frame_id ∷ [])
        || not (is_finite p.x && is_finite p.y && is_finite p.yaw)
        || ltb_ℤ p.maximum_observation_age_ms (pos 0))
      p

pub record InspectionTask : Type 0 where
  pub task_id : String
  pub route_id : String
  pub priority : String
  pub point : InspectionPoint

unfoldable build_task : InspectionTask → Outcome InspectionError InspectionTask
build_task t = unless (any_blank (t.task_id ∷ t.route_id ∷ t.priority ∷ [])) t

pub record MockObservation : Type 0 where
  pub observation_id : String
  pub item_id : String
  pub robot_id : String
  pub point_id : String
  pub sensor_id : String
  pub frame_id : String
  pub captured_at_ms : ℤ
  pub received_at_ms : ℤ
  pub value : Measure
  pub calibration_version : String
  pub complete : Bool
  pub source : String

unfoldable build_observation : MockObservation → Outcome InspectionError MockObservation
build_observation o =
    unless
      (any_blank (
        o.observation_id ∷ o.item_id ∷ o.robot_id ∷ o.point_id ∷ o.sensor_id ∷ o.frame_id
        ∷ o.calibration_version ∷ o.source ∷ []))
      o

pub record QualityResult : Type 0 where
  pub quality : ObservationQuality
  pub reason : String

abbrev pub passed : QualityResult → Bool
passed q = elim q.quality [ ObservationQuality.pass ↦ true | _ ↦ false ]

-- '{run_id}:{point_id}:attempt-{number}'; with ':finding' after it, the id of a finding.
pub record AttemptId : Type 0 where
  pub run_id : String
  pub point_id : String
  pub number : ℕ

pub record InspectionFinding : Type 0 where
  pub finding_id : AttemptId
  pub outcome : FindingOutcome
  pub reason : String
  pub severity : Option FindingSeverity

pub record EvaluationResult : Type 0 where
  pub observation_id : String
  pub measured_value : Measure
  pub maximum_value : Measure
  pub evaluator_id : String
  pub evaluator_version : String
  pub evaluated_at_ms : ℤ
  pub finding : InspectionFinding

pub record EvidenceReference : Type 0 where
  pub uri : String
  pub sha256 : String

abbrev is_hex : ℕ → Bool
is_hex c = (leb 48 c && leb c 57) || (leb 97 c && leb c 102) || (leb 65 c && leb c 70)

abbrev all_hex : String → Bool
all_hex String.[] = true
all_hex (String.◌∷◌ c s) = is_hex (code c) && all_hex s

abbrev text_length : String → ℕ
text_length String.[] = 0
text_length (String.◌∷◌ c s) = 1 + text_length s

unfoldable build_evidence : EvidenceReference → Outcome InspectionError EvidenceReference
build_evidence e =
    unless (is_blank e.uri || not (text_length e.sha256 == 64) || not (all_hex e.sha256)) e
