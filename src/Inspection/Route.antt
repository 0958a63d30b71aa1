-- ===== src/Inspection/Route.antt =====
-- amr_warehouse_sim/inspection/runtime_models.py, store.py and executor.py: the run of an inspection
-- route. The navigation runtime, the camera, the clock and the files are given.
pub mod Points
pub mod Runs
pub mod Ends
pub mod Prefix
pub mod Readiness
pub mod Outcomes
use amr_warehouse_navigation.Common.{
  Bool, true, false, not, ◌&&◌, ◌||◌, ⊤, Option, none, some, is_some, List, [], ◌∷◌, ◌++◌, map,
  String, ◌==◌, string_key, nat_key, ℕ, ◌+◌, if◌then◌else◌, ltb, leb, length, Outcome, returned,
  raised, Method,
}
use amr_warehouse_navigation.Common.Int.{ℤ, pos, leb_ℤ, ltb_ℤ}
use amr_warehouse_navigation.Wms.Targets.{Pose}
use amr_warehouse_navigation.Wms.Runtime.{NavigationResult}
use amr_warehouse_navigation.Inspection.Image.{VisualEvaluation}

pub data PointStatus : Type 0 where
  pending navigating arrived stabilizing acquiring validating evaluating succeeded : PointStatus
  navigation_failed acquisition_failed data_invalid evaluation_failed : PointStatus

pub data FaultCode : Type 0 where
  navigation camera_unavailable image_timeout invalid_data evaluation robot_not_ready : FaultCode

pub data RouteError : Type 0 where
  -- `ValueError`
  bad_transition no_points no_store : RouteError
  -- `IntegrityError`, `KeyError`, and `InvalidImageError` of a picture that is written
  run_exists unknown_run bad_picture : RouteError
  -- The wait for the ready gate ran out of rounds.
  out_of_rounds : RouteError

-- `_POINT_TRANSITIONS`
abbrev pub is_allowed : PointStatus → PointStatus → Bool
is_allowed PointStatus.pending PointStatus.navigating = true
is_allowed PointStatus.navigating PointStatus.arrived = true
is_allowed PointStatus.navigating PointStatus.navigation_failed = true
is_allowed PointStatus.arrived PointStatus.stabilizing = true
is_allowed PointStatus.stabilizing PointStatus.acquiring = true
is_allowed PointStatus.acquiring PointStatus.validating = true
is_allowed PointStatus.acquiring PointStatus.acquisition_failed = true
is_allowed PointStatus.validating PointStatus.evaluating = true
is_allowed PointStatus.validating PointStatus.data_invalid = true
is_allowed PointStatus.evaluating PointStatus.succeeded = true
is_allowed PointStatus.evaluating PointStatus.evaluation_failed = true
is_allowed _ _ = false

-- An entry of the log; that it has a reason is kept, and the reason is the one of the result.
pub record Transition : Type 0 where
  pub status : PointStatus
  pub at_ns : ℕ
  pub has_reason : Bool

pub record PointState : Type 0 where
  pub status : PointStatus
  pub transitions : List Transition

abbrev pub new_state : PointState
new_state = record { status = PointStatus.pending; transitions = [] }

-- `PointExecutionState.transition`
abbrev pub transition : PointStatus → ℕ → Bool → PointState → Outcome RouteError PointState
transition status at_ns has_reason s =
    if not (is_allowed s.status status)
    then raised bad_transition
    else returned (record {
      status = status;
      transitions =
          s.transitions ++ record { status = status; at_ns = at_ns; has_reason = has_reason } ∷ [];
    })

pub record PointSpec : Type 0 where
  pub point_id : String
  pub sequence : ℕ
  pub frame_id : String
  pub x : ℤ
  pub y : ℤ
  pub yaw : ℤ
  pub stabilization : ℕ
  -- in thousandths
  pub red_ratio_threshold : ℤ

-- `InspectionPointSpec.pose`
abbrev pub pose_of_spec : PointSpec → Pose
pose_of_spec p = record { frame_id = p.frame_id; x = p.x; y = p.y; yaw = p.yaw }

pub record PointResult : Type 0 where
  pub run_id : String
  pub point_id : String
  pub sequence : ℕ
  pub status : PointStatus
  pub navigation_result : NavigationResult
  pub evaluation : Option VisualEvaluation
  pub execution_fault : Option FaultCode
  pub has_artifact : Bool
  pub transitions : List Transition

abbrev is_success : PointStatus → Bool
is_success PointStatus.succeeded = true
is_success _ = false

abbrev count : {A : Type 0} → (A → Bool) → List A → ℕ
count test [] = 0
count test (x ∷ xs) = (if test x then 1 else 0) + count test xs

abbrev pub all_of : {A : Type 0} → (A → Bool) → List A → Bool
all_of test [] = true
all_of test (x ∷ xs) = test x && all_of test xs

abbrev pub has_succeeded : PointResult → Bool
has_succeeded r = is_success r.status

abbrev evaluated_as : Bool → PointResult → Bool
evaluated_as b r = elim r.evaluation [ none ↦ false | some v ↦ (if v.warning then b else not b) ]

pub record Summary : Type 0 where
  pub total_points : ℕ
  pub completed_points : ℕ
  pub pass : ℕ
  pub warning : ℕ
  pub execution_failures : ℕ

-- `_summary`
abbrev pub summary_of : List PointResult → ℕ → Summary
summary_of rs total = record {
  total_points = total;
  completed_points = count has_succeeded rs;
  pass = count (evaluated_as false) rs;
  warning = count (evaluated_as true) rs;
  execution_failures = count (λ r. not (has_succeeded r)) rs;
}

pub data RunStatus : Type 0 where
  running succeeded failed ready not_ready : RunStatus

pub record RunRow : Type 0 where
  pub run_id : String
  pub robot_id : String
  pub status : RunStatus
  pub summary : Option Summary

-- `InspectionStore`: `inspection_runs` and `inspection_point_results`.
pub record InspectionStore : Type 0 where
  pub runs : List RunRow
  pub results : List PointResult

abbrev pub has_run : String → List RunRow → Bool
has_run id [] = false
has_run id (r ∷ rs) = if r.run_id == id then true else has_run id rs

abbrev pub update_run : String → RunStatus → Summary → List RunRow → List RunRow
update_run id status summary [] = []
update_run id status summary (r ∷ rs) =
    (if r.run_id == id then record r { status = status; summary = some summary } else r)
    ∷ update_run id status summary rs

unfoldable pub start_run : String → String → Method RouteError InspectionStore ⊤
start_run run_id robot_id s = if has_run run_id s.runs then (raised run_exists, s) else (
  returned tt,
  record s {
    runs =
        s.runs
        ++ record { run_id = run_id; robot_id = robot_id; status = running; summary = none } ∷ [];
  },
)

unfoldable pub finish_run : String → RunStatus → Summary → Method RouteError InspectionStore ⊤
finish_run run_id status summary s =
    if has_run run_id s.runs
    then (returned tt, record s { runs = update_run run_id status summary s.runs })
    else (raised unknown_run, s)

abbrev same_result : PointResult → PointResult → Bool
same_result a b = (a.run_id == b.run_id) && (a.point_id == b.point_id)

-- `INSERT OR REPLACE`: what has the key goes, and the row is put at the end.
abbrev without_result : PointResult → List PointResult → List PointResult
without_result r [] = []
without_result r (x ∷ xs) = if same_result x r then without_result r xs else x ∷ without_result r xs

abbrev pub persist_point_result : PointResult → InspectionStore → InspectionStore
persist_point_result r s = record s { results = without_result r s.results ++ r ∷ [] }
