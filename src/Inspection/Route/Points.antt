-- ===== src/Inspection/Route/Points.antt =====
-- amr_warehouse_sim/inspection/executor.py, `run_inspection_route`: one point of the route. The URIs
-- of artifacts and the log lines are not kept.
use amr_warehouse_navigation.Common.{
  Bool, true, false, not, ◌||◌, Option, none, some, List, String, ℕ, ◌*◌, if◌then◌else◌, leb,
  nat_eq, length, Outcome, returned, raised, Method, pure, raise_if, ◌>>=◌, ◌>>◌,
}
use amr_warehouse_navigation.Common.Int.{ℤ}
use amr_warehouse_navigation.Wms.Runtime.{NavigationResult, Runtime}
use amr_warehouse_navigation.Inspection.Image.{
  ImageError, Frame, decode_rgb_bytes, evaluate_red_ratio, VisualEvaluation,
}
use amr_warehouse_navigation.Inspection.Route.{
  PointStatus, FaultCode, RouteError, bad_picture, PointState, new_state, transition, PointSpec,
  PointResult, pose_of_spec,
}

-- A `CapturedImageFrame`.
pub record Picture : Type 0 where
  pub frame : Frame
  pub captured_at_ns : ℕ
  pub acquisition_started_at_ns : ℕ

-- What `capture_fresh` returns or raises.
pub data Capture : Type 0 where
  picture : Picture → Capture
  unavailable timed_out : Capture

-- What a route needs of the world: a navigation runtime with its clock, the camera,
-- `time.time_ns`, and the writing of a picture and of a result.
pub record RouteRuntime (W : Type 0) : Type 0 where
  pub navigation : Runtime W
  pub check_camera : W → Bool × W
  pub capture_fresh : W → Capture × W
  pub time_ns : W → ℕ × W
  pub write_picture : List ℕ → W → W
  pub write_result : PointResult → W → W

pub record RouteTerms : Type 0 where
  pub run_id : String
  pub robot_id : String
  pub execute : Bool
  pub ready_timeout : ℤ
  pub ready_poll_interval : ℤ
  pub navigation_timeout : ℤ
  pub rounds : ℕ

-- `frame.captured_at_ns <= frame.acquisition_started_at_ns`, and the decoding: `none` where
-- `InvalidImageError` is raised.
abbrev pub decoded : Outcome ImageError (List ℕ) → Option (List ℕ)
decoded (returned rgb) = some rgb
decoded (raised e) = none

abbrev pub fresh_rgb : Picture → Option (List ℕ)
fresh_rgb p =
    if leb p.captured_at_ns p.acquisition_started_at_ns
    then none
    else decoded (decode_rgb_bytes p.frame)

-- The check of `write_rgb_png`, which stands outside the `try`.
abbrev pub fits_frame : Frame → List ℕ → Bool
fits_frame f rgb =
    not
      (nat_eq f.width 0 || nat_eq f.height 0 || not (nat_eq (length rgb) (f.width * f.height * 3)))

module _ {W : Type 0} (runtime : RouteRuntime W) (terms : RouteTerms) where
  abbrev PointStep : Type 0 → Type 0
  PointStep A = Method RouteError W A

  -- `state.transition(…, at_ns=time.time_ns())`
  abbrev mark : PointStatus → Bool → PointState → PointStep PointState
  mark status has_reason s w =
      let (now, w') = runtime.time_ns w in (transition status now has_reason s, w')

  -- `_failed_point_result`
  abbrev failed_point_result :
      PointSpec → NavigationResult → FaultCode → Bool → PointState → PointResult
  failed_point_result point nav fault has_artifact s = record {
    run_id = terms.run_id;
    point_id = point.point_id;
    sequence = point.sequence;
    status = s.status;
    navigation_result = nav;
    evaluation = none;
    execution_fault = some fault;
    has_artifact = has_artifact;
    transitions = s.transitions;
  }

  abbrev fail_point :
      PointSpec
      → NavigationResult
      → FaultCode
      → Bool
      → PointStatus
      → PointState
      → PointStep PointResult
  fail_point point nav fault has_artifact status s = do
    s' ← mark status true s
    pure (failed_point_result point nav fault has_artifact s')

  -- A point that is evaluated; its result is also written.
  abbrev pub evaluate_point :
      PointSpec
      → NavigationResult
      → PointState
      → Outcome ImageError VisualEvaluation
      → PointStep PointResult
  evaluate_point point nav s (raised e) =
      fail_point point nav FaultCode.evaluation true PointStatus.evaluation_failed s
  evaluate_point point nav s (returned v) = do
    s' ← mark PointStatus.succeeded false s
    let r : PointResult = record {
      run_id = terms.run_id;
      point_id = point.point_id;
      sequence = point.sequence;
      status = s'.status;
      navigation_result = nav;
      evaluation = some v;
      execution_fault = none;
      has_artifact = true;
      transitions = s'.transitions;
    }
    λ w. (returned r, runtime.write_result r w)

  abbrev pub validate_point :
      PointSpec → NavigationResult → Picture → PointState → Option (List ℕ) → PointStep PointResult
  validate_point point nav p s none =
      fail_point point nav FaultCode.invalid_data false PointStatus.data_invalid s
  validate_point point nav p s (some rgb) = do
    raise_if (not (fits_frame p.frame rgb)) bad_picture
    λ w. (returned tt, runtime.write_picture rgb w)
    s' ← mark PointStatus.evaluating false s
    evaluate_point point nav s' (evaluate_red_ratio rgb point.red_ratio_threshold)

  abbrev pub capture_point :
      PointSpec → NavigationResult → PointState → Capture → PointStep PointResult
  capture_point point nav s Capture.unavailable =
      fail_point point nav FaultCode.camera_unavailable false PointStatus.acquisition_failed s
  capture_point point nav s Capture.timed_out =
      fail_point point nav FaultCode.image_timeout false PointStatus.acquisition_failed s
  capture_point point nav s (Capture.picture p) = do
    s' ← mark PointStatus.validating false s
    validate_point point nav p s' (fresh_rgb p)

  abbrev arrive_point : PointSpec → PointState → NavigationResult → PointStep PointResult
  arrive_point point s nav =
      if not nav.succeeded
      then fail_point point nav FaultCode.navigation false PointStatus.navigation_failed s
      else do
        s1 ← mark PointStatus.arrived false s
        s2 ← mark PointStatus.stabilizing false s1
        λ w. (returned tt, runtime.navigation.sleep point.stabilization w)
        s3 ← mark PointStatus.acquiring false s2
        captured ← λ w. (let (c, w') = runtime.capture_fresh w in (returned c, w'))
        capture_point point nav s3 captured

  unfoldable pub run_point : PointSpec → PointStep PointResult
  run_point point = do
    s ← mark PointStatus.navigating false new_state
    nav ← λ w.
        (let (n, w') =
            runtime.navigation.navigate_to_pose (pose_of_spec point) terms.navigation_timeout w in
          (returned n, w'))
    arrive_point point s nav
