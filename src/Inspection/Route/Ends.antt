-- ===== src/Inspection/Route/Ends.antt =====
-- How the run of one point of a route ends.
use amr_warehouse_navigation.Common.{
  Bool, true, false, not, ◌||◌, ◌≡◌, refl, Option, none, some, is_some, List, [], ◌∷◌, ℕ, ◌*◌, ◌<◌,
  if◌then◌else◌, leb, nat_eq, arith, if_cases, Outcome, returned, raised, Method, zero, suc,
}
use amr_warehouse_navigation.Wms.Runtime.{NavigationResult}
use amr_warehouse_navigation.Inspection.Image.{
  ImageError, Frame, decode_rgb_bytes, evaluate_red_ratio, VisualEvaluation,
}
use amr_warehouse_navigation.Inspection.Image.Bounds.{Decodes, decode_rgb_bytes-Decodes}
use amr_warehouse_navigation.Inspection.Route.{
  PointStatus, FaultCode, RouteError, is_allowed, Transition, PointState, PointSpec, PointResult,
  has_succeeded, pose_of_spec,
}
use amr_warehouse_navigation.Inspection.Route.Points.{
  Picture, Capture, RouteRuntime, RouteTerms, decoded, fresh_rgb, fits_frame, evaluate_point,
  validate_point, capture_point, run_point,
}

-- The fault codes of each way to end.
abbrev fault_fits : PointStatus → Option FaultCode → Bool
fault_fits PointStatus.succeeded none = true
fault_fits PointStatus.navigation_failed (some FaultCode.navigation) = true
fault_fits PointStatus.acquisition_failed (some FaultCode.camera_unavailable) = true
fault_fits PointStatus.acquisition_failed (some FaultCode.image_timeout) = true
fault_fits PointStatus.data_invalid (some FaultCode.invalid_data) = true
fault_fits PointStatus.evaluation_failed (some FaultCode.evaluation) = true
fault_fits _ _ = false

-- Where allowed transitions lead.
abbrev log_end : PointStatus → List Transition → Option PointStatus
log_end s [] = some s
log_end s (t ∷ ts) = if is_allowed s t.status then log_end t.status ts else none

-- The point has come to an end, by allowed transitions and with the fault of that end; it has an
-- evaluation where it succeeded.
abbrev pub IsResult : PointSpec → PointResult → Type 0
IsResult point r =
    (r.point_id ≡ point.point_id)
    × (r.sequence ≡ point.sequence)
    × (log_end PointStatus.pending r.transitions ≡ some r.status)
    × (fault_fits r.status r.execution_fault ≡ true)
    × (is_some r.evaluation ≡ has_succeeded r)

abbrev pub PointRan : PointSpec → {W : Type 0} → Outcome RouteError PointResult × W → Type 0
PointRan point (raised e, w) = ⊥
PointRan point (returned r, w) = IsResult point r

-- A picture that is decoded fits its frame.
abbrev FitsFrame : Frame → Option (List ℕ) → Type 0
FitsFrame f none = Unit
FitsFrame f (some rgb) = fits_frame f rgb ≡ true

positive_factors : (a b : ℕ) → 0 < a * b → (nat_eq a 0 || nat_eq b 0) ≡ false
positive_factors zero b h = let never : ⊥ = omega arith in absurd never
positive_factors (suc a) zero h = let never : ⊥ = omega arith in absurd never
positive_factors (suc a) (suc b) h = ground arith

decoded-FitsFrame :
    (f : Frame) (m : Outcome ImageError (List ℕ)) → Decodes f m → FitsFrame f (decoded m)
decoded-FitsFrame f (raised e) h = tt
decoded-FitsFrame f (returned rgb) (size, some_pixels, red) =
    ground (arith, positive_factors f.width f.height some_pixels, size)

fresh_rgb-FitsFrame : (p : Picture) → FitsFrame p.frame (fresh_rgb p)
fresh_rgb-FitsFrame p =
    if_cases (FitsFrame p.frame) (leb p.captured_at_ns p.acquisition_started_at_ns) _ _
      (λ stale. tt)
      (λ fresh.
        decoded-FitsFrame p.frame (decode_rgb_bytes p.frame) (decode_rgb_bytes-Decodes p.frame))

abbrev mark_at : PointStatus → ℕ → Transition
mark_at status at_ns = record { status = status; at_ns = at_ns; has_reason = false }

-- The state of a point that acquires, validates or evaluates, with the times of its transitions.
abbrev acquiring_at : ℕ → ℕ → ℕ → ℕ → PointState
acquiring_at a b c d = record {
  status = PointStatus.acquiring;
  transitions =
      mark_at PointStatus.navigating a
      ∷ mark_at PointStatus.arrived b
      ∷ mark_at PointStatus.stabilizing c
      ∷ mark_at PointStatus.acquiring d
      ∷ [];
}

abbrev validating_at : ℕ → ℕ → ℕ → ℕ → ℕ → PointState
validating_at a b c d e = record {
  status = PointStatus.validating;
  transitions =
      mark_at PointStatus.navigating a
      ∷ mark_at PointStatus.arrived b
      ∷ mark_at PointStatus.stabilizing c
      ∷ mark_at PointStatus.acquiring d
      ∷ mark_at PointStatus.validating e
      ∷ [];
}

abbrev evaluating_at : ℕ → ℕ → ℕ → ℕ → ℕ → ℕ → PointState
evaluating_at a b c d e f = record {
  status = PointStatus.evaluating;
  transitions =
      mark_at PointStatus.navigating a
      ∷ mark_at PointStatus.arrived b
      ∷ mark_at PointStatus.stabilizing c
      ∷ mark_at PointStatus.acquiring d
      ∷ mark_at PointStatus.validating e
      ∷ mark_at PointStatus.evaluating f
      ∷ [];
}

module _ {W : Type 0} (runtime : RouteRuntime W) (terms : RouteTerms) (point : PointSpec)
    (nav : NavigationResult) where
  evaluate_ran :
      (a b c d e f : ℕ) (m : Outcome ImageError VisualEvaluation) (w : W)
      → PointRan point (evaluate_point runtime terms point nav (evaluating_at a b c d e f) m w)
  evaluate_ran a b c d e f (raised x) w = (refl, refl, refl, refl, refl)
  evaluate_ran a b c d e f (returned v) w = (refl, refl, refl, refl, refl)

  validate_ran :
      (a b c d e : ℕ) (p : Picture) (rgb : Option (List ℕ)) (w : W)
      → FitsFrame p.frame rgb
      → PointRan point (validate_point runtime terms point nav p (validating_at a b c d e) rgb w)
  validate_ran a b c d e p none w h = (refl, refl, refl, refl, refl)
  validate_ran a b c d e p (some rgb) w h = rw h (
      evaluate_ran a b c d e (runtime.time_ns (runtime.write_picture rgb w)).0
        (evaluate_red_ratio rgb point.red_ratio_threshold)
        (runtime.time_ns (runtime.write_picture rgb w)).1)

  capture_ran :
      (a b c d : ℕ) (captured : Capture) (w : W)
      → PointRan point (capture_point runtime terms point nav (acquiring_at a b c d) captured w)
  capture_ran a b c d Capture.unavailable w = (refl, refl, refl, refl, refl)
  capture_ran a b c d Capture.timed_out w = (refl, refl, refl, refl, refl)
  capture_ran a b c d (Capture.picture p) w =
      validate_ran a b c d (runtime.time_ns w).0 p (fresh_rgb p) (runtime.time_ns w).1
        (fresh_rgb-FitsFrame p)

module _ {W : Type 0} (runtime : RouteRuntime W) (terms : RouteTerms) where
  pub run_point-PointRan :
      (point : PointSpec) (w : W) → PointRan point (run_point runtime terms point w)
  unfolding run_point
  run_point-PointRan point w =
      let (a, w1) = runtime.time_ns w in
      let (nav, w2) =
        runtime.navigation.navigate_to_pose (pose_of_spec point) terms.navigation_timeout w1 in
      let (b, w3) = runtime.time_ns w2 in
      let (c, w4) = runtime.time_ns w3 in
      let (d, w5) = runtime.time_ns (runtime.navigation.sleep point.stabilization w4) in
      let (captured, w6) = runtime.capture_fresh w5 in
      if_cases (λ (m : Method RouteError W PointResult). PointRan point (m w2)) (not nav.succeeded)
        _ _ (λ lost. (refl, refl, refl, refl, refl))
        (λ there. capture_ran runtime terms point nav a b c d captured w6)
