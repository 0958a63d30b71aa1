-- ===== src/Wms/Targets/Caught.antt =====
-- What resolving a target raises is what the executor catches.
use amr_warehouse_navigation.Common.{
  Bool, true, not, ◌≡◌, refl, Option, none, some, String, string_key, contains, if_cases, Outcome,
  returned, raised,
}
use amr_warehouse_navigation.Common.Int.{ℤ}
use amr_warehouse_navigation.Common.Dict.{Dict, lookup}
use amr_warehouse_navigation.Wms.Reasons.{WmsError, is_resolution_error}
use amr_warehouse_navigation.Wms.Targets.{
  Scalar, Pose, TaskPoints, is_map_frame, numeric_field, pose_of, with_name, point_pose,
  stored_pose, supported_v3_target_names, supported_pose, is_point, target_name_fallback,
  known_fallback, resolve_target_name, pose_of_name, resolve_target_pose,
}

-- Known points, or an exception that the executor catches.
abbrev pub is_caught : Outcome WmsError TaskPoints → Bool
is_caught (returned _) = true
is_caught (raised e) = is_resolution_error e

-- A resolution that raises, if at all, what the executor catches.
abbrev pub IsCaught : {A : Type 0} → Outcome WmsError A → Type 0
IsCaught (returned _) = Unit
IsCaught (raised e) = is_resolution_error e ≡ true

number_IsCaught : (field : Option Scalar) → IsCaught (numeric_field field)
number_IsCaught none = refl
number_IsCaught (some (Scalar.text x)) = refl
number_IsCaught (some (Scalar.number x)) = tt
number_IsCaught (some Scalar.other) = refl

pose_IsCaught :
    (x y yaw : Outcome WmsError ℤ)
    → IsCaught x
    → IsCaught y
    → IsCaught yaw
    → IsCaught (pose_of x y yaw)
pose_IsCaught (raised e) y yaw p q r = p
pose_IsCaught (returned x) (raised e) yaw p q r = q
pose_IsCaught (returned x) (returned y) (raised e) p q r = r
pose_IsCaught (returned x) (returned y) (returned yaw) p q r = tt

named_IsCaught :
    (name : String) (pose : Outcome WmsError Pose) → IsCaught pose → IsCaught (with_name name pose)
named_IsCaught name (returned pose) h = tt
named_IsCaught name (raised e) h = h

point_pose-IsCaught : (point : Dict String Scalar) → IsCaught (point_pose point)
unfolding point_pose
point_pose-IsCaught point =
    if_cases IsCaught (not (is_map_frame (lookup "frame_id" point))) _ _ (λ other. refl)
      (λ map.
        pose_IsCaught _ _ _ (number_IsCaught (lookup "x" point))
          (number_IsCaught (lookup "y" point)) (number_IsCaught (lookup "yaw" point)))

stored_IsCaught :
    (name : String) (point : Option (Dict String Scalar)) → IsCaught (stored_pose name point)
stored_IsCaught name none = refl
stored_IsCaught name (some point) =
    named_IsCaught name (point_pose point) (point_pose-IsCaught point)

supported_pose-IsCaught :
    (points : TaskPoints) (name : String) → IsCaught (supported_pose points name)
unfolding supported_pose
supported_pose-IsCaught points name =
    if_cases IsCaught (not (contains supported_v3_target_names name)) _ _ (λ other. refl)
      (λ supported. stored_IsCaught name (lookup name points))

fallback_IsCaught :
    (points : TaskPoints) (name : Option String) → IsCaught (known_fallback points name)
fallback_IsCaught points none = refl
fallback_IsCaught points (some name) =
    if_cases IsCaught (is_point points name) _ _ (λ known. tt) (λ unknown. refl)

resolve_target_name-IsCaught :
    (name : String) (points : TaskPoints) → IsCaught (resolve_target_name name points)
unfolding resolve_target_name
resolve_target_name-IsCaught name points =
    if_cases IsCaught (is_point points name) _ _ (λ known. tt)
      (λ unknown. fallback_IsCaught points (target_name_fallback name))

resolved_IsCaught :
    (points : TaskPoints) (name : Outcome WmsError String)
    → IsCaught name
    → IsCaught (pose_of_name points name)
resolved_IsCaught points (raised e) h = h
resolved_IsCaught points (returned name) h = supported_pose-IsCaught points name

pub resolve_target_pose-IsCaught :
    (name : String) (points : Outcome WmsError TaskPoints)
    → is_caught points ≡ true
    → IsCaught (resolve_target_pose name points)
unfolding resolve_target_pose
resolve_target_pose-IsCaught name (raised x) caught = caught
resolve_target_pose-IsCaught name (returned points) caught =
    resolved_IsCaught points (resolve_target_name name points)
      (resolve_target_name-IsCaught name points)
