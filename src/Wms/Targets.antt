-- ===== src/Wms/Targets.antt =====
-- amr_warehouse_sim/mock_wms_db_common.py, the resolution of a target name to a pose of
-- config/task_points.yaml. Coordinates are signed thousandths.
pub mod Caught
use amr_warehouse_navigation.Common.{
  Bool, true, false, not, Option, none, some, List, [], ◌∷◌, String, ◌==◌, string_key, contains,
  if◌then◌else◌, is_some, Outcome, returned, raised,
}
use amr_warehouse_navigation.Common.Int.{ℤ}
use amr_warehouse_navigation.Common.Dict.{Dict, lookup}
use amr_warehouse_navigation.Wms.Reasons.{WmsError, missing_key, bad_value}

-- A value of the file: a text, a number (as `True` and `False` are), or another Python literal.
pub data Scalar : Type 0 where
  text : String → Scalar
  number : ℤ → Scalar
  other : Scalar

abbrev pub TaskPoints : Type 0
TaskPoints = Dict String (Dict String Scalar)

pub record Pose : Type 0 where
  pub frame_id : String
  pub x : ℤ
  pub y : ℤ
  pub yaw : ℤ

-- `SUPPORTED_V3_TARGET_NAMES`
abbrev pub supported_v3_target_names : List String
supported_v3_target_names =
    "candidate_dock_a" ∷ "dock_a" ∷ "station_a" ∷ "station_b" ∷ "shelf_1" ∷ "shelf_2" ∷ []

-- `TARGET_NAME_FALLBACKS.get(…)`
abbrev pub target_name_fallback : String → Option String
target_name_fallback name =
    if name == "candidate_dock_a"
    then some "dock_a"
    else if name == "dock_a"
    then some "candidate_dock_a"
    else none

-- `name in task_points`
abbrev pub is_point : TaskPoints → String → Bool
is_point points name = is_some (lookup name points)

abbrev pub known_fallback : TaskPoints → Option String → Outcome WmsError String
known_fallback points none = raised missing_key
known_fallback points (some name) =
    if is_point points name then returned name else raised missing_key

unfoldable pub resolve_target_name : String → TaskPoints → Outcome WmsError String
resolve_target_name name points =
    if is_point points name
    then returned name
    else known_fallback points (target_name_fallback name)

-- `frame_id != 'map'`
abbrev pub is_map_frame : Option Scalar → Bool
is_map_frame (some (Scalar.text frame)) = frame == "map"
is_map_frame _ = false

-- The text 'TBD' and any value that is no number raise; a missing field is `None`.
abbrev pub numeric_field : Option Scalar → Outcome WmsError ℤ
numeric_field (some (Scalar.number n)) = returned n
numeric_field _ = raised bad_value

abbrev pub pose_of :
    Outcome WmsError ℤ → Outcome WmsError ℤ → Outcome WmsError ℤ → Outcome WmsError Pose
pose_of (returned x) (returned y) (returned yaw) =
    returned (record { frame_id = "map"; x = x; y = y; yaw = yaw })
pose_of (raised e) _ _ = raised e
pose_of (returned _) (raised e) _ = raised e
pose_of (returned _) (returned _) (raised e) = raised e

unfoldable pub point_pose : Dict String Scalar → Outcome WmsError Pose
point_pose point =
    if not (is_map_frame (lookup "frame_id" point))
    then raised bad_value
    else pose_of (numeric_field (lookup "x" point)) (numeric_field (lookup "y" point))
        (numeric_field (lookup "yaw" point))

abbrev pub with_name : String → Outcome WmsError Pose → Outcome WmsError (String × Pose)
with_name name (returned pose) = returned (name, pose)
with_name name (raised e) = raised e

abbrev pub stored_pose : String → Option (Dict String Scalar) → Outcome WmsError (String × Pose)
stored_pose name none = raised missing_key
stored_pose name (some point) = with_name name (point_pose point)

-- The pose of a resolved name.
unfoldable pub supported_pose : TaskPoints → String → Outcome WmsError (String × Pose)
supported_pose points name =
    if not (contains supported_v3_target_names name)
    then raised bad_value
    else stored_pose name (lookup name points)

abbrev pub pose_of_name : TaskPoints → Outcome WmsError String → Outcome WmsError (String × Pose)
pose_of_name points (raised e) = raised e
pose_of_name points (returned name) = supported_pose points name

-- `resolve_target_pose`, from the points that `load_task_points` returned or the exception that it
-- raised.
unfoldable pub resolve_target_pose :
    String → Outcome WmsError TaskPoints → Outcome WmsError (String × Pose)
resolve_target_pose name (raised e) = raised e
resolve_target_pose name (returned points) = pose_of_name points (resolve_target_name name points)
