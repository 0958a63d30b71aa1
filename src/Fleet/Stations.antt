-- ===== src/Fleet/Stations.antt =====
-- amr_warehouse_sim/fleet/stations.py. The points are those of config/task_points.yaml, once
-- `load_task_points` has returned them; what it raises on a file that is missing or malformed is
-- followed through a batch in Fleet/Dispatcher/Loading. Coordinates are signed thousandths, and `none` is a value that is no number.
-- `math.hypot` is a parameter. `none` as a result is the `StationNotFoundError`, the only exception
-- that these functions raise themselves.
use amr_warehouse_navigation.Common.{Option, none, some, String, string_key}
use amr_warehouse_navigation.Common.Int.{ℤ, ◌-ℤ◌}
use amr_warehouse_navigation.Common.Dict.{Dict, lookup}

pub record TaskPoint : Type 0 where
  pub x : Option ℤ
  pub y : Option ℤ

pub record Config : Type 0 where
  pub task_points : Dict String TaskPoint
  pub hypot : ℤ → ℤ → ℤ

abbrev numeric_xy : Option ℤ → Option ℤ → Option (ℤ × ℤ)
numeric_xy (some x) (some y) = some (x, y)
numeric_xy none _ = none
numeric_xy (some _) none = none

unfoldable pub station_xy : Dict String TaskPoint → String → Option (ℤ × ℤ)
station_xy points station = elim (lookup station points) [
  | none ↦ none
  | some point ↦ numeric_xy point.x point.y
]

distance_between : (ℤ → ℤ → ℤ) → Option (ℤ × ℤ) → Option (ℤ × ℤ) → Option ℤ
distance_between hypot (some (x, y)) (some (x', y')) = some (hypot (x' -ℤ x) (y' -ℤ y))
distance_between hypot none _ = none
distance_between hypot (some _) none = none

unfoldable pub static_station_distance : Config → Option String → String → Option ℤ
unfolding distance_between
static_station_distance config none target = none
static_station_distance config (some origin) target =
    distance_between config.hypot (station_xy config.task_points origin)
      (station_xy config.task_points target)
