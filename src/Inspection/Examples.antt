-- ===== src/Inspection/Examples.antt =====
-- An inspection task, a frame of two pixels and a route of two points, on which the theorems on
-- inspections are applied.
use amr_warehouse_navigation.Common.{
  true, false, ◌≡◌, refl, none, List, [], ◌∷◌, String, ℕ, ◌+◌, if◌then◌else◌, arith,
}
use amr_warehouse_navigation.Common.Int.{pos}
use amr_warehouse_navigation.Wms.Examples.{robot}
use amr_warehouse_navigation.Inspection.Models.{
  Measure, InspectionTask, MockObservation, EvidenceReference, passed,
}
use amr_warehouse_navigation.Inspection.Lifecycle.{Phase, fresh_controller}
use amr_warehouse_navigation.Inspection.Lifecycle.Commands.{
  Command, perform, after_commands, judge_observation,
}
use amr_warehouse_navigation.Inspection.Lifecycle.Commands.Sound.{Sound}
use amr_warehouse_navigation.Inspection.Lifecycle.Commands.Invariant.{after_commands-Sound}
use amr_warehouse_navigation.Inspection.Lifecycle.Commands.Progress.{
  Follows, perform-Follows, smooth_calls, phase_of, after_commands_smooth,
}
use amr_warehouse_navigation.Inspection.Image.{
  Frame, and_then, decode_rgb_bytes, evaluate_red_ratio,
}
use amr_warehouse_navigation.Inspection.Image.Bounds.{
  Evaluates, evaluate_red_ratio-decode_rgb_bytes,
}
use amr_warehouse_navigation.Inspection.Route.{PointSpec, InspectionStore}
use amr_warehouse_navigation.Inspection.Route.Points.{Capture, RouteRuntime, RouteTerms}

abbrev task : InspectionTask
task = record {
  task_id = "task-1";
  route_id = "route-1";
  priority = "normal";
  point = record {
    point_id = "point-1";
    frame_id = "map";
    x = Measure.finite (pos 0);
    y = Measure.finite (pos 0);
    yaw = Measure.finite (pos 0);
    maximum_observation_age_ms = pos 1000;
    item = record {
      item_id = "item-1";
      kind = "temperature";
      maximum_value = Measure.finite (pos 50000);
    };
  };
}

abbrev observation : MockObservation
observation = record {
  observation_id = "observation-1";
  item_id = "item-1";
  robot_id = "robot-1";
  point_id = "point-1";
  sensor_id = "sensor-1";
  frame_id = "map";
  captured_at_ms = pos 100;
  received_at_ms = pos 110;
  value = Measure.finite (pos 20000);
  calibration_version = "mock-calibration-v1";
  complete = true;
  source = "mock";
}

abbrev evidence : EvidenceReference
evidence = record { uri = "file:///evidence"; sha256 = "0" }

abbrev failing_calls : List Command
failing_calls =
    Command.start
    ∷ Command.navigated false none
    ∷ Command.persist evidence
    ∷ Command.retry
    ∷ Command.start
    ∷ []

after_commands-Sound_example :
    Sound (after_commands failing_calls (fresh_controller "run-1" "robot-1" task))
after_commands-Sound_example = after_commands-Sound "run-1" "robot-1" task failing_calls

perform-Follows_example :
    Follows
      (fresh_controller "run-1" "robot-1" task)
      (perform Command.start (fresh_controller "run-1" "robot-1" task))
perform-Follows_example = perform-Follows Command.start (fresh_controller "run-1" "robot-1" task)

after_commands_smooth_example :
    phase_of (
      after_commands
        (smooth_calls observation (pos 200) evidence)
        (fresh_controller "run-1" "robot-1" task))
    ≡ (if passed (judge_observation "robot-1" task observation (pos 200))
        then Phase.succeeded
        else Phase.data_invalid)
after_commands_smooth_example =
    after_commands_smooth "run-1" "robot-1" task observation evidence refl (pos 200)

abbrev frame : Frame
frame = record {
  width = 1;
  height = 2;
  encoding = "BGRA8";
  step = 5;
  data_bytes = 10 ∷ 20 ∷ 200 ∷ 255 ∷ 0 ∷ 90 ∷ 80 ∷ 70 ∷ 255 ∷ 0 ∷ [];
}

evaluate_red_ratio-decode_rgb_bytes_example :
    Evaluates frame 300
      (and_then (decode_rgb_bytes frame) (λ rgb. evaluate_red_ratio rgb (pos 300)))
evaluate_red_ratio-decode_rgb_bytes_example =
    evaluate_red_ratio-decode_rgb_bytes frame 300 (omega arith)

abbrev camera_robot : RouteRuntime ℕ
camera_robot = record {
  navigation = robot;
  check_camera = λ w. (true, w);
  capture_fresh = λ w. (
    Capture.picture
        (record { frame = frame; captured_at_ns = w + 2; acquisition_started_at_ns = w + 1 }),
    w + 3,
  );
  time_ns = λ w. (w, w);
  write_picture = λ rgb w. w;
  write_result = λ r w. w;
}

abbrev route_terms : RouteTerms
route_terms = record {
  run_id = "run-1";
  robot_id = "robot-1";
  execute = true;
  ready_timeout = pos 10;
  ready_poll_interval = pos 2;
  navigation_timeout = pos 180;
  rounds = 6;
}

abbrev spec : String → ℕ → PointSpec
spec point_id sequence = record {
  point_id = point_id;
  sequence = sequence;
  frame_id = "map";
  x = pos 0;
  y = pos 0;
  yaw = pos 0;
  stabilization = 1;
  red_ratio_threshold = pos 300;
}

abbrev store : InspectionStore
store = record { runs = []; results = [] }
