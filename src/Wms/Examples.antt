-- ===== src/Wms/Examples.antt =====
-- A store with three tasks and a simulated robot, on which the theorems of the Mock WMS are applied.
use amr_warehouse_navigation.Common.{
  true, refl, none, List, [], ◌∷◌, String, ℕ, ◌+◌, leb, arith, returned,
}
use amr_warehouse_navigation.Common.Int.{pos}
use amr_warehouse_navigation.Wms.Reasons.{WmsReason}
use amr_warehouse_navigation.Wms.Targets.{Scalar, TaskPoints}
use amr_warehouse_navigation.Wms.Tasks.{TaskRow, TaskName, get_next_pending_task}
use amr_warehouse_navigation.Wms.Tasks.Pending.{IsNext, get_next_pending_task-IsNext}
use amr_warehouse_navigation.Wms.Tasks.Store.{
  StoreCall, IsTable, empty_table, run_store_calls, run_store_calls-IsTable,
}
use amr_warehouse_navigation.Wms.Runtime.{Runtime, wait_for_execute_ready_gate}
use amr_warehouse_navigation.Wms.Runtime.Waits.{Ticks, Waited, wait_for_execute_ready_gate-Waited}
use amr_warehouse_navigation.Wms.Executor.{Bench, RunTerms, run_executor_once}
use amr_warehouse_navigation.Wms.Executor.Effects.{Suffices}
use amr_warehouse_navigation.Wms.Http.{Field, Payload, TasksReply, TaskApi}
use amr_warehouse_navigation.Wms.Http.Run.{HttpTerms}
use amr_warehouse_navigation.Wms.Queue.{QueueTerms, run_task_queue}
use amr_warehouse_navigation.Wms.Queue.Drain.{Drains}
use amr_warehouse_navigation.Wms.Queue.Store.{Sound, left, run_task_queue-run_executor_once}

-- The world is a clock, on which the ready gate opens at 3.
abbrev pub robot : Runtime ℕ
robot = record {
  check_ready_gate = λ w.
      (record { ready = leb 3 w; reason = WmsReason.text "amcl lifecycle state"; details = [] }, w);
  navigate_to_pose = λ pose timeout w. (
    record { succeeded = true; status = "succeeded"; reason = WmsReason.text "goal reached" },
    w + 5,
  );
  monotonic = λ w. (w, w);
  sleep = λ d w. w + d;
  wall_clock = λ w. 200000000 + w;
}

abbrev pub ticking : Ticks robot
ticking = record {
  time = λ w. w;
  reads_time = λ w. omega arith;
  time_goes_on = λ w. omega arith;
  sleeps = λ d w. omega arith;
  checks = λ w. omega arith;
}

abbrev points : TaskPoints
points =
    (
      "station_a",
      ("frame_id", Scalar.text "map")
          ∷ ("x", Scalar.number (pos 1000))
          ∷ ("y", Scalar.number (pos 2000))
          ∷ ("yaw", Scalar.number (pos 0))
          ∷ [],
    )
    ∷ []

abbrev run_terms : RunTerms
run_terms = record {
  points = returned points;
  execute = true;
  ready_timeout = pos 10;
  ready_poll_interval = pos 2;
  navigation_timeout = pos 180;
  rounds = 6;
}

abbrev enough_rounds : Suffices robot run_terms
enough_rounds = record { ticks = ticking; last_round = 5; counted = refl; enough = omega arith }

abbrev row : ℕ → String → String → TaskRow
row id target status = record {
  id = id;
  task_name = TaskName.given "carry";
  target_name = target;
  pose = record { frame_id = "map"; x = pos 1000; y = pos 2000; yaw = pos 0 };
  status = status;
  status_reason = none;
  created_at = 100;
  updated_at = 100;
}

abbrev bench : Bench ℕ
bench = record {
  tasks = record {
    rows =
        row 1 "station_a" "succeeded"
        ∷ row 2 "station_a" "pending"
        ∷ row 3 "nowhere" "pending"
        ∷ [];
    last_id = 3;
    clock = 200000000;
  };
  world = 0;
}

get_next_pending_task-IsNext_example : IsNext bench.tasks.rows (get_next_pending_task bench.tasks)
get_next_pending_task-IsNext_example = get_next_pending_task-IsNext bench.tasks

wait_for_execute_ready_gate-Waited_example :
    Waited 10 6 (wait_for_execute_ready_gate robot 6 (pos 10) (pos 2) 0)
wait_for_execute_ready_gate-Waited_example =
    wait_for_execute_ready_gate-Waited robot ticking 5 (pos 10) (pos 2) 0 (omega arith)

abbrev queue_terms : QueueTerms
queue_terms = record { execute = true; continue_on_failure = true }

run_task_queue-run_executor_once_example :
    Drains queue_terms 0 2 Sound left
      (run_task_queue (run_executor_once robot run_terms) queue_terms 3 (pos 0) bench)
run_task_queue-run_executor_once_example =
    run_task_queue-run_executor_once robot run_terms queue_terms 0 3 bench refl refl enough_rounds
      refl (refl, (refl, (refl, tt))) (omega arith)

abbrev store_calls : List StoreCall
store_calls =
    StoreCall.create 100 "station_a" (returned points) none
    ∷ StoreCall.create 100 "shelf_2" (returned points) none
    ∷ StoreCall.set_status 200 1 "running" none
    ∷ StoreCall.set_status 300 1 "lost" none
    ∷ []

run_store_calls-IsTable_example : IsTable (run_store_calls store_calls empty_table)
run_store_calls-IsTable_example = run_store_calls-IsTable store_calls

abbrev reply : String → Payload
reply status = Payload.object (
    ("id", Field.int (pos 7))
    ∷ ("task_name", Field.text " carry ")
    ∷ ("target_name", Field.text "station_a")
    ∷ ("status", Field.text status)
    ∷ ("frame_id", Field.text "map")
    ∷ ("created_at", Field.text "2026-01-01T00:00:00Z")
    ∷ ("updated_at", Field.text "2026-01-01T00:00:00Z")
    ∷ ("x", Field.int (pos 1))
    ∷ ("y", Field.float (pos 500))
    ∷ ("yaw", Field.int (pos 0))
    ∷ [])

abbrev api : TaskApi ℕ
api = record {
  fetch_tasks = λ w. (returned (TasksReply.tasks (reply "failed" ∷ reply "pending" ∷ [])), w);
  patch_status = λ id status reason w. (returned (reply status), w);
}

abbrev http_terms : HttpTerms
http_terms = record {
  execute = true;
  ready_timeout = pos 10;
  ready_poll_interval = pos 2;
  navigation_timeout = pos 180;
  rounds = 6;
}
