-- ===== src/Lib.antt =====
-- The warehouse navigation package, amr_warehouse_sim: its fleet layer, the Mock WMS, and the
-- inspection of points.
--
-- How the parts interact. In the fleet layer the registry keeps one record per robot and writes
-- each change through to the `robots` table. The dispatcher ranks the registry's robots for a task,
-- takes the cheapest one, moves it to ASSIGNED and files an assignment, also in the `assignments`
-- table. A haul drives one task through its phases over the dispatcher and the registry. The
-- heartbeat monitor puts robots OFFLINE and requeues their hauls. The lock manager stands alone.
-- The Mock WMS is an older, smaller way to drive one robot: its store keeps tasks, the executor
-- takes the next pending one to its target, and the task runner repeats the executor until the
-- queue is drained. An inspection route waits for the ready gate as the executor does, drives to its
-- points in turn and evaluates a camera frame at each. The lifecycle controller of an inspection
-- run stands alone.
--
-- Files, and the code that each one models:
--   Fleet/RobotState       amr_warehouse_sim/fleet/robot_state.py
--   Fleet/Errors           the exception classes of the package
--   Fleet/Robots           fleet/registry.py: RobotRecord, rows, load_robots_from_db,
--                          persist_robot_to_db, build_default_robot, is_heartbeat_valid
--   Fleet/Registry         fleet/registry.py: RobotRegistry, one function per method
--   Fleet/Registry/*       its methods as one type of calls, also on a database that refuses
--                          writes (Refusals), and the proofs about them
--   Fleet/Assignment       fleet/assignment.py; proofs in Fleet/Assignment/Table
--   Fleet/Stations         fleet/stations.py
--   Fleet/Events           fleet/dispatcher.py: FleetEvent, and the reason texts
--   Fleet/Tasks            fleet/dispatcher.py: DispatchTask, compute_assignment_cost
--   Fleet/Dispatcher       fleet/dispatcher.py: FleetDispatcher; Fleet/Dispatcher/Loading
--                          has a batch with the loading of its points, proofs in
--                          Fleet/Dispatcher/*
--   Fleet/Lifecycle        fleet/task_lifecycle.py
--   Fleet/Context          fleet/execution_context.py, fleet/simulated_context.py
--   Fleet/Haul             fleet/haul_executor.py: the state of HaulTaskController, fail, cancel,
--                          requeue; Fleet/Haul/Run has the methods that take a haul forward, and
--                          the other files of Fleet/Haul the proofs
--   Fleet/Resources        fleet/resources.py, ResourceLockManager; proofs in Fleet/Resources/*
--   Fleet/Heartbeat        fleet/heartbeat.py, HeartbeatMonitor; proofs in Fleet/Heartbeat/*
--   Fleet/Examples         a small fleet on which the theorems are applied
--   Wms/Reasons            the exceptions of the Mock WMS modules, and their reason texts
--   Wms/Targets            amr_warehouse_sim/mock_wms_db_common.py: resolve_target_name,
--                          resolve_target_pose; proofs in Wms/Targets/Caught
--   Wms/Tasks              mock_wms_db_common.py: the tasks table; proofs in Wms/Tasks/*
--   Wms/Runtime            mock_wms_executor.py: ExecutorRuntime, wait_for_execute_ready_gate;
--                          proofs in Wms/Runtime/Waits and Wms/Runtime/Looks
--   Wms/Executor           mock_wms_executor.py: run_executor_once; proofs in Wms/Executor/*
--   Wms/Queue              mock_wms_task_runner.py: run_task_queue; proofs in Wms/Queue/Counts and
--                          Wms/Queue/Drain, over the executor in Wms/Queue/Store
--   Wms/Http               mock_wms_executor.py: the HTTP task source; Wms/Http/Run has
--                          run_http_executor_once, proofs in Wms/Http/Replies and Wms/Http/Goals
--   Wms/Examples           three tasks and a simulated robot on which the theorems are applied
--   Inspection/Models      amr_warehouse_sim/inspection/models.py
--   Inspection/Rules       inspection/rules.py
--   Inspection/Lifecycle   inspection/lifecycle.py: the state of InspectionRunController; its
--                          operations are in Inspection/Lifecycle/Commands, proofs below it
--   Inspection/Image       inspection/visual_evaluator.py; proofs in Inspection/Image/Reds
--                          and Inspection/Image/Bounds
--   Inspection/Route       inspection/runtime_models.py, inspection/store.py
--   Inspection/Route/Points  inspection/executor.py: one point of run_inspection_route
--   Inspection/Route/Runs  inspection/executor.py: run_inspection_route; proofs in
--                          Inspection/Route/Ends, Prefix, Readiness and Outcomes
--   Inspection/Examples    a task, a frame and a route on which the theorems are applied
--   Common                 shared notation and lemmas: dictionaries, sorting, method calls
--
-- Conventions. A method takes its object's state and gives back an outcome, returned or raised,
-- with the state, since what is written before a raise stays written. Dictionaries are association
-- lists in insertion order, SQL tables are lists of rows keyed by their primary key. Times are
-- microseconds since a fixed origin, and a stored ISO text is the whole second that it denotes.
-- Battery levels, costs and coordinates are signed thousandths; floating point rounding is not
-- modelled. Errors keep their class, not their message; a formatted reason keeps the values that it
-- is formatted from. The clock that a call reads is a field of its object; the executor and the
-- route read theirs from the runtime, also for each write of the executor to its store. A float
-- that the inspection compares is a signed number of thousandths or one of the values that are not
-- finite.
--
-- Rounds. Loops over lists need no fuel. The `while` loop of the wait for the ready gate is given a
-- number of rounds: each round but the last lasts the poll interval, so the timeout divided by the
-- interval and rounded up, and one more, are enough. The queue loop needs a round for each pending
-- task and one more. Where rounds run out the model raises out_of_rounds, which no call raises that
-- is given enough.
--
-- Parameters. The task points of config/task_points.yaml, `math.hypot`, and the contexts of robots
-- that are not simulated are arguments; nothing is assumed of them. So are the navigation runtime,
-- the HTTP requests, the camera and the files of the Mock WMS and the inspection, over any world
-- that they act on. Of the clock it is assumed, where a theorem says so, that it does not go back
-- and that a sleep lasts as long as it was asked to (`Ticks`).
--
-- Refused writes, and points that cannot be loaded. The code writes to memory before it writes to
-- the database, and catches neither what SQLite raises nor what `load_task_points` does.
-- Fleet/Registry/Refusals models the registry's methods on a database that refuses any rows, and
-- Fleet/Dispatcher/Loading a batch whose task points cannot be loaded. The rest of the fleet layer
-- is over a database that takes every write, and over task points that have been loaded: what
-- SQLite raises out of a dispatch, a haul or a sweep is not modelled, and no theorem speaks of it.
--
-- Not modelled: to_dict methods and stderr output, paths of the database files, the `resources`
-- table, concurrent processes on one database, a runtime or a file that raises; of the Mock WMS, how
-- URLs and requests are built and sent, the ROS client, the API and the line parser of the task
-- points; of the inspection, the pipeline and its reports, the loading of points, PNG bytes,
-- artifact URIs and report files; vendor integrations, ROS nodes and launch files.
pub mod Common
pub mod Fleet
pub mod Inspection
pub mod Wms
