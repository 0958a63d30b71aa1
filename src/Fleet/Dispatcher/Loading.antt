-- ===== src/Fleet/Dispatcher/Loading.antt =====
-- amr_warehouse_sim/fleet/dispatcher.py, `dispatch_tasks`, with the loading of the task points: each
-- cost that is computed loads them first. The file is taken not to change during a batch.
use amr_warehouse_navigation.Common.{
  Bool, true, false, ◌≡◌, refl, some, is_some, List, [], ◌∷◌, string_key, nat_key, if◌then◌else◌,
  if_cases, All, Outcome, returned, raised, Method,
}
use amr_warehouse_navigation.Common.Order.{sort}
use amr_warehouse_navigation.Wms.Reasons.{WmsError}
use amr_warehouse_navigation.Fleet.Errors.{Error}
use amr_warehouse_navigation.Fleet.Robots.{RobotRecord}
use amr_warehouse_navigation.Fleet.Registry.{Registry, list_robots, can_accept_task}
use amr_warehouse_navigation.Fleet.Assignment.{AssignmentRecord}
use amr_warehouse_navigation.Fleet.Stations.{Config}
use amr_warehouse_navigation.Fleet.Tasks.{DispatchTask}
use amr_warehouse_navigation.Fleet.Dispatcher.{
  Dispatcher, Terms, get_assignment_for_task, task_leb, dispatch_tasks,
}
use amr_warehouse_navigation.Fleet.Dispatcher.Assigning.{IsSound}
use amr_warehouse_navigation.Fleet.Dispatcher.Batches.{Standing, Ends, dispatch_tasks-Ends}

-- An exception of the fleet, or one that `load_task_points` raises.
pub data BatchError : Type 0 where
  fleet : Error → BatchError
  loading : WmsError → BatchError

abbrev pub Batch : Type 0
Batch = Method BatchError Dispatcher (List AssignmentRecord)

-- Some robot's cost is asked for, as it can accept a task.
abbrev pub any_accepts : Terms → Registry → List RobotRecord → Bool
any_accepts terms reg [] = false
any_accepts terms reg (robot ∷ robots) =
    if can_accept_task robot.robot_id (some terms.now) terms.heartbeat_timeout reg
    then true
    else any_accepts terms reg robots

-- The batch where the points cannot be loaded: the first task that is not assigned yet ends it, by
-- the exception where a cost is asked for, and without a robot otherwise.
unfoldable pub dispatch_unloaded : WmsError → Terms → List DispatchTask → Batch
dispatch_unloaded e terms [] d = (returned [], d)
dispatch_unloaded e terms (task ∷ rest) d =
    let later = dispatch_unloaded e terms rest d in
    if is_some (get_assignment_for_task task.task_id d)
    then later
    else if any_accepts terms d.registry (list_robots d.registry)
    then (raised (BatchError.loading e), d)
    else (returned [], d)

abbrev in_batch :
    Outcome Error (List AssignmentRecord) × Dispatcher
    → Outcome BatchError (List AssignmentRecord) × Dispatcher
in_batch (returned results, d) = (returned results, d)
in_batch (raised e, d) = (raised (BatchError.fleet e), d)

unfoldable pub dispatch_tasks_on : Outcome WmsError Config → Terms → List DispatchTask → Batch
dispatch_tasks_on (returned config) terms tasks d = in_batch (dispatch_tasks config terms tasks d)
dispatch_tasks_on (raised e) terms tasks d = dispatch_unloaded e terms (sort task_leb tasks) d

-- How a batch ends.
abbrev pub BatchEnds :
    Outcome WmsError Config
    → Dispatcher
    → Outcome BatchError (List AssignmentRecord) × Dispatcher
    → Type 0
BatchEnds loaded before (raised (BatchError.fleet e), d) = ⊥
BatchEnds loaded before (raised (BatchError.loading e), d) = (loaded ≡ raised e) × (d ≡ before)
BatchEnds loaded before (returned results, d) = IsSound d × All (Standing d) results

in_batch-BatchEnds :
    (loaded : Outcome WmsError Config) (before : Dispatcher)
    (p : Outcome Error (List AssignmentRecord) × Dispatcher)
    → Ends p
    → BatchEnds loaded before (in_batch p)
in_batch-BatchEnds loaded before (returned results, d) h = h
in_batch-BatchEnds loaded before (raised e, d) h = h

dispatch_unloaded-BatchEnds :
    (e : WmsError) (terms : Terms) (tasks : List DispatchTask) (d : Dispatcher)
    → IsSound d
    → BatchEnds (raised e) d (dispatch_unloaded e terms tasks d)
unfolding dispatch_unloaded
dispatch_unloaded-BatchEnds e terms [] d s = (s, tt)
dispatch_unloaded-BatchEnds e terms (task ∷ rest) d s =
    if_cases (BatchEnds (raised e) d) (is_some (get_assignment_for_task task.task_id d)) _ _
      (λ active. dispatch_unloaded-BatchEnds e terms rest d s)
      (λ unassigned.
        if_cases (BatchEnds (raised e) d) (any_accepts terms d.registry (list_robots d.registry)) _
          _ (λ asked. (refl, refl)) (λ nobody. (s, tt)))

-- With a database that takes its writes, on a sound dispatcher (a valid registry, and assignments
-- on file that have their rows): no exception of the fleet leaves a batch, whatever the tasks and
-- their stations. It either returns its list, and then the dispatcher is sound, each assignment in
-- the list is active and on file, and its robot is ASSIGNED and holds its task; or the task points
-- could not be loaded, their exception leaves the batch, and nothing has changed.
pub dispatch_tasks_on-BatchEnds :
    (loaded : Outcome WmsError Config) (terms : Terms) (tasks : List DispatchTask) (d : Dispatcher)
    → IsSound d
    → BatchEnds loaded d (dispatch_tasks_on loaded terms tasks d)
unfolding dispatch_tasks_on
dispatch_tasks_on-BatchEnds (returned config) terms tasks d s =
    in_batch-BatchEnds (returned config) d (dispatch_tasks config terms tasks d)
      (dispatch_tasks-Ends config terms tasks d s)
dispatch_tasks_on-BatchEnds (raised e) terms tasks d s =
    dispatch_unloaded-BatchEnds e terms (sort task_leb tasks) d s
