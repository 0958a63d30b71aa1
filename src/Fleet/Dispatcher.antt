-- ===== src/Fleet/Dispatcher.antt =====
-- amr_warehouse_sim/fleet/dispatcher.py, `FleetDispatcher`: robots are ranked by cost, the best one
-- is assigned, and the assignment is recorded. What is printed to stderr is left out.
pub mod Ranking
pub mod Records
pub mod Assigning
pub mod Batches
pub mod Loading
use amr_warehouse_navigation.Common.{
  Bool, true, false, not, Option, none, some, List, [], ◌∷◌, ◌++◌, String, string_key, nat_key, ℕ,
  if◌then◌else◌, is_some, or_default, leb, ltb, Outcome, returned, raised, Method, pure, reads,
  require, update, within, ◌>>=◌, ◌>>◌, raise_if,
}
use amr_warehouse_navigation.Common.Int.{ℤ, pos, ltb_ℤ}
use amr_warehouse_navigation.Common.Dict.{Dict, keys, lookup, insert}
use amr_warehouse_navigation.Common.Order.{text_leb, sort}
use amr_warehouse_navigation.Fleet.Errors.{
  Error, key_error, task_already_assigned, no_available_robot,
}
use amr_warehouse_navigation.Fleet.Robots.{RobotRecord, whole_second}
use amr_warehouse_navigation.Fleet.Registry.{Registry, list_robots, can_accept_task}
use amr_warehouse_navigation.Fleet.Registry
use amr_warehouse_navigation.Fleet.Events.{Reason, FleetEvent}
use amr_warehouse_navigation.Fleet.Assignment.{
  AssignmentStatus, AssignmentRecord, AssignmentTable, is_active, is_active_status,
  persist_assignment, load_assignments_from_db,
}
use amr_warehouse_navigation.Fleet.Stations.{Config}
use amr_warehouse_navigation.Fleet.Tasks.{
  DispatchTask, DispatchCandidate, DispatchDecision, priority_order, compute_assignment_cost,
}

pub record Dispatcher : Type 0 where
  pub registry : Registry
  pub assignments : Dict ℕ AssignmentRecord
  pub table : Option AssignmentTable
  pub events : List FleetEvent

abbrev pub Action : Type 0 → Type 0
Action A = Method Error Dispatcher A

abbrev pub in_registry : {A : Type 0} → Method Error Registry A → Action A
in_registry = within (λ d. d.registry) (λ reg d. record d { registry = reg })

-- `FleetDispatcher.__init__`
unfoldable pub new_dispatcher :
    Registry → Option AssignmentTable → List FleetEvent → Outcome Error Dispatcher
new_dispatcher reg none sink =
    returned (record { registry = reg; assignments = []; table = none; events = sink })
new_dispatcher reg (some table) sink = elim (load_assignments_from_db table) [
  | returned loaded ↦
      returned (record { registry = reg; assignments = loaded; table = some table; events = sink })
  | raised e ↦ raised e
]

abbrev active_only : Option AssignmentRecord → Option AssignmentRecord
active_only none = none
active_only (some assignment) = if is_active assignment then some assignment else none

abbrev pub get_assignment_for_task : ℕ → Dispatcher → Option AssignmentRecord
get_assignment_for_task task_id d = active_only (lookup task_id d.assignments)

abbrev pub get_assignment_record : ℕ → Dispatcher → Option AssignmentRecord
get_assignment_record task_id d = lookup task_id d.assignments

save_assignment :
    AssignmentRecord
    → Option AssignmentTable
    → Outcome Error AssignmentRecord × Option AssignmentTable
save_assignment assignment none = (returned assignment, none)
save_assignment assignment (some table) =
    let (result, table') = persist_assignment assignment table in (result, some table')

-- Saves to the table, if there is one, and files what came back under the task.
unfoldable pub record_assignment : ℕ → AssignmentRecord → Action AssignmentRecord
unfolding save_assignment
record_assignment task_id assignment = do
  saved ← within (λ d. d.table) (λ table d. record d { table = table }) (save_assignment assignment)
  update (λ d. record d { assignments = insert task_id saved d.assignments })
  pure saved

unfoldable pub set_assignment_status : ℕ → AssignmentStatus → Option ℕ → Action AssignmentRecord
unfolding record_assignment
set_assignment_status task_id status timestamp = do
  found ← reads (λ d. lookup task_id d.assignments)
  assignment ← require key_error found
  clock ← reads (λ d. d.registry.clock)
  record_assignment task_id (record assignment {
    status = status;
    updated_at = or_default timestamp (whole_second clock);
  })

-- `[self._assignments[task_id] for task_id in sorted(self._assignments)]`
unfoldable pub select_assignments : List ℕ → Dict ℕ AssignmentRecord → List AssignmentRecord
select_assignments [] assignments = []
select_assignments (task_id ∷ rest) assignments = elim (lookup task_id assignments) [
  | none ↦ select_assignments rest assignments
  | some assignment ↦ assignment ∷ select_assignments rest assignments
]

abbrev only_active : List AssignmentRecord → List AssignmentRecord
only_active [] = []
only_active (a ∷ rest) =
    if is_active_status a.status then a ∷ only_active rest else only_active rest

unfoldable pub list_active_assignments : Dispatcher → List AssignmentRecord
list_active_assignments d =
    only_active (select_assignments (sort leb (keys d.assignments)) d.assignments)

-- `emit_event`: the event goes to the end of the sink, which is shared with the haul controllers.
unfoldable pub emit_event :
    String → Option ℕ → Option String → Option Reason → Option ℕ → Action FleetEvent
emit_event event task_id robot_id reason timestamp d =
    let fleet_event : FleetEvent = record {
      timestamp = or_default timestamp (whole_second d.registry.clock);
      event = event;
      task_id = task_id;
      robot_id = robot_id;
      reason = reason;
    } in
    (returned fleet_event, record d { events = d.events ++ fleet_event ∷ [] })

-- Smaller cost first, then the smaller robot id.
abbrev pub candidate_leb : DispatchCandidate → DispatchCandidate → Bool
candidate_leb a b =
    if ltb_ℤ a.cost b.cost
    then true
    else if ltb_ℤ b.cost a.cost
    then false
    else text_leb a.robot_id b.robot_id

-- When a dispatch runs, and how it judges heartbeats and workloads.
pub record Terms : Type 0 where
  pub now : ℕ
  pub heartbeat_timeout : ℤ
  pub workload_penalty : Dict String ℤ

abbrev pub costed : String → Option (ℤ × Reason) → List DispatchCandidate
costed robot_id none = []
costed robot_id (some (cost, reason)) =
    record { robot_id = robot_id; cost = cost; dispatch_reason = reason } ∷ []

abbrev pub new_assignment : Terms → DispatchDecision → AssignmentRecord
new_assignment terms decision = record {
  id = 0;
  task_id = decision.task_id;
  robot_id = decision.robot_id;
  pickup_station = decision.pickup_station;
  cost = decision.cost;
  dispatch_reason = decision.dispatch_reason;
  status = AssignmentStatus.assigned;
  assigned_at = whole_second terms.now;
  updated_at = whole_second terms.now;
}

-- Higher priority first, then the smaller task id.
abbrev pub task_leb : DispatchTask → DispatchTask → Bool
task_leb a b =
    if ltb (priority_order a.priority) (priority_order b.priority)
    then true
    else if ltb (priority_order b.priority) (priority_order a.priority)
    then false
    else leb a.task_id b.task_id

abbrev is_no_robot : Error → Bool
is_no_robot no_available_robot = true
is_no_robot _ = false

module _ (config : Config) (terms : Terms) where
  -- A robot's candidate: none if it cannot accept the task, or if a station is not known.
  unfoldable pub candidate_of : Registry → DispatchTask → RobotRecord → List DispatchCandidate
  candidate_of reg task robot =
      if not (can_accept_task robot.robot_id (some terms.now) terms.heartbeat_timeout reg)
      then []
      else costed robot.robot_id (
          compute_assignment_cost config robot.current_station task.pickup_station task.priority
            (or_default (lookup robot.robot_id terms.workload_penalty) (pos 0)))

  unfoldable pub candidates_of : Registry → DispatchTask → List RobotRecord → List DispatchCandidate
  candidates_of reg task [] = []
  candidates_of reg task (robot ∷ robots) =
      candidate_of reg task robot ++ candidates_of reg task robots

  unfoldable pub list_candidates : DispatchTask → Registry → List DispatchCandidate
  list_candidates task reg = sort candidate_leb (candidates_of reg task (list_robots reg))

  abbrev pub first_of_candidates : DispatchTask → List DispatchCandidate → Option DispatchDecision
  first_of_candidates task [] = none
  first_of_candidates task (best ∷ _) = some (record {
    task_id = task.task_id;
    robot_id = best.robot_id;
    pickup_station = task.pickup_station;
    cost = best.cost;
    dispatch_reason = best.dispatch_reason;
  })

  unfoldable pub select_robot : DispatchTask → Registry → Option DispatchDecision
  select_robot task reg = first_of_candidates task (list_candidates task reg)

  -- The part of `assign_task` that follows the decision.
  unfoldable pub assign_decided : DispatchDecision → Action AssignmentRecord
  assign_decided decision = do
    in_registry (Registry.assign_task decision.robot_id decision.task_id)
    assignment ← record_assignment decision.task_id (new_assignment terms decision)
    emit_event "TASK_ASSIGNED" (some decision.task_id) (some decision.robot_id)
        (some decision.dispatch_reason) (some (whole_second terms.now))
    pure assignment

  unfoldable pub assign_task : DispatchTask → Action AssignmentRecord
  assign_task task = do
    existing ← reads (get_assignment_for_task task.task_id)
    raise_if (is_some existing) task_already_assigned
    choice ← reads (λ d. select_robot task d.registry)
    decision ← require no_available_robot choice
    assign_decided decision

  -- The loop of `dispatch_tasks`: it ends at the first task that no robot can take.
  unfoldable pub dispatch_loop :
      List DispatchTask → List AssignmentRecord → Action (List AssignmentRecord)
  dispatch_loop [] results d = (returned results, d)
  dispatch_loop (task ∷ rest) results d = elim (is_some (get_assignment_for_task task.task_id d)) [
    | true ↦ dispatch_loop rest results d
    | false ↦
        let (result, d') = assign_task task d in
        elim result [
          | returned assignment ↦ dispatch_loop rest (results ++ assignment ∷ []) d'
          | raised e ↦ (if is_no_robot e then returned results else raised e, d')
        ]
  ]

  unfoldable pub dispatch_tasks : List DispatchTask → Action (List AssignmentRecord)
  dispatch_tasks tasks = dispatch_loop (sort task_leb tasks) []
