-- ===== src/Fleet/Dispatcher/Assigning.antt =====
-- `FleetDispatcher.assign_task` on each of its branches.
use amr_warehouse_navigation.Common.{
  true, ◌≡◌, refl, none, some, [], ◌∷◌, ◌++◌, String, ℕ, nat_key, string_key, Outcome, returned,
  raised, arith, inl, ◌⊎◌, ◌≢◌, subst,
}
use text.Mathlib.TextEquality.{eq_iff}
use amr_warehouse_navigation.Common.Dict.{lookup, insert}
use amr_warehouse_navigation.Fleet.Errors.{Error, task_already_assigned, no_available_robot}
use amr_warehouse_navigation.Fleet.RobotState.{RobotState}
use amr_warehouse_navigation.Fleet.Robots.{RobotRecord, whole_second}
use amr_warehouse_navigation.Fleet.Registry.{Registry, upsert_robot, can_accept_task}
use amr_warehouse_navigation.Fleet.Registry
use amr_warehouse_navigation.Fleet.Registry.Assignment.{assign_task_accepted}
use amr_warehouse_navigation.Fleet.Registry.Invariant.{
  IsValid, lookup-upsert_robot, upsert_robot-IsValid,
}
use amr_warehouse_navigation.Fleet.Events.{FleetEvent}
use amr_warehouse_navigation.Fleet.Assignment.{AssignmentRecord}
use amr_warehouse_navigation.Fleet.Stations.{Config}
use amr_warehouse_navigation.Fleet.Tasks.{DispatchTask, DispatchDecision}
use amr_warehouse_navigation.Fleet.Dispatcher.{
  Dispatcher, Terms, get_assignment_for_task, select_robot, new_assignment, assign_decided,
  assign_task, emit_event,
}
use amr_warehouse_navigation.Fleet.Dispatcher.Ranking.{select_robot_sound}
use amr_warehouse_navigation.Fleet.Dispatcher.Records.{FiledIn, Files, record_assignment-Files}

-- The robots are valid, and every assignment on file has its row.
pub record IsSound (d : Dispatcher) : Type 0 where
  pub robots_valid : IsValid d.registry
  pub filed : FiledIn d.table d.assignments

abbrev pub Holds : String → ℕ → Registry → Type 0
Holds robot_id task_id reg =
    (robot : RobotRecord) × (lookup robot_id reg.robots ≡ some robot)
    × (robot.state ≡ RobotState.assigned)
    × (robot.current_task_id ≡ some task_id)

-- The registry after an accepted assignment.
pub record Accepts (i : String) (task : ℕ) (before after : Registry) : Type 0 where
  pub idle_before :
      (old : RobotRecord) × (lookup i before.robots ≡ some old) × (old.state ≡ RobotState.idle)
  pub holds : Holds i task after
  pub others : (j : String) → j ≢ i → lookup j after.robots ≡ lookup j before.robots
  pub valid : IsValid after

Accepts-upsert :
    (i : String) (task : ℕ) (reg : Registry) (old : RobotRecord)
    → IsValid reg
    → lookup i reg.robots ≡ some old
    → old.state ≡ RobotState.idle
    → (let new = record old {
      state = RobotState.assigned;
      current_task_id = some task;
      updated_at = whole_second reg.clock;
    } in
        Accepts i task reg (upsert_robot new reg).1)
Accepts-upsert i task reg old v found idle =
    let new : RobotRecord = record old {
      state = RobotState.assigned;
      current_task_id = some task;
      updated_at = whole_second reg.clock;
    } in
    record {
      idle_before = (old, found, idle);
      holds = (
        new,
        ground (arith, lookup-upsert_robot new i reg, eq_iff old.robot_id i, v i old found),
        refl,
        refl,
      );
      others = λ j ne.
          ground (arith, lookup-upsert_robot new j reg, eq_iff old.robot_id j, v i old found);
      valid = upsert_robot-IsValid new reg refl v;
    }

-- What a successful `assign_task` has done: a new active assignment of the decision on file, the
-- robot moved from IDLE to holding the task, one event at the end, and nothing else.
pub record Assigned (terms : Terms) (decision : DispatchDecision) (d : Dispatcher)
    (result : Outcome Error AssignmentRecord × Dispatcher) : Type 0 where
  pub id : ℕ
  pub after : Dispatcher
  pub runs : result ≡ (returned (record (new_assignment terms decision) { id = id }), after)
  pub robots : Accepts decision.robot_id decision.task_id d.registry after.registry
  pub assignments :
      after.assignments
      ≡ insert decision.task_id (record (new_assignment terms decision) { id = id }) d.assignments
  pub events :
      after.events
      ≡ d.events
        ++ record {
          timestamp = whole_second terms.now;
          event = "TASK_ASSIGNED";
          task_id = some decision.task_id;
          robot_id = some decision.robot_id;
          reason = some decision.dispatch_reason;
        }
          ∷ []
  pub sound : IsSound after

module _ (config : Config) (terms : Terms) where
  abbrev assigned_event : DispatchDecision → FleetEvent
  assigned_event decision = record {
    timestamp = whole_second terms.now;
    event = "TASK_ASSIGNED";
    task_id = some decision.task_id;
    robot_id = some decision.robot_id;
    reason = some decision.dispatch_reason;
  }

  -- The calls of `assign_decided` one after the other, each by what it is known to return.
  assign_decided_runs :
      (decision : DispatchDecision) (d : Dispatcher) (new : RobotRecord) (reg : Registry)
      (files : Files (record d { registry = reg }) decision.task_id (new_assignment terms decision))
      → Registry.assign_task decision.robot_id decision.task_id d.registry ≡ (returned new, reg)
      → assign_decided config terms decision d ≡ (
        returned (record (new_assignment terms decision) { id = files.id }),
        record {
          registry = reg;
          assignments =
              insert decision.task_id
                (record (new_assignment terms decision) { id = files.id })
                d.assignments;
          table = files.table;
          events = d.events ++ assigned_event decision ∷ [];
        },
      )
  unfolding assign_decided emit_event
  assign_decided_runs decision d new reg files e = ground (arith, e, files.runs)

  assign_decided-Assigned :
      (decision : DispatchDecision) (d : Dispatcher)
      → IsSound d
      → can_accept_task decision.robot_id (some terms.now) terms.heartbeat_timeout d.registry ≡ true
      → Assigned terms decision d (assign_decided config terms decision d)
  unfolding upsert_robot
  assign_decided-Assigned decision d s may =
      let (old, found, idle, runs) =
        assign_task_accepted decision.robot_id decision.task_id (some terms.now)
          terms.heartbeat_timeout d.registry may in
      let new : RobotRecord = record old {
        state = RobotState.assigned;
        current_task_id = some decision.task_id;
        updated_at = whole_second d.registry.clock;
      } in
      let reg = (upsert_robot new d.registry).1 in
      let acc =
        Accepts-upsert decision.robot_id decision.task_id d.registry old s.robots_valid found
          idle in
      let files =
        record_assignment-Files (record d { registry = reg }) decision.task_id
          (new_assignment terms decision) s.filed (refl, inl refl) in
      let saved : AssignmentRecord = record (new_assignment terms decision) { id = files.id } in
      record {
        id = files.id;
        after = record {
          registry = reg;
          assignments = insert decision.task_id saved d.assignments;
          table = files.table;
          events =
              d.events
              ++ record {
                timestamp = whole_second terms.now;
                event = "TASK_ASSIGNED";
                task_id = some decision.task_id;
                robot_id = some decision.robot_id;
                reason = some decision.dispatch_reason;
              }
                ∷ [];
        };
        runs = assign_decided_runs decision d new reg files runs;
        robots = acc;
        assignments = refl;
        events = refl;
        sound = record { robots_valid = acc.valid; filed = files.filed };
      }

  -- On a sound dispatcher, for a task with no active assignment, when `select_robot` decides on a
  -- robot, `assign_task` returns a new active assignment of it, moves that robot from IDLE to
  -- ASSIGNED with the task, leaves every other robot as it was, files the assignment and logs one
  -- event.
  pub assign_task_assigns :
      (task : DispatchTask) (decision : DispatchDecision) (d : Dispatcher)
      → IsSound d
      → get_assignment_for_task task.task_id d ≡ none
      → select_robot config terms task d.registry ≡ some decision
      → Assigned terms decision d (assign_task config terms task d)
  unfolding assign_task
  assign_task_assigns task decision d s free chosen =
      let (_, _, (robot, same, may)) =
        select_robot_sound config terms task d.registry decision chosen in
      subst (Assigned terms decision d) (ground arith)
        (assign_decided-Assigned decision d s (rw (← same) may.accepts))

  -- A task that is active already, or that nobody can take, raises and changes nothing.
  pub dispatch_refused :
      (task : DispatchTask) (d : Dispatcher)
      → (get_assignment_for_task task.task_id d ≢ none)
        ⊎ ((get_assignment_for_task task.task_id d ≡ none)
            × (select_robot config terms task d.registry ≡ none))
      → assign_task config terms task d ≡ (
        raised (elim (get_assignment_for_task task.task_id d) [
          | some _ ↦ task_already_assigned
          | none ↦ no_available_robot
        ]),
        d,
      )
  unfolding assign_task
  dispatch_refused task d h = ground arith
