-- ===== src/Fleet/Examples/Dispatches.antt =====
-- The theorems on assignments and on the dispatcher, on the small fleet.
use amr_warehouse_navigation.Common.{
  ◌≡◌, ◌≢◌, inl, refl, none, some, List, [], ◌∷◌, string_key, nat_key, returned, arith,
}
use amr_warehouse_navigation.Common.Int.{pos, negsuc, ◌+ℤ◌, ◌-ℤ◌}
use amr_warehouse_navigation.Common.Dict.{lookup}
use amr_warehouse_navigation.Common.Order.{lex_leb, text_leb, place, sort}
use amr_warehouse_navigation.Fleet.Robots.{RobotRecord, is_heartbeat_valid}
use amr_warehouse_navigation.Fleet.Registry.{can_accept_task, list_robots, select_robots}
use amr_warehouse_navigation.Fleet.Events.{Reason}
use amr_warehouse_navigation.Fleet.Assignment.{
  AssignmentRecord, AssignmentTable, AssignmentStatus, persist_assignment,
}
use amr_warehouse_navigation.Fleet.Assignment.Table.{
  Extends, persist_assignment_new, persist_assignment_known,
}
use amr_warehouse_navigation.Fleet.Stations.{station_xy, static_station_distance}
use amr_warehouse_navigation.Fleet.Tasks.{DispatchTask, DispatchDecision, compute_assignment_cost}
use amr_warehouse_navigation.Fleet.Dispatcher.{
  get_assignment_for_task, candidate_of, candidates_of, list_candidates, select_robot, assign_task,
  dispatch_tasks, task_leb,
}
use amr_warehouse_navigation.Fleet.Dispatcher.Records.{FiledIn, Files, record_assignment-Files}
use amr_warehouse_navigation.Fleet.Dispatcher.Ranking.{
  MaySend, RanksBefore, select_robot_sound, select_robot_best, select_robot-none,
}
use amr_warehouse_navigation.Fleet.Dispatcher.Assigning.{IsSound, Assigned, assign_task_assigns}
use amr_warehouse_navigation.Fleet.Dispatcher.Loading.{
  BatchEnds, dispatch_tasks_on, dispatch_tasks_on-BatchEnds,
}
use amr_warehouse_navigation.Fleet.Dispatcher.Batches.{dispatch_tasks_blocked}
use amr_warehouse_navigation.Fleet.Examples.{
  near, far, registry, registry-IsValid, stations, terms, task_at, dispatcher,
}

abbrev assignment : AssignmentRecord
assignment = record {
  id = 0;
  task_id = 4;
  robot_id = "near";
  pickup_station = "shelf_a";
  cost = pos 100;
  dispatch_reason = Reason.text "test";
  status = AssignmentStatus.assigned;
  assigned_at = 3000000;
  updated_at = 3000000;
}

abbrev empty_table : AssignmentTable
empty_table = record { rows = []; last_id = 0 }

persist_assignment_new_example :
    (table : AssignmentTable) × (persist_assignment assignment empty_table
      ≡ (returned (record assignment { id = 1 }), table))
    × Extends empty_table table (record assignment { id = 1 })
persist_assignment_new_example = persist_assignment_new assignment empty_table tt refl

abbrev stored : AssignmentRecord
stored = record assignment { id = 1; status = AssignmentStatus.completed }

abbrev one_row : AssignmentTable
one_row = record {
  rows =
      record {
        id = 1;
        task_id = 4;
        robot_id = "near";
        pickup_station = "shelf_a";
        cost = pos 100;
        dispatch_reason = Reason.text "test";
        status = "assigned";
        assigned_at = 3000000;
        updated_at = 3000000;
      }
      ∷ [];
  last_id = 1;
}

persist_assignment_known_example :
    (table : AssignmentTable) × (persist_assignment stored one_row ≡ (returned stored, table))
    × Extends one_row table stored
persist_assignment_known_example =
    persist_assignment_known stored one_row ((omega arith, omega arith), tt) (λ e. omega arith) refl

one_is_not_zero : stored.id ≢ 0
one_is_not_zero e = omega arith

dispatcher-FiledIn : FiledIn dispatcher.table dispatcher.assignments
unfolding lookup
dispatcher-FiledIn = (tt, λ task a e. cc)

record_assignment-Files_example : Files dispatcher 4 assignment
record_assignment-Files_example =
    record_assignment-Files dispatcher 4 assignment dispatcher-FiledIn (refl, inl refl)

dispatcher-IsSound : IsSound dispatcher
dispatcher-IsSound = record { robots_valid = registry-IsValid; filed = dispatcher-FiledIn }

abbrev decision : DispatchDecision
decision = record {
  task_id = 4;
  robot_id = "near";
  pickup_station = "shelf_a";
  cost = negsuc 499;
  dispatch_reason = Reason.cost (pos 0) (some "shelf_a") "shelf_a" (pos 0) (negsuc 499);
}

abbrev far_reason : Reason
far_reason = Reason.cost (pos 9000) (some "dock") "shelf_a" (pos 0) (negsuc 499)

near_chosen : select_robot stations terms (task_at 4 "shelf_a") registry ≡ some decision
unfolding select_robot list_candidates candidates_of candidate_of list_robots select_robots
    can_accept_task is_heartbeat_valid compute_assignment_cost static_station_distance station_xy
    lookup sort place text_leb lex_leb ◌+ℤ◌ ◌-ℤ◌
near_chosen = refl

far_may_go : MaySend stations terms (task_at 4 "shelf_a") registry far (pos 8500) far_reason
unfolding lookup can_accept_task is_heartbeat_valid compute_assignment_cost static_station_distance
    station_xy ◌+ℤ◌ ◌-ℤ◌
far_may_go = record { registered = ("far", refl); accepts = refl; costs = refl }

select_robot_sound_example :
    (decision.task_id ≡ 4)
    × (decision.pickup_station ≡ "shelf_a")
    × ((r : RobotRecord) × (r.robot_id ≡ decision.robot_id)
        × MaySend stations terms
            (task_at 4 "shelf_a")
            registry
            r
            decision.cost
            decision.dispatch_reason)
select_robot_sound_example =
    select_robot_sound stations terms (task_at 4 "shelf_a") registry decision near_chosen

select_robot_best_example : RanksBefore "near" (negsuc 499) "far" (pos 8500)
select_robot_best_example =
    select_robot_best stations terms (task_at 4 "shelf_a") registry decision far (pos 8500)
      far_reason near_chosen far_may_go

nobody_chosen : select_robot stations terms (task_at 4 "nowhere") registry ≡ none
unfolding select_robot list_candidates candidates_of candidate_of list_robots select_robots
    can_accept_task is_heartbeat_valid compute_assignment_cost static_station_distance station_xy
    lookup sort place text_leb lex_leb
nobody_chosen = refl

select_robot-none_example :
    ¬ MaySend stations terms (task_at 4 "nowhere") registry near (pos 8500) far_reason
select_robot-none_example =
    select_robot-none stations terms (task_at 4 "nowhere") registry near (pos 8500) far_reason
      nobody_chosen

not_assigned : get_assignment_for_task 4 dispatcher ≡ none
unfolding lookup
not_assigned = refl

assign_task_assigns_example :
    Assigned terms decision dispatcher (assign_task stations terms (task_at 4 "shelf_a") dispatcher)
assign_task_assigns_example =
    assign_task_assigns stations terms (task_at 4 "shelf_a") decision dispatcher dispatcher-IsSound
      not_assigned near_chosen

abbrev batch : List DispatchTask
batch = task_at 5 "shelf_a" ∷ task_at 4 "nowhere" ∷ []

dispatch_tasks_on-BatchEnds_example :
    BatchEnds
      (returned stations)
      dispatcher
      (dispatch_tasks_on (returned stations) terms batch dispatcher)
dispatch_tasks_on-BatchEnds_example =
    dispatch_tasks_on-BatchEnds (returned stations) terms batch dispatcher dispatcher-IsSound

batch_sorted : sort task_leb batch ≡ task_at 4 "nowhere" ∷ task_at 5 "shelf_a" ∷ []
unfolding sort place
batch_sorted = refl

nowhere_missing : lookup "nowhere" stations.task_points ≡ none
unfolding lookup
nowhere_missing = refl

dispatch_tasks_blocked_example :
    dispatch_tasks stations terms batch dispatcher ≡ (returned [], dispatcher)
dispatch_tasks_blocked_example =
    dispatch_tasks_blocked stations terms batch (task_at 4 "nowhere") (task_at 5 "shelf_a" ∷ [])
      dispatcher batch_sorted not_assigned nowhere_missing
