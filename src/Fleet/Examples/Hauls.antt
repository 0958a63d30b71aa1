-- ===== src/Fleet/Examples/Hauls.antt =====
-- The theorems on hauls, on a haul of the small fleet.
use amr_warehouse_navigation.Common.{
  Bool, true, false, ◌≡◌, refl, none, List, [], ◌∷◌, string_key, nat_key, raised, ◌||◌, ◌==◌,
}
use amr_warehouse_navigation.Common.Int.{pos}
use amr_warehouse_navigation.Common.Dict.{lookup}
use amr_warehouse_navigation.Common.Order.{lex_leb, text_leb, place, sort}
use amr_warehouse_navigation.Fleet.Errors.{invalid_lifecycle_transition, no_available_robot}
use amr_warehouse_navigation.Fleet.Robots.{is_heartbeat_valid}
use amr_warehouse_navigation.Fleet.Registry.{can_accept_task, list_robots, select_robots}
use amr_warehouse_navigation.Fleet.Events.{Reason}
use amr_warehouse_navigation.Fleet.Stations.{station_xy, static_station_distance}
use amr_warehouse_navigation.Fleet.Tasks.{compute_assignment_cost}
use amr_warehouse_navigation.Fleet.Dispatcher.{
  get_assignment_for_task, candidate_of, candidates_of, list_candidates, select_robot,
}
use amr_warehouse_navigation.Fleet.Lifecycle.{WmsTaskStatus, HaulExecutionPhase}
use amr_warehouse_navigation.Fleet.Haul.{Haul, cancel, requeue}
use amr_warehouse_navigation.Fleet.Haul.Run.{
  Contexts, fresh_snapshot, dispatch_view, haul_terms, assign,
}
use amr_warehouse_navigation.Fleet.Haul.Legal.{HaulCall, Legal}
use amr_warehouse_navigation.Fleet.Haul.Histories.{run_hauls, run_hauls-Legal, terminal_forever}
use amr_warehouse_navigation.Fleet.Haul.Requeues.{
  reset, requeue_at_pickup, cancel-requeued, reassign_wedges,
}
use amr_warehouse_navigation.Fleet.Examples.{stations, dispatcher}

abbrev haul : Haul
haul = record { snapshot = fresh_snapshot 4 "shelf_a" "dock" "high"; dispatcher = dispatcher }

abbrev with_status : WmsTaskStatus → HaulExecutionPhase → Bool → Haul
with_status status phase picked_up = record haul {
  snapshot = record (haul.snapshot) {
    wms_status = status;
    execution_phase = phase;
    pickup_completed = picked_up;
  };
}

-- No robot has a context of its own.
abbrev contexts : Contexts
contexts robot_id = none

abbrev calls : List HaulCall
calls =
    HaulCall.assigns 5500000 (pos 30000000)
    ∷ HaulCall.starts
    ∷ HaulCall.reaches_pickup false
    ∷ HaulCall.requeues (Reason.text "test")
    ∷ []

run_hauls-Legal_example : Legal haul.snapshot (run_hauls stations contexts calls haul).snapshot
run_hauls-Legal_example = run_hauls-Legal stations contexts calls haul

abbrev ended : Haul
ended = with_status WmsTaskStatus.canceled HaulExecutionPhase.canceled false

terminal_forever_example :
    (run_hauls stations contexts calls ended).snapshot.wms_status ≡ WmsTaskStatus.canceled
terminal_forever_example = terminal_forever stations contexts calls ended refl

abbrev on_board : Haul
on_board = with_status WmsTaskStatus.in_progress HaulExecutionPhase.navigating_to_dropoff true

abbrev at_pickup : Haul
at_pickup = with_status WmsTaskStatus.in_progress HaulExecutionPhase.pickup false

requeue_at_pickup_example :
    requeue (Reason.text "test") at_pickup ≡ (raised invalid_lifecycle_transition, at_pickup)
requeue_at_pickup_example = requeue_at_pickup (Reason.text "test") at_pickup refl

abbrev requeued : Haul
requeued = with_status WmsTaskStatus.requeued HaulExecutionPhase.requeued false

cancel-requeued_example :
    cancel (Reason.text "test") requeued ≡ (raised invalid_lifecycle_transition, requeued)
cancel-requeued_example = cancel-requeued (Reason.text "test") requeued refl

priority_known :
    ((requeued.snapshot.priority == "normal") || (requeued.snapshot.priority == "high")) ≡ true
priority_known = refl

unassigned : get_assignment_for_task 4 requeued.dispatcher ≡ none
unfolding lookup
unassigned = refl

-- An hour later every heartbeat is late.
nobody_in_time :
    select_robot stations
      (haul_terms 3600000000 (pos 30000000))
      (dispatch_view requeued.snapshot)
      requeued.dispatcher.registry
    ≡ none
unfolding select_robot list_candidates candidates_of candidate_of list_robots select_robots
    can_accept_task is_heartbeat_valid compute_assignment_cost static_station_distance station_xy
    lookup sort place text_leb lex_leb
nobody_in_time = refl

reassign_wedges_example :
    (assign stations 3600000000 (pos 30000000) requeued
      ≡ (raised no_available_robot, reset requeued))
    × (assign stations 5500000 (pos 30000000) (reset requeued)
        ≡ (raised invalid_lifecycle_transition, reset requeued))
reassign_wedges_example =
    reassign_wedges stations 3600000000 5500000 (pos 30000000) (pos 30000000) requeued refl refl
      priority_known unassigned nobody_in_time
