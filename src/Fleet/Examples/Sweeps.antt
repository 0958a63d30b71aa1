-- ===== src/Fleet/Examples/Sweeps.antt =====
-- The theorems on the heartbeat monitor, on the loaded robot of the small fleet.
use amr_warehouse_navigation.Common.{
  true, false, ◌≡◌, refl, some, [], ◌∷◌, string_key, nat_key, raised, inr, Bool,
}
use amr_warehouse_navigation.Common.Int.{pos}
use amr_warehouse_navigation.Common.Dict.{lookup}
use amr_warehouse_navigation.Common.Order.{sort, place}
use amr_warehouse_navigation.Fleet.Errors.{invalid_lifecycle_transition}
use amr_warehouse_navigation.Fleet.Robots.{is_heartbeat_valid}
use amr_warehouse_navigation.Fleet.Registry.{list_robots, select_robots}
use amr_warehouse_navigation.Fleet.Lifecycle.{WmsTaskStatus, HaulExecutionPhase, HaulTaskSnapshot}
use amr_warehouse_navigation.Fleet.Haul.Run.{fresh_snapshot}
use amr_warehouse_navigation.Fleet.Heartbeat.{
  Monitor, haul_of, is_blocked, is_skipped, sweep_late, sweep,
}
use amr_warehouse_navigation.Fleet.Heartbeat.Late.{
  Offlines, sweep_stops_at_pickup, sweep_late-Offlines,
}
use amr_warehouse_navigation.Fleet.Heartbeat.Sweeps.{SweepsAll, sweep-SweepsAll}
use amr_warehouse_navigation.Fleet.Examples.{registry-IsValid, loaded, registry, dispatcher}

abbrev haul_at : HaulExecutionPhase → Bool → HaulTaskSnapshot
haul_at phase picked_up = record (fresh_snapshot 7 "shelf_a" "dock" "high") {
  wms_status = WmsTaskStatus.in_progress;
  execution_phase = phase;
  robot_id = some "loaded";
  pickup_completed = picked_up;
}

abbrev monitor : HaulTaskSnapshot → Monitor
monitor haul = record {
  dispatcher = record dispatcher {
    registry = record registry { robots = ("loaded", loaded) ∷ [] };
  };
  hauls = (7, haul) ∷ [];
}

abbrev at_pickup : Monitor
at_pickup = monitor (haul_at HaulExecutionPhase.pickup false)

abbrev on_board : Monitor
on_board = monitor (haul_at HaulExecutionPhase.navigating_to_dropoff true)

loaded_listed : list_robots at_pickup.dispatcher.registry ≡ loaded ∷ []
unfolding list_robots select_robots sort place lookup
loaded_listed = refl

loaded_late : is_skipped 3600000000 (pos 30000000) loaded ≡ false
unfolding is_heartbeat_valid
loaded_late = refl

haul_known : lookup 7 at_pickup.hauls ≡ some (haul_at HaulExecutionPhase.pickup false)
unfolding lookup
haul_known = refl

sweep_stops_at_pickup_example :
    ((sweep 3600000000 (pos 30000000) at_pickup).0 ≡ raised invalid_lifecycle_transition)
    × ((sweep 3600000000 (pos 30000000) at_pickup).1.dispatcher.registry
        ≡ at_pickup.dispatcher.registry)
sweep_stops_at_pickup_example =
    sweep_stops_at_pickup 3600000000 (pos 30000000) at_pickup [] loaded [] 7
      (haul_at HaulExecutionPhase.pickup false) loaded_listed tt loaded_late refl haul_known refl
      refl

loaded_found : lookup "loaded" on_board.dispatcher.registry.robots ≡ some loaded
unfolding lookup
loaded_found = refl

load_kept : is_blocked (haul_of loaded on_board) ≡ true
unfolding lookup
load_kept = refl

sweep_late-Offlines_example :
    Offlines (pos 30000000) on_board loaded (sweep_late (pos 30000000) loaded on_board)
sweep_late-Offlines_example =
    sweep_late-Offlines (pos 30000000) on_board loaded loaded_found (inr load_kept)

abbrev without_hauls : Monitor
without_hauls = record { dispatcher = dispatcher; hauls = [] }

sweep-SweepsAll_example :
    SweepsAll 3600000000 (pos 30000000) (sweep 3600000000 (pos 30000000) without_hauls)
sweep-SweepsAll_example =
    sweep-SweepsAll 3600000000 (pos 30000000) without_hauls registry-IsValid refl
