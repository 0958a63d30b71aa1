-- ===== src/Fleet/Examples/Registries.antt =====
-- The theorems on the registry and its table, on the small fleet.
use amr_warehouse_navigation.Common.{
  Bool, true, false, ◌≡◌, ◌≢◌, ◌↔◌, refl, none, some, List, [], ◌∷◌, String, string_key, returned,
  raised,
}
use amr_warehouse_navigation.Common.Int.{pos}
use amr_warehouse_navigation.Common.Dict.{Dict, lookup}
use amr_warehouse_navigation.Fleet.Errors.{robot_active_task_conflict}
use amr_warehouse_navigation.Fleet.RobotState.{RobotState}
use amr_warehouse_navigation.Fleet.Robots.{
  RobotRecord, RobotRow, is_heartbeat_valid, load_robots_from_db,
}
use amr_warehouse_navigation.Fleet.Registry.{assign_task, can_accept_task}
use amr_warehouse_navigation.Fleet.Registry.Calls.{RegistryCall, run_call}
use amr_warehouse_navigation.Fleet.Registry.Invariant.{
  IsValid, MovesLawfully, run_call-IsValid, run_call-frame,
}
use amr_warehouse_navigation.Fleet.Registry.Stranded.{run_calls, StrandedWith, stranded_forever}
use amr_warehouse_navigation.Fleet.Registry.Assignment.{can_accept_task_iff, assign_task_refused}
use amr_warehouse_navigation.Fleet.Registry.Refusals.{
  Settles, MirrorsBut, run_call_on, run_call_on-Settles, run_call_on-MirrorsBut,
}
use amr_warehouse_navigation.Fleet.Registry.Restart.{load_robots_from_db_restores}
use amr_warehouse_navigation.Fleet.Examples.{
  loaded, fleet, fleet_table, registry, registry-IsValid, registry-Mirrors, fleet_table-IsKeyed,
}

run_call-IsValid_example : IsValid (run_call (RegistryCall.assign 4) "near" registry).1
run_call-IsValid_example = run_call-IsValid (RegistryCall.assign 4) "near" registry registry-IsValid

run_call-frame_example :
    MovesLawfully
      (lookup "near" registry.robots)
      (lookup "near" (run_call (RegistryCall.assign 4) "near" registry).1.robots)
    × ((j : String)
        → j ≢ "near"
        → lookup j (run_call (RegistryCall.assign 4) "near" registry).1.robots
          ≡ lookup j registry.robots)
run_call-frame_example = run_call-frame (RegistryCall.assign 4) "near" registry registry-IsValid

-- A database that takes no row.
abbrev refuses_all : RobotRow → Bool
refuses_all row = true

run_call_on-Settles_example :
    Settles "near" registry (run_call_on refuses_all RegistryCall.offline "near" registry)
run_call_on-Settles_example =
    run_call_on-Settles refuses_all RegistryCall.offline "near" registry registry-IsValid

nobody : lookup "nobody" registry.robots ≡ none
unfolding lookup
nobody = refl

lost_stranded : StrandedWith 9 (lookup "lost" registry.robots)
unfolding lookup
lost_stranded = (refl, refl)

abbrev rescue : List (RegistryCall × String)
rescue = (RegistryCall.recover, "lost") ∷ (RegistryCall.release, "lost") ∷ []

stranded_forever_example :
    StrandedWith 9 (lookup "lost" (run_calls rescue registry).robots)
    × (can_accept_task "lost" (some 5500000) (pos 30000000) (run_calls rescue registry) ≡ false)
stranded_forever_example =
    stranded_forever rescue "lost" 9 registry (some 5500000) (pos 30000000) registry-IsValid
      lost_stranded

can_accept_task_iff_example :
    (can_accept_task "near" (some 5500000) (pos 30000000) registry ≡ true) ↔ (
      (r : RobotRecord) × (lookup "near" registry.robots ≡ some r)
      × (r.state ≡ RobotState.idle)
      × (is_heartbeat_valid r 5500000 (pos 30000000) ≡ true))
can_accept_task_iff_example = can_accept_task_iff "near" 5500000 (pos 30000000) registry

near_accepts : can_accept_task "near" (some 5500000) (pos 30000000) registry ≡ true
unfolding can_accept_task lookup is_heartbeat_valid
near_accepts = refl

loaded_found : lookup "loaded" registry.robots ≡ some loaded
unfolding lookup
loaded_found = refl

busy_is_not_idle : RobotState.busy ≢ RobotState.idle
busy_is_not_idle e = cc

assign_task_refused_example :
    assign_task "loaded" 4 registry ≡ (raised robot_active_task_conflict, registry)
assign_task_refused_example =
    assign_task_refused "loaded" 4 registry loaded loaded_found busy_is_not_idle

run_call_on-MirrorsBut_example :
    MirrorsBut "near" (run_call_on refuses_all RegistryCall.offline "near" registry)
run_call_on-MirrorsBut_example =
    run_call_on-MirrorsBut refuses_all RegistryCall.offline "near" registry registry-IsValid
      registry-Mirrors

load_robots_from_db_restores_example :
    (restored : Dict String RobotRecord) × (load_robots_from_db fleet_table ≡ returned restored)
    × ((i : String) → lookup i restored ≡ lookup i fleet)
load_robots_from_db_restores_example =
    load_robots_from_db_restores fleet fleet_table fleet_table-IsKeyed registry-Mirrors
