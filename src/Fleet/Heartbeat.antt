-- ===== src/Fleet/Heartbeat.antt =====
-- amr_warehouse_sim/fleet/heartbeat.py, `HeartbeatMonitor`: robots with a late heartbeat are put
-- OFFLINE, and their hauls are requeued where that can be undone.
-- The hauls share the monitor's dispatcher, and each key has a haul of its own.
pub mod Late
pub mod Sweeps
use amr_warehouse_navigation.Common.{
  Bool, true, false, not, ◌||◌, Option, none, some, List, [], ◌∷◌, String, nat_key, ℕ, zero, suc,
  if◌then◌else◌, Method, pure, reads, within, ◌>>=◌, ◌>>◌,
}
use amr_warehouse_navigation.Common.Int.{ℤ}
use amr_warehouse_navigation.Common.Dict.{Dict, lookup, insert}
use amr_warehouse_navigation.Fleet.Errors.{Error}
use amr_warehouse_navigation.Fleet.RobotState.{RobotState, same_state}
use amr_warehouse_navigation.Fleet.Robots.{RobotRecord, is_heartbeat_valid}
use amr_warehouse_navigation.Fleet.Registry.{Registry, list_robots, mark_offline}
use amr_warehouse_navigation.Fleet.Events.{Reason}
use amr_warehouse_navigation.Fleet.Stations.{Config}
use amr_warehouse_navigation.Fleet.Dispatcher.{Dispatcher, emit_event}
use amr_warehouse_navigation.Fleet.Lifecycle.{HaulTaskSnapshot}
use amr_warehouse_navigation.Fleet.Haul.{Haul, Step, is_requeued, requeue}
use amr_warehouse_navigation.Fleet.Haul.Run.{assign}

pub record Monitor : Type 0 where
  pub dispatcher : Dispatcher
  pub hauls : Dict ℕ HaulTaskSnapshot

pub record HeartbeatSweepItem : Type 0 where
  pub robot_id : String
  pub timed_out : Bool
  pub went_offline : Bool
  pub requeued_task_id : Option ℕ
  pub reassignment_blocked : Bool
  pub reason : Reason

abbrev pub Watch : Type 0 → Type 0
Watch A = Method Error Monitor A

abbrev pub at_dispatcher : {A : Type 0} → Method Error Dispatcher A → Watch A
at_dispatcher = within (λ m. m.dispatcher) (λ d m. record m { dispatcher = d })

abbrev pub at_registry : {A : Type 0} → Method Error Registry A → Watch A
at_registry =
    within (λ m. m.dispatcher.registry)
      (λ reg m. record m { dispatcher = record (m.dispatcher) { registry = reg } })

-- A method of the haul that is kept under a key.
abbrev pub at_haul : {A : Type 0} → ℕ → HaulTaskSnapshot → Step A → Watch A
at_haul key snapshot =
    within (λ m. record { snapshot = snapshot; dispatcher = m.dispatcher })
      (λ h m. record m { dispatcher = h.dispatcher; hauls = insert key h.snapshot m.hauls })

-- The haul of the robot's task, with its key.
abbrev pub haul_of : RobotRecord → Monitor → Option (ℕ × HaulTaskSnapshot)
haul_of robot m = elim robot.current_task_id [
  | none ↦ none
  | some task_id ↦ elim (lookup task_id m.hauls) [
    | none ↦ none
    | some snapshot ↦ some (task_id, snapshot)
  ]
]

abbrev pub is_blocked : Option (ℕ × HaulTaskSnapshot) → Bool
is_blocked none = false
is_blocked (some (_, snapshot)) = snapshot.pickup_completed

-- Requeues the haul unless its load is on board: the id of the requeued task.
unfoldable pub give_back : Option (ℕ × HaulTaskSnapshot) → Reason → Watch (Option ℕ)
give_back none reason = pure none
give_back (some (key, snapshot)) reason =
    if snapshot.pickup_completed
    then pure none
    else (do requeued ← at_haul key snapshot (requeue reason); pure (some requeued.task_id))

-- `requeued_task_id or robot.current_task_id`: a task id 0 counts as none.
abbrev pub or_task : Option ℕ → Option ℕ → Option ℕ
or_task none task = task
or_task (some zero) task = task
or_task (some (suc n)) task = some (suc n)

abbrev pub offline_reason : RobotRecord → ℤ → Bool → Reason
offline_reason robot timeout blocked =
    if blocked
    then Reason.timeout_past_pickup timeout robot.last_heartbeat robot.current_task_id
    else Reason.timeout timeout robot.last_heartbeat

-- The body of the loop of `sweep`, for a robot whose heartbeat is late.
unfoldable pub sweep_late : ℤ → RobotRecord → Watch HeartbeatSweepItem
sweep_late timeout robot = do
  at_dispatcher (
      emit_event "HEARTBEAT_TIMEOUT" robot.current_task_id (some robot.robot_id)
        (some (Reason.timeout timeout robot.last_heartbeat)) none)
  haul ← reads (haul_of robot)
  requeued ← give_back haul (Reason.timeout timeout robot.last_heartbeat)
  at_registry (mark_offline robot.robot_id)
  at_dispatcher (
      emit_event "ROBOT_OFFLINE" (or_task requeued robot.current_task_id) (some robot.robot_id)
        (some (offline_reason robot timeout (is_blocked haul))) none)
  pure (record {
    robot_id = robot.robot_id;
    timed_out = true;
    went_offline = true;
    requeued_task_id = requeued;
    reassignment_blocked = is_blocked haul;
    reason = offline_reason robot timeout (is_blocked haul);
  })

abbrev pub is_skipped : ℕ → ℤ → RobotRecord → Bool
is_skipped now timeout robot =
    same_state robot.state RobotState.offline || is_heartbeat_valid robot now timeout

unfoldable pub sweep_robots : ℕ → ℤ → List RobotRecord → Watch (List HeartbeatSweepItem)
sweep_robots now timeout [] = pure []
sweep_robots now timeout (robot ∷ robots) =
    let rest = sweep_robots now timeout robots in
    if is_skipped now timeout robot
    then rest
    else (do item ← sweep_late timeout robot; items ← rest; pure (item ∷ items))

unfoldable pub sweep : ℕ → ℤ → Watch (List HeartbeatSweepItem)
sweep now timeout = do
  robots ← reads (λ m. list_robots m.dispatcher.registry)
  sweep_robots now timeout robots

unfoldable pub reassign_hauls :
    Config → ℕ → ℤ → List (ℕ × HaulTaskSnapshot) → Watch (List HaulTaskSnapshot)
reassign_hauls config now timeout [] = pure []
reassign_hauls config now timeout ((key, snapshot) ∷ hauls) =
    let rest = reassign_hauls config now timeout hauls in
    if not (is_requeued snapshot.wms_status) then rest else (do
      assigned ← at_haul key snapshot (assign config now timeout)
      others ← rest
      pure (assigned ∷ others))

unfoldable pub reassign_requeued : Config → ℕ → ℤ → Watch (List HaulTaskSnapshot)
reassign_requeued config now timeout = do
  hauls ← reads (λ m. m.hauls)
  reassign_hauls config now timeout hauls
