-- ===== src/Fleet/Registry/Calls.antt =====
-- The methods of `RobotRegistry` as one type of calls, and what any of them does to its robot.
use amr_warehouse_navigation.Common.{
  Bool, true, false, ◌≡◌, ◌⊎◌, Option, none, some, String, string_key, ℕ, is_some, Outcome,
  returned, raised, arith,
}
use amr_warehouse_navigation.Common.Int.{ℤ}
use amr_warehouse_navigation.Common.Dict.{lookup}
use amr_warehouse_navigation.Fleet.Errors.{Error}
use amr_warehouse_navigation.Fleet.RobotState.{RobotState, allowed}
use amr_warehouse_navigation.Fleet.Robots.{RobotRecord}
use amr_warehouse_navigation.Fleet.Registry.{
  Registry, record_heartbeat, assign_task, mark_busy, release_task, mark_offline, mark_error,
  set_current_station, recover_to_idle, upsert_robot,
}

-- `upsert_robot`, which stores any record it is given, is the only writer left out.
pub data RegistryCall : Type 0 where
  heartbeat : Option ℕ → Option String → Option ℤ → Bool → RegistryCall
  assign : ℕ → RegistryCall
  busy release offline error recover : RegistryCall
  station : String → RegistryCall

unfoldable pub run_call : RegistryCall → String → Registry → Outcome Error RobotRecord × Registry
run_call (RegistryCall.heartbeat ts st bat rec) i = record_heartbeat i ts st bat rec
run_call (RegistryCall.assign task_id) i = assign_task i task_id
run_call RegistryCall.busy i = mark_busy i
run_call RegistryCall.release i = release_task i
run_call RegistryCall.offline i = mark_offline i
run_call RegistryCall.error i = mark_error i
run_call RegistryCall.recover i = recover_to_idle i
run_call (RegistryCall.station st) i = set_current_station i st

-- An IDLE robot holds no task, an ASSIGNED or BUSY one holds a task.
abbrev pub consistent : RobotState → Option ℕ → Bool
consistent RobotState.idle none = true
consistent RobotState.idle (some _) = false
consistent RobotState.assigned task = is_some task
consistent RobotState.busy task = is_some task
consistent RobotState.offline _ = true
consistent RobotState.error _ = true

-- OFFLINE or ERROR while a task is still bound.
abbrev pub stranded : RobotState → Option ℕ → Bool
stranded RobotState.offline task = is_some task
stranded RobotState.error task = is_some task
stranded _ _ = false

pub record Evolves (old new : RobotRecord) : Type 0 where
  pub same_id : new.robot_id ≡ old.robot_id
  pub moved : (new.state ≡ old.state) ⊎ (allowed old.state new.state ≡ true)
  pub kept_consistent :
      consistent old.state old.current_task_id ≡ true
      → consistent new.state new.current_task_id ≡ true
  pub kept_stranded :
      stranded old.state old.current_task_id ≡ true
      → (stranded new.state new.current_task_id ≡ true)
        × (new.current_task_id ≡ old.current_task_id)

-- A call raises and writes nothing, or returns the robot as it was, or writes what it returns.
abbrev pub Effect : RobotRecord → Registry → Outcome Error RobotRecord × Registry → Type 0
Effect old reg (raised e, reg') = reg' ≡ reg
Effect old reg (returned new, reg') =
    ((new ≡ old) × (reg' ≡ reg)) ⊎ (Evolves old new × (reg' ≡ (upsert_robot new reg).1))

pub run_call-Effect :
    (c : RegistryCall) (i : String) (reg : Registry) (old : RobotRecord)
    → lookup i reg.robots ≡ some old
    → Effect old reg (run_call c i reg)
unfolding run_call record_heartbeat assign_task mark_busy release_task mark_offline mark_error
    set_current_station recover_to_idle
run_call-Effect (RegistryCall.heartbeat ts st bat rec) i reg old e = ground arith
run_call-Effect (RegistryCall.assign task_id) i reg old e = ground arith
run_call-Effect RegistryCall.busy i reg old e = ground arith
run_call-Effect RegistryCall.release i reg old e = ground arith
run_call-Effect RegistryCall.offline i reg old e = ground arith
run_call-Effect RegistryCall.error i reg old e = ground arith
run_call-Effect RegistryCall.recover i reg old e = ground arith
run_call-Effect (RegistryCall.station st) i reg old e = ground arith
