-- ===== src/Fleet/Registry/Invariant.antt =====
-- What holds of `RobotRegistry` between two calls, and what a call leaves alone.
use amr_warehouse_navigation.Common.{
  true, ◌≡◌, refl, ◌⊎◌, inl, inr, Option, none, some, String, ◌==◌, string_key, Outcome, returned,
  raised, arith, Option-cases, if◌then◌else◌, ◌≢◌,
}
use text.Mathlib.TextEquality.{eq_iff}
use amr_warehouse_navigation.Common.Dict.{lookup, lookup-insert}
use amr_warehouse_navigation.Fleet.Errors.{Error, robot_not_found}
use amr_warehouse_navigation.Fleet.RobotState.{allowed}
use amr_warehouse_navigation.Fleet.Robots.{RobotRecord}
use amr_warehouse_navigation.Fleet.Registry.{
  Registry, record_heartbeat, assign_task, mark_busy, release_task, mark_offline, mark_error,
  set_current_station, recover_to_idle, upsert_robot,
}
use amr_warehouse_navigation.Fleet.Registry.Calls.{
  RegistryCall, run_call, consistent, Effect, run_call-Effect,
}

-- Every robot stands under its own id, and its task agrees with its state.
pub record IsGood (i : String) (robot : RobotRecord) : Type 0 where
  pub own_id : robot.robot_id ≡ i
  pub agrees : consistent robot.state robot.current_task_id ≡ true

abbrev pub IsValid : Registry → Type 0
IsValid reg = (i : String) (robot : RobotRecord) → lookup i reg.robots ≡ some robot → IsGood i robot

-- What `upsert_robot` stores is found under its id, and nothing else changes.
pub lookup-upsert_robot :
    (robot : RobotRecord) (j : String) (reg : Registry)
    → lookup j (upsert_robot robot reg).1.robots
      ≡ (if robot.robot_id == j then some robot else lookup j reg.robots)
unfolding upsert_robot
lookup-upsert_robot robot j reg = lookup-insert robot.robot_id j robot reg.robots

pub upsert_robot-IsValid :
    (robot : RobotRecord) (reg : Registry)
    → consistent robot.state robot.current_task_id ≡ true
    → IsValid reg
    → IsValid (upsert_robot robot reg).1
upsert_robot-IsValid robot reg c v j r e =
    ground (arith, lookup-upsert_robot robot j reg, eq_iff robot.robot_id j, v j r)

-- A call on an id that is not registered raises `RobotNotFoundError` and changes nothing.
pub run_call-unknown :
    (c : RegistryCall) (i : String) (reg : Registry)
    → lookup i reg.robots ≡ none
    → run_call c i reg ≡ (raised robot_not_found, reg)
unfolding run_call record_heartbeat assign_task mark_busy release_task mark_offline mark_error
    set_current_station recover_to_idle
run_call-unknown (RegistryCall.heartbeat ts st bat rec) i reg e = ground arith
run_call-unknown (RegistryCall.assign task_id) i reg e = ground arith
run_call-unknown RegistryCall.busy i reg e = ground arith
run_call-unknown RegistryCall.release i reg e = ground arith
run_call-unknown RegistryCall.offline i reg e = ground arith
run_call-unknown RegistryCall.error i reg e = ground arith
run_call-unknown RegistryCall.recover i reg e = ground arith
run_call-unknown (RegistryCall.station st) i reg e = ground arith

Effect-IsValid :
    (i : String) (reg : Registry) (old : RobotRecord)
    (result : Outcome Error RobotRecord × Registry)
    → lookup i reg.robots ≡ some old
    → IsValid reg
    → Effect old reg result
    → IsValid result.1
Effect-IsValid i reg old (raised e, reg') found v same = rw same v
Effect-IsValid i reg old (returned new, reg') found v (inl (_, same)) = rw same v
Effect-IsValid i reg old (returned new, reg') found v (inr (step, wrote)) =
    rw wrote (upsert_robot-IsValid new reg (step.kept_consistent (v i old found).agrees) v)

-- Every method keeps a registry valid, whether it returns or raises: each robot is stored under its
-- own id, an IDLE robot holds no task, and an ASSIGNED or BUSY one holds a task. The methods are
-- those of `RegistryCall`, so `upsert_robot` is not among them.
pub run_call-IsValid :
    (c : RegistryCall) (i : String) (reg : Registry) → IsValid reg → IsValid (run_call c i reg).1
run_call-IsValid c i reg v = elim (Option-cases (lookup i reg.robots)) [
  | inl e ↦ rw (run_call-unknown c i reg e) v
  | inr (old, e) ↦ Effect-IsValid i reg old (run_call c i reg) e v (run_call-Effect c i reg old e)
]

abbrev pub MovesLawfully : Option RobotRecord → Option RobotRecord → Type 0
MovesLawfully none after = after ≡ none
MovesLawfully (some old) none = ⊥
MovesLawfully (some old) (some new) = (new.state ≡ old.state) ⊎ (allowed old.state new.state ≡ true)

MovesLawfully-refl : (o : Option RobotRecord) → MovesLawfully o o
MovesLawfully-refl none = refl
MovesLawfully-refl (some robot) = inl refl

pub Effect-frame :
    (i : String) (reg : Registry) (old : RobotRecord)
    (result : Outcome Error RobotRecord × Registry)
    → lookup i reg.robots ≡ some old
    → old.robot_id ≡ i
    → Effect old reg result
    → MovesLawfully (lookup i reg.robots) (lookup i result.1.robots)
      × ((j : String) → j ≢ i → lookup j result.1.robots ≡ lookup j reg.robots)
Effect-frame i reg old (raised e, reg') found own same =
    rw same (MovesLawfully-refl (lookup i reg.robots), λ j ne. refl)
Effect-frame i reg old (returned new, reg') found own (inl (_, same)) =
    rw same (MovesLawfully-refl (lookup i reg.robots), λ j ne. refl)
Effect-frame i reg old (returned new, reg') found own (inr (step, wrote)) = rw wrote (
  ground (arith, lookup-upsert_robot new i reg, eq_iff new.robot_id i, step.same_id),
  λ j ne. ground (arith, lookup-upsert_robot new j reg, eq_iff new.robot_id j, step.same_id),
)

-- In a valid registry a method of `RegistryCall` moves the state of its own robot along the
-- transition table or leaves it, adds and removes no robot, and leaves every other robot as it was.
pub run_call-frame :
    (c : RegistryCall) (i : String) (reg : Registry)
    → IsValid reg
    → MovesLawfully (lookup i reg.robots) (lookup i (run_call c i reg).1.robots)
      × ((j : String) → j ≢ i → lookup j (run_call c i reg).1.robots ≡ lookup j reg.robots)
run_call-frame c i reg v = elim (Option-cases (lookup i reg.robots)) [
  | inl e ↦ rw (run_call-unknown c i reg e) (MovesLawfully-refl (lookup i reg.robots), λ j ne. refl)
  | inr (old, e) ↦
      Effect-frame i reg old (run_call c i reg) e (v i old e).own_id (run_call-Effect c i reg old e)
]

Effect-raised :
    (old : RobotRecord) (reg : Registry) (result : Outcome Error RobotRecord × Registry) (x : Error)
    → Effect old reg result
    → result.0 ≡ raised x
    → result.1 ≡ reg
Effect-raised old reg (raised e, reg') x same h = same
Effect-raised old reg (returned new, reg') x same h = cc

-- An exception of the fleet is raised before the first write.
pub run_call_atomic :
    (c : RegistryCall) (i : String) (reg : Registry) (x : Error)
    → (run_call c i reg).0 ≡ raised x
    → (run_call c i reg).1 ≡ reg
run_call_atomic c i reg x h = elim (Option-cases (lookup i reg.robots)) [
  | inl e ↦ rw (run_call-unknown c i reg e)
  | inr (old, e) ↦ Effect-raised old reg (run_call c i reg) x (run_call-Effect c i reg old e) h
]
