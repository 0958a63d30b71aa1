-- ===== src/Fleet/Registry/Refusals.antt =====
-- amr_warehouse_sim/fleet/registry.py: the methods of `RobotRegistry` on a database that may refuse
-- a write. `upsert_robot`, the last step of each method that writes, stores the robot in memory
-- before it writes the row, so what SQLite raises then leaves the method with the robot in memory.
use amr_warehouse_navigation.Common.{
  Bool, true, false, not, ◌&&◌, ◌≡◌, ◌≢◌, refl, inl, inr, Option, none, some, String, string_key,
  if◌then◌else◌, is_some, Outcome, returned, raised, arith, if_cases, Option-cases,
}
use text.Mathlib.TextEquality.{eq_iff}
use amr_warehouse_navigation.Common.Dict.{Dict, lookup}
use amr_warehouse_navigation.Fleet.Errors.{Error}
use amr_warehouse_navigation.Fleet.RobotState.{RobotState, same_state}
use amr_warehouse_navigation.Fleet.Robots.{RobotRecord, RobotRow, RobotTable, robot_to_row}
use amr_warehouse_navigation.Fleet.Registry.{Registry}
use amr_warehouse_navigation.Fleet.Registry.Calls.{RegistryCall, run_call, Effect, run_call-Effect}
use amr_warehouse_navigation.Fleet.Registry.Invariant.{
  IsValid, run_call-unknown, lookup-upsert_robot, MovesLawfully, Effect-frame,
}
use amr_warehouse_navigation.Fleet.Registry.Persistence.{row_of, Mirrors, Effect-Mirrors}

-- An exception of the fleet, or one of SQLite's.
pub data CallError : Type 0 where
  fleet : Error → CallError
  refused : CallError

-- `mark_offline` of an OFFLINE robot is the only call that returns without a write.
abbrev pub writes : RegistryCall → RobotRecord → Bool
writes RegistryCall.offline robot = not (same_state robot.state RobotState.offline)
writes _ robot = true

-- The end of a call: SQLite refuses the row, where there is a database and the call writes.
abbrev pub settled :
    Registry
    → Bool
    → Outcome Error RobotRecord × Registry
    → Outcome CallError RobotRecord × Registry
settled reg refuses (raised e, reg') = (raised (CallError.fleet e), reg')
settled reg refuses (returned new, reg') =
    if is_some reg.table && refuses
    then (raised CallError.refused, record reg' { table = reg.table })
    else (returned new, reg')

abbrev refuses_new : (RobotRow → Bool) → Outcome Error RobotRecord → Bool
refuses_new refuses (raised e) = false
refuses_new refuses (returned new) = refuses (robot_to_row new)

abbrev writes_found : RegistryCall → Option RobotRecord → Bool
writes_found c none = false
writes_found c (some robot) = writes c robot

unfoldable pub run_call_on :
    (RobotRow → Bool) → RegistryCall → String → Registry → Outcome CallError RobotRecord × Registry
run_call_on refuses c i reg =
    let ran = run_call c i reg in
    settled reg (writes_found c (lookup i reg.robots) && refuses_new refuses ran.0) ran

-- What a call leaves behind, by how it ended.
abbrev pub Settles : String → Registry → Outcome CallError RobotRecord × Registry → Type 0
Settles i reg (raised (CallError.fleet e), reg') = reg' ≡ reg
Settles i reg (raised CallError.refused, reg') =
    (reg'.table ≡ reg.table)
    × MovesLawfully (lookup i reg.robots) (lookup i reg'.robots)
    × ((j : String) → j ≢ i → lookup j reg'.robots ≡ lookup j reg.robots)
Settles i reg (returned new, reg') =
    (lookup i reg'.robots ≡ some new)
    × MovesLawfully (lookup i reg.robots) (lookup i reg'.robots)
    × ((j : String) → j ≢ i → lookup j reg'.robots ≡ lookup j reg.robots)

-- The row of one robot is its image.
abbrev pub MirrorsAt : String → Registry → Option RobotTable → Type 0
MirrorsAt j reg none = Unit
MirrorsAt j reg (some table) = lookup j table ≡ row_of (lookup j reg.robots)

-- The table is the image of the robots in memory, but for the robot of a refused write.
abbrev pub MirrorsBut : String → Outcome CallError RobotRecord × Registry → Type 0
MirrorsBut i (raised (CallError.fleet e), reg) = Mirrors reg.robots reg.table
MirrorsBut i (raised CallError.refused, reg) = (j : String) → j ≢ i → MirrorsAt j reg reg.table
MirrorsBut i (returned new, reg) = Mirrors reg.robots reg.table

-- What a call that returned has changed: its own robot at most.
abbrev Changed : String → Registry → RobotRecord → Registry → Type 0
Changed i reg new reg' =
    (lookup i reg'.robots ≡ some new)
    × ((j : String) → j ≢ i → lookup j reg'.robots ≡ lookup j reg.robots)

Effect-Changed :
    (i : String) (reg : Registry) (old new : RobotRecord) (reg' : Registry)
    → lookup i reg.robots ≡ some old
    → old.robot_id ≡ i
    → Effect old reg (returned new, reg')
    → Changed i reg new reg'
Effect-Changed i reg old new reg' found own (inl (same, kept)) =
    rw (kept, same) (found, λ j apart. refl)
Effect-Changed i reg old new reg' found own (inr (step, wrote)) = rw wrote (
  ground (arith, lookup-upsert_robot new i reg, eq_iff new.robot_id i, step.same_id),
  λ j apart. ground (arith, lookup-upsert_robot new j reg, eq_iff new.robot_id j, step.same_id),
)

settled-Settles :
    (i : String) (reg : Registry) (old : RobotRecord) (refuses : Bool)
    (ran : Outcome Error RobotRecord × Registry)
    → lookup i reg.robots ≡ some old
    → old.robot_id ≡ i
    → Effect old reg ran
    → Settles i reg (settled reg refuses ran)
settled-Settles i reg old refuses (raised e, reg') found own same = same
settled-Settles i reg old refuses (returned new, reg') found own effect =
    let (held, others) = Effect-Changed i reg old new reg' found own effect in
    let (moved, _) = Effect-frame i reg old (returned new, reg') found own effect in
    if_cases (Settles i reg) (is_some reg.table && refuses) _ _ (λ no. (refl, moved, others))
      (λ taken. (held, moved, others))

kept_rows :
    (i : String) (reg : Registry) (robots : Dict String RobotRecord) (table : Option RobotTable)
    → Mirrors reg.robots table
    → ((j : String) → j ≢ i → lookup j robots ≡ lookup j reg.robots)
    → (j : String) → j ≢ i
    → MirrorsAt j (record reg { robots = robots; table = table }) table
kept_rows i reg robots none m others j apart = tt
kept_rows i reg robots (some table) m others j apart = rw (others j apart) (m j)

settled-MirrorsBut :
    (i : String) (reg : Registry) (old : RobotRecord) (refuses : Bool)
    (ran : Outcome Error RobotRecord × Registry)
    → lookup i reg.robots ≡ some old
    → old.robot_id ≡ i
    → Mirrors reg.robots reg.table
    → Effect old reg ran
    → MirrorsBut i (settled reg refuses ran)
settled-MirrorsBut i reg old refuses (raised e, reg') found own m same = rw same m
settled-MirrorsBut i reg old refuses (returned new, reg') found own m effect =
    if_cases (MirrorsBut i) (is_some reg.table && refuses) _ _
      (λ no.
        kept_rows i reg reg'.robots reg.table m
          (Effect-Changed i reg old new reg' found own effect).1)
      (λ taken. Effect-Mirrors reg old (returned new, reg') m effect)

-- Whatever rows the database refuses, in a valid registry: a method of `RegistryCall` that raises
-- an exception of the fleet has written nothing, neither a robot nor a row; one that SQLite's
-- exception leaves has written no row, and in memory has changed its own robot at most; and one
-- that returns has left in memory the robot that it returns, and every other robot as it was. The
-- state of its own robot has moved along the transition table or stayed, also where the write was
-- refused.
pub run_call_on-Settles :
    (refuses : RobotRow → Bool) (c : RegistryCall) (i : String) (reg : Registry)
    → IsValid reg
    → Settles i reg (run_call_on refuses c i reg)
unfolding run_call_on
run_call_on-Settles refuses c i reg v = elim (Option-cases (lookup i reg.robots)) [
  | inl e ↦ rw (run_call-unknown c i reg e) refl
  | inr (old, e) ↦
      settled-Settles i reg old _ (run_call c i reg) e (v i old e).own_id
        (run_call-Effect c i reg old e)
]

-- Whatever rows the database refuses, in a valid registry whose table is the image of the robots
-- in memory: a method of `RegistryCall` that returns, or raises an exception of the fleet, keeps it
-- so, the row of each robot and no other row; where SQLite refuses the write, every other robot
-- than that of the call still has its row.
pub run_call_on-MirrorsBut :
    (refuses : RobotRow → Bool) (c : RegistryCall) (i : String) (reg : Registry)
    → IsValid reg
    → Mirrors reg.robots reg.table
    → MirrorsBut i (run_call_on refuses c i reg)
unfolding run_call_on
run_call_on-MirrorsBut refuses c i reg v m = elim (Option-cases (lookup i reg.robots)) [
  | inl e ↦ rw (run_call-unknown c i reg e) m
  | inr (old, e) ↦
      settled-MirrorsBut i reg old _ (run_call c i reg) e (v i old e).own_id m
        (run_call-Effect c i reg old e)
]
