-- ===== src/Fleet/Registry/Stranded.antt =====
-- A robot that goes OFFLINE or ERROR with its task still bound.
use amr_warehouse_navigation.Common.{
  true, false, ◌≡◌, ◌⊎◌, inl, inr, Option, none, some, List, [], ◌∷◌, String, ◌==◌, string_key, ℕ,
  Outcome, returned, raised, arith, Option-cases, Bool-cases, if◌then◌else◌,
}
use text.Mathlib.TextEquality.{eq_iff}
use amr_warehouse_navigation.Common.Int.{ℤ}
use amr_warehouse_navigation.Common.Dict.{lookup}
use amr_warehouse_navigation.Fleet.Errors.{Error}
use amr_warehouse_navigation.Fleet.Robots.{RobotRecord}
use amr_warehouse_navigation.Fleet.Registry.{Registry, can_accept_task}
use amr_warehouse_navigation.Fleet.Registry.Calls.{
  RegistryCall, run_call, stranded, Effect, run_call-Effect,
}
use amr_warehouse_navigation.Fleet.Registry.Invariant.{
  IsValid, run_call-IsValid, run_call-unknown, lookup-upsert_robot,
}

-- A history of method calls, each on a robot of its own.
unfoldable pub run_calls : List (RegistryCall × String) → Registry → Registry
run_calls [] reg = reg
run_calls ((c, i) ∷ cs) reg = run_calls cs (run_call c i reg).1

abbrev pub StrandedWith : ℕ → Option RobotRecord → Type 0
StrandedWith task none = ⊥
StrandedWith task (some robot) =
    (stranded robot.state robot.current_task_id ≡ true) × (robot.current_task_id ≡ some task)

Effect-stranded :
    (i j : String) (task : ℕ) (reg : Registry) (old : RobotRecord)
    (result : Outcome Error RobotRecord × Registry)
    → lookup i reg.robots ≡ some old
    → old.robot_id ≡ i
    → Effect old reg result
    → StrandedWith task (lookup j reg.robots)
    → StrandedWith task (lookup j result.1.robots)
Effect-stranded i j task reg old (raised e, reg') found own same h = rw same h
Effect-stranded i j task reg old (returned new, reg') found own (inl (_, same)) h = rw same h
Effect-stranded i j task reg old (returned new, reg') found own (inr (step, wrote)) h =
    rw wrote (rw (lookup-upsert_robot new j reg) (decide (Bool-cases (new.robot_id == j))))
  where
    decide :
        ((new.robot_id == j) ≡ true) ⊎ ((new.robot_id == j) ≡ false)
        → StrandedWith task (if new.robot_id == j then some new else lookup j reg.robots)
    decide (inr e) = rw e h
    decide (inl e) = rw e (ground (arith, eq_iff new.robot_id j, step.same_id, step.kept_stranded))

run_call-stranded :
    (c : RegistryCall) (i j : String) (task : ℕ) (reg : Registry)
    → IsValid reg
    → StrandedWith task (lookup j reg.robots)
    → StrandedWith task (lookup j (run_call c i reg).1.robots)
run_call-stranded c i j task reg v h = elim (Option-cases (lookup i reg.robots)) [
  | inl e ↦ rw (run_call-unknown c i reg e) h
  | inr (old, e) ↦
      Effect-stranded i j task reg old (run_call c i reg) e (v i old e).own_id
        (run_call-Effect c i reg old e) h
]

stranded_refuses :
    (j : String) (task : ℕ) (now : Option ℕ) (timeout : ℤ) (reg : Registry)
    → StrandedWith task (lookup j reg.robots)
    → can_accept_task j now timeout reg ≡ false
unfolding can_accept_task
stranded_refuses j task now timeout reg h = ground arith

-- A robot that is OFFLINE or ERROR and still bound to a task stays so, bound to that task, after
-- every history of `RegistryCall` methods on a valid registry, and does not accept a task then.
pub stranded_forever :
    (cs : List (RegistryCall × String)) (j : String) (task : ℕ) (reg : Registry) (now : Option ℕ)
    (timeout : ℤ)
    → IsValid reg
    → StrandedWith task (lookup j reg.robots)
    → StrandedWith task (lookup j (run_calls cs reg).robots)
      × (can_accept_task j now timeout (run_calls cs reg) ≡ false)
unfolding run_calls
stranded_forever [] j task reg now timeout v h = (h, stranded_refuses j task now timeout reg h)
stranded_forever ((c, i) ∷ cs) j task reg now timeout v h =
    stranded_forever cs j task (run_call c i reg).1 now timeout (run_call-IsValid c i reg v)
      (run_call-stranded c i j task reg v h)
