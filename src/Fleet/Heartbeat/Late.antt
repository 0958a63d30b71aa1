-- ===== src/Fleet/Heartbeat/Late.antt =====
-- What a sweep does to a robot whose heartbeat is late.
use amr_warehouse_navigation.Common.{
  true, false, ◌≡◌, refl, sym, subst, Option, none, some, List, [], ◌∷◌, ◌++◌, All, ap, ◌∙◌, String,
  string_key, nat_key, ℕ, Outcome, returned, raised, arith, same_refl, ◌≢◌, Bool-cases, ◌⊎◌, inl,
  inr,
}
use text.Mathlib.TextEquality.{eq_iff}
use amr_warehouse_navigation.Common.Int.{ℤ}
use amr_warehouse_navigation.Common.Dict.{lookup, insert, lookup-insert}
use amr_warehouse_navigation.Fleet.Errors.{Error, invalid_lifecycle_transition}
use amr_warehouse_navigation.Fleet.RobotState.{RobotState, same_state}
use amr_warehouse_navigation.Fleet.Robots.{RobotRecord, whole_second}
use amr_warehouse_navigation.Fleet.Registry.{
  Registry, list_robots, mark_offline, transition, upsert_robot,
}
use amr_warehouse_navigation.Fleet.Events.{Reason}
use amr_warehouse_navigation.Fleet.Lifecycle.{HaulExecutionPhase, HaulTaskSnapshot}
use amr_warehouse_navigation.Fleet.Dispatcher.{emit_event}
use amr_warehouse_navigation.Fleet.Haul.Requeues.{requeue_at_pickup}
use amr_warehouse_navigation.Fleet.Heartbeat.{
  HeartbeatSweepItem, Monitor, haul_of, is_blocked, is_skipped, offline_reason, give_back,
  sweep_late, sweep_robots, sweep,
}

pub mark_offline_runs :
    (reg : Registry) (i : String) (robot : RobotRecord)
    → lookup i reg.robots ≡ some robot
    → robot.robot_id ≡ i
    → (new : RobotRecord) × (reg' : Registry) × (mark_offline i reg ≡ (returned new, reg'))
      × (new.state ≡ RobotState.offline)
      × (new.current_task_id ≡ robot.current_task_id)
      × (lookup i reg'.robots ≡ some new)
      × (new.robot_id ≡ robot.robot_id)
      × ((j : String) → j ≢ i → lookup j reg'.robots ≡ lookup j reg.robots)
unfolding mark_offline transition upsert_robot
mark_offline_runs reg i robot found own =
    elim (Bool-cases (same_state robot.state RobotState.offline)) [
      | inl e ↦
          (robot, reg, ground (arith, found), ground arith, refl, found, refl, λ j apart. refl)
      | inr e ↦ (
        put,
        (upsert_robot put reg).1,
        ground (arith, found),
        refl,
        refl,
        rw (lookup-insert robot.robot_id i put reg.robots, own, same_refl i) refl,
        refl,
        λ j apart. ground (arith, lookup-insert robot.robot_id j put reg.robots, own, eq_iff i j),
      )
    ]
  where
    put : RobotRecord
    put = record robot { state = RobotState.offline; updated_at = whole_second reg.clock }

give_back_at_pickup :
    (m : Monitor) (key : ℕ) (haul : HaulTaskSnapshot) (reason : Reason)
    → haul.execution_phase ≡ HaulExecutionPhase.pickup
    → haul.pickup_completed ≡ false
    → give_back (some (key, haul)) reason m
      ≡ (raised invalid_lifecycle_transition, record m { hauls = insert key haul m.hauls })
unfolding give_back
give_back_at_pickup m key haul reason at unacked = ground (
  arith,
  unacked,
  requeue_at_pickup reason (record { snapshot = haul; dispatcher = m.dispatcher }) at,
)

-- The monitor after the event that opens the case of a late robot.
abbrev pub noted : Monitor → ℤ → RobotRecord → Monitor
noted m timeout robot = record m {
  dispatcher =
      (emit_event "HEARTBEAT_TIMEOUT" robot.current_task_id (some robot.robot_id)
        (some (Reason.timeout timeout robot.last_heartbeat)) none m.dispatcher).1;
}

sweep_late_raises :
    (timeout : ℤ) (m n : Monitor) (robot : RobotRecord) (haul : Option (ℕ × HaulTaskSnapshot))
    → haul_of robot m ≡ haul
    → give_back haul (Reason.timeout timeout robot.last_heartbeat) (noted m timeout robot)
      ≡ (raised invalid_lifecycle_transition, n)
    → sweep_late timeout robot m ≡ (raised invalid_lifecycle_transition, n)
unfolding sweep_late emit_event
sweep_late_raises timeout m n robot haul kept run = ground (arith, kept, run)

-- Robots at the head of the list that are skipped leave no trace.
sweep_robots-skips :
    (now : ℕ) (timeout : ℤ) (ahead robots : List RobotRecord) (m : Monitor)
    → All (λ r. is_skipped now timeout r ≡ true) ahead
    → sweep_robots now timeout (ahead ++ robots) m ≡ sweep_robots now timeout robots m
unfolding sweep_robots
sweep_robots-skips now timeout [] robots m skipped = refl
sweep_robots-skips now timeout (r ∷ ahead) robots m skipped =
    rw skipped.0 (sweep_robots-skips now timeout ahead robots m skipped.1)

sweep_robots_raises :
    (now : ℕ) (timeout : ℤ) (m n : Monitor) (robot : RobotRecord) (rest : List RobotRecord)
    → is_skipped now timeout robot ≡ false
    → sweep_late timeout robot m ≡ (raised invalid_lifecycle_transition, n)
    → sweep_robots now timeout (robot ∷ rest) m ≡ (raised invalid_lifecycle_transition, n)
unfolding sweep_robots
sweep_robots_raises now timeout m n robot rest late run = ground (arith, late, run)

sweep_listed :
    (now : ℕ) (timeout : ℤ) (m : Monitor) (robots : List RobotRecord)
    → list_robots m.dispatcher.registry ≡ robots
    → sweep now timeout m ≡ sweep_robots now timeout robots m
unfolding sweep
sweep_listed now timeout m robots listed = ap (λ rs. sweep_robots now timeout rs m) listed

-- Where the first robot in the list that is neither OFFLINE nor in time has a haul that stands at
-- the pickup station with its load not acknowledged, requeueing the haul raises, the exception
-- leaves the sweep, and no robot is put OFFLINE, neither that one nor any after it.
pub sweep_stops_at_pickup :
    (now : ℕ) (timeout : ℤ) (m : Monitor) (ahead : List RobotRecord) (robot : RobotRecord)
    (rest : List RobotRecord) (task : ℕ) (haul : HaulTaskSnapshot)
    → list_robots m.dispatcher.registry ≡ ahead ++ robot ∷ rest
    → All (λ r. is_skipped now timeout r ≡ true) ahead
    → is_skipped now timeout robot ≡ false
    → robot.current_task_id ≡ some task
    → lookup task m.hauls ≡ some haul
    → haul.execution_phase ≡ HaulExecutionPhase.pickup
    → haul.pickup_completed ≡ false
    → ((sweep now timeout m).0 ≡ raised invalid_lifecycle_transition)
      × ((sweep now timeout m).1.dispatcher.registry ≡ m.dispatcher.registry)
unfolding emit_event
sweep_stops_at_pickup now timeout m ahead robot rest task haul listed in_time late bound known at
      unacked =
    rw run (refl, refl)
  where
    kept : haul_of robot m ≡ some (task, haul)
    kept = ground (arith, bound, known)

    run : sweep now timeout m ≡ (
      raised invalid_lifecycle_transition,
      record (noted m timeout robot) { hauls = insert task haul m.hauls },
    )
    run =
        sweep_listed now timeout m (ahead ++ robot ∷ rest) listed
        ∙ sweep_robots-skips now timeout ahead (robot ∷ rest) m in_time
        ∙ sweep_robots_raises now timeout m _ robot rest late (
            sweep_late_raises timeout m _ robot (some (task, haul)) kept (
              give_back_at_pickup (noted m timeout robot) task haul
                (Reason.timeout timeout robot.last_heartbeat) at unacked))

pub give_back_keeps :
    (m : Monitor) (haul : Option (ℕ × HaulTaskSnapshot)) (reason : Reason)
    → (haul ≡ none) ⊎ (is_blocked haul ≡ true)
    → give_back haul reason m ≡ (returned none, m)
unfolding give_back
give_back_keeps m none reason kept = refl
give_back_keeps m (some (key, haul)) reason (inl absent) = cc
give_back_keeps m (some (key, haul)) reason (inr loaded) = rw loaded refl

pub sweep_late_runs :
    (timeout : ℤ) (m : Monitor) (robot : RobotRecord) (haul : Option (ℕ × HaulTaskSnapshot))
    (new : RobotRecord) (reg : Registry)
    → haul_of robot m ≡ haul
    → give_back haul (Reason.timeout timeout robot.last_heartbeat) (noted m timeout robot)
      ≡ (returned none, noted m timeout robot)
    → mark_offline robot.robot_id m.dispatcher.registry ≡ (returned new, reg)
    → (n : Monitor) × (sweep_late timeout robot m ≡ (
      returned (record {
        robot_id = robot.robot_id;
        timed_out = true;
        went_offline = true;
        requeued_task_id = none;
        reassignment_blocked = is_blocked haul;
        reason = offline_reason robot timeout (is_blocked haul);
      }),
      n,
    ))
      × (n.hauls ≡ m.hauls)
      × (n.dispatcher.registry ≡ reg)
unfolding sweep_late emit_event
sweep_late_runs timeout m robot haul new reg known kept put = (
  (sweep_late timeout robot m).1,
  ground (arith, known, kept, put),
  ground (arith, known, kept, put),
  ground (arith, known, kept, put),
)

-- The outcome of a sweep for a late robot whose task stays with it.
abbrev pub Offlines :
    ℤ → Monitor → RobotRecord → Outcome Error HeartbeatSweepItem × Monitor → Type 0
Offlines timeout m robot (raised x, n) = ⊥
Offlines timeout m robot (returned item, n) =
    (item.requeued_task_id ≡ none)
    × (item.reassignment_blocked ≡ is_blocked (haul_of robot m))
    × (n.hauls ≡ m.hauls)
    × ((new : RobotRecord) × (lookup robot.robot_id n.dispatcher.registry.robots ≡ some new)
        × (new.state ≡ RobotState.offline)
        × (new.current_task_id ≡ robot.current_task_id))

-- A stored late robot whose task has no haul, or one with its load on board, is put OFFLINE and
-- keeps its task; the hauls stay as they are, nothing is requeued, and the item says so and whether
-- the task was blocked.
pub sweep_late-Offlines :
    (timeout : ℤ) (m : Monitor) (robot : RobotRecord)
    → lookup robot.robot_id m.dispatcher.registry.robots ≡ some robot
    → (haul_of robot m ≡ none) ⊎ (is_blocked (haul_of robot m) ≡ true)
    → Offlines timeout m robot (sweep_late timeout robot m)
sweep_late-Offlines timeout m robot found kept =
    let (new, reg, put, state, task, stored, _, _) =
      mark_offline_runs m.dispatcher.registry robot.robot_id robot found refl in
    let (n, run, hauls, registry) =
      sweep_late_runs timeout m robot (haul_of robot m) new reg refl
        (give_back_keeps (noted m timeout robot) (haul_of robot m)
          (Reason.timeout timeout robot.last_heartbeat) kept)
        put in
    rw run (
      refl,
      refl,
      hauls,
      (
        new,
        subst (λ r. lookup robot.robot_id r.robots ≡ some new) (sym registry) stored,
        state,
        task,
      ),
    )
