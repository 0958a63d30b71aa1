-- ===== src/Fleet/Heartbeat/Sweeps.antt =====
-- What a whole sweep leaves, where no haul is given to it.
use amr_warehouse_navigation.Common.{
  >>=-returned, ◌>>=◌, pure, true, false, ◌≡◌, ◌≢◌, ◌⊎◌, inl, inr, refl, sym, subst, ◌∙◌, ap, none,
  some, List, [], ◌∷◌, String, ◌==◌, string_key, nat_key, ℕ, Outcome, returned, raised, arith, All,
  In, Bool-cases,
}
use text.Mathlib.TextEquality.{eq_iff}
use amr_warehouse_navigation.Common.Int.{ℤ}
use amr_warehouse_navigation.Common.Dict.{lookup}
use amr_warehouse_navigation.Fleet.Errors.{Error}
use amr_warehouse_navigation.Fleet.RobotState.{RobotState}
use amr_warehouse_navigation.Fleet.Robots.{RobotRecord, is_heartbeat_valid}
use amr_warehouse_navigation.Fleet.Registry.{Registry, list_robots}
use amr_warehouse_navigation.Fleet.Registry.Invariant.{IsValid}
use amr_warehouse_navigation.Fleet.Events.{Reason}
use amr_warehouse_navigation.Fleet.Registry.Listing.{
  In-list_robots, Registered, list_robots-Registered,
}
use amr_warehouse_navigation.Fleet.Heartbeat.{
  Watch, HeartbeatSweepItem, Monitor, haul_of, is_skipped, sweep_late, sweep_robots, sweep,
}
use amr_warehouse_navigation.Fleet.Heartbeat.Late.{
  mark_offline_runs, noted, give_back_keeps, sweep_late_runs,
}

-- One robot put OFFLINE, the others as they were.
record Marks (i : String) (before after : Registry) : Type 0 where
  gone :
      (new : RobotRecord) × (lookup i after.robots ≡ some new)
      × (new.state ≡ RobotState.offline)
      × (new.robot_id ≡ i)
  others : (j : String) → j ≢ i → lookup j after.robots ≡ lookup j before.robots

no_haul : (m : Monitor) (robot : RobotRecord) → m.hauls ≡ [] → haul_of robot m ≡ none
unfolding lookup
no_haul m robot empty = ground (arith, empty)

abbrev Marked : Monitor → RobotRecord → Outcome Error HeartbeatSweepItem × Monitor → Type 0
Marked m robot (raised x, n) = ⊥
Marked m robot (returned item, n) =
    (n.hauls ≡ []) × Marks robot.robot_id m.dispatcher.registry n.dispatcher.registry

sweep_late-Marked :
    (timeout : ℤ) (m : Monitor) (robot old : RobotRecord)
    → m.hauls ≡ []
    → lookup robot.robot_id m.dispatcher.registry.robots ≡ some old
    → old.robot_id ≡ robot.robot_id
    → Marked m robot (sweep_late timeout robot m)
sweep_late-Marked timeout m robot old empty found own =
    let (new, reg, put, state, _, stored, id, others) =
      mark_offline_runs m.dispatcher.registry robot.robot_id old found own in
    let (n, run, hauls, registry) =
      sweep_late_runs timeout m robot none new reg (no_haul m robot empty)
        (give_back_keeps (noted m timeout robot) none (Reason.timeout timeout robot.last_heartbeat)
          (inl refl))
        put in
    rw run (
      hauls ∙ empty,
      subst (Marks robot.robot_id m.dispatcher.registry) (sym registry)
          (record { gone = (new, stored, state, id ∙ own); others = others }),
    )

module _ (now : ℕ) (timeout : ℤ) where
  -- Each robot is dealt with, or stands in the list of those still to come as it is stored.
  record Pending (robots : List RobotRecord) (reg : Registry) : Type 0 where
    dealt :
        (i : String) (robot : RobotRecord)
        → lookup i reg.robots ≡ some robot
        → (robot.robot_id ≡ i) × ((is_skipped now timeout robot ≡ true) ⊎ In robot robots)
    stored : All (λ r. (old : RobotRecord) × (lookup r.robot_id reg.robots ≡ some old)) robots

  -- The result of a sweep: it returns, and every robot is OFFLINE or heard in time.
  abbrev pub SweepsAll : Outcome Error (List HeartbeatSweepItem) × Monitor → Type 0
  SweepsAll (raised x, n) = ⊥
  SweepsAll (returned items, n) =
      (i : String) (robot : RobotRecord)
      → lookup i n.dispatcher.registry.robots ≡ some robot
      → (robot.state ≡ RobotState.offline) ⊎ (is_heartbeat_valid robot now timeout ≡ true)

  skipped :
      (robot : RobotRecord)
      → is_skipped now timeout robot ≡ true
      → (robot.state ≡ RobotState.offline) ⊎ (is_heartbeat_valid robot now timeout ≡ true)
  skipped robot h = ground arith

  skip_step :
      (first : RobotRecord) (rest : List RobotRecord) (reg : Registry)
      → is_skipped now timeout first ≡ true
      → Pending (first ∷ rest) reg
      → Pending rest reg
  skip_step first rest reg skip p = record { dealt = dealt'; stored = p.stored.1 }
    where
      dealt' :
          (i : String) (robot : RobotRecord)
          → lookup i reg.robots ≡ some robot
          → (robot.robot_id ≡ i) × ((is_skipped now timeout robot ≡ true) ⊎ In robot rest)
      dealt' i robot found = elim ((p.dealt i robot found).1) [
        | inl done ↦ ((p.dealt i robot found).0, inl done)
        | inr (inl same) ↦
            ((p.dealt i robot found).0, inl (ap (is_skipped now timeout) same ∙ skip))
        | inr (inr later) ↦ ((p.dealt i robot found).0, inr later)
      ]

  apart : (i j : String) → (i == j) ≡ false → j ≢ i
  apart i j other same = ground (arith, eq_iff i j)

  gone_dealt :
      (i j : String) (rest : List RobotRecord) (before after : Registry) (robot : RobotRecord)
      → Marks i before after
      → i ≡ j
      → lookup j after.robots ≡ some robot
      → (robot.robot_id ≡ j) × ((is_skipped now timeout robot ≡ true) ⊎ In robot rest)
  gone_dealt i j rest before after robot marks same found =
      let (new, stored, state, id) = marks.gone in
      let new_found = subst (λ k. lookup k after.robots ≡ some new) same stored in
      (ground (arith, new_found, found, id, same), inl (ground (arith, new_found, found, state)))

  left_dealt :
      (first : RobotRecord) (rest : List RobotRecord) (i : String) (before : Registry)
      (robot : RobotRecord)
      → (first.robot_id == i) ≡ false
      → (robot.robot_id ≡ i) × ((is_skipped now timeout robot ≡ true) ⊎ In robot (first ∷ rest))
      → (robot.robot_id ≡ i) × ((is_skipped now timeout robot ≡ true) ⊎ In robot rest)
  left_dealt first rest i before robot other (own, inl done) = (own, inl done)
  left_dealt first rest i before robot other (own, inr (inr later)) = (own, inr later)
  left_dealt first rest i before robot other (own, inr (inl same)) =
      absurd (apart first.robot_id i other (sym own ∙ ap (λ r. r.robot_id) same))

  still_stored :
      (i : String) (rest : List RobotRecord) (before after : Registry)
      → Marks i before after
      → All (λ r. (old : RobotRecord) × (lookup r.robot_id before.robots ≡ some old)) rest
      → All (λ r. (old : RobotRecord) × (lookup r.robot_id after.robots ≡ some old)) rest
  still_stored i [] before after marks h = tt
  still_stored i (r ∷ rest) before after marks ((old, found), h) = (
    elim (Bool-cases (i == r.robot_id)) [
      | inl same ↦
          let (new, stored, _, _) = marks.gone in
          (new, subst (λ k. lookup k after.robots ≡ some new) ((eq_iff i r.robot_id).0 same) stored)
      | inr other ↦ (old, marks.others r.robot_id (apart i r.robot_id other) ∙ found)
    ],
    still_stored i rest before after marks h,
  )

  mark_step :
      (first : RobotRecord) (rest : List RobotRecord) (before after : Registry)
      → Marks first.robot_id before after
      → Pending (first ∷ rest) before
      → Pending rest after
  mark_step first rest before after marks p = record {
    dealt = λ i robot found. elim (Bool-cases (first.robot_id == i)) [
      | inl same ↦
          gone_dealt first.robot_id i rest before after robot marks
            ((eq_iff first.robot_id i).0 same) found
      | inr other ↦
          left_dealt first rest i before robot other
            (p.dealt i robot (sym (marks.others i (apart first.robot_id i other)) ∙ found))
    ];
    stored = still_stored first.robot_id rest before after marks p.stored.1;
  }

  -- The loop from a late robot on.
  abbrev continue : RobotRecord → List RobotRecord → Watch (List HeartbeatSweepItem)
  continue first rest = sweep_late timeout first >>= λ item.
      sweep_robots now timeout rest >>= λ items. pure (item ∷ items)

  collects :
      (item : HeartbeatSweepItem) (result : Outcome Error (List HeartbeatSweepItem) × Monitor)
      → SweepsAll result
      → SweepsAll (elim result.0 [
        | returned items ↦ (returned (item ∷ items), result.1)
        | raised x ↦ (raised x, result.1)
      ])
  collects item (raised x, n) h = absurd h
  collects item (returned items, n) h = h

  -- The rest of the loop, once the first robot is dealt with.
  after_late :
      (first : RobotRecord) (rest : List RobotRecord) (m : Monitor)
      (result : Outcome Error HeartbeatSweepItem × Monitor)
      → sweep_late timeout first m ≡ result
      → Pending (first ∷ rest) m.dispatcher.registry
      → ((n : Monitor)
          → n.hauls ≡ []
          → Pending rest n.dispatcher.registry
          → SweepsAll (sweep_robots now timeout rest n))
      → Marked m first result
      → SweepsAll (continue first rest m)
  after_late first rest m (raised x, n) run p next h = absurd h
  after_late first rest m (returned item, n) run p next (empty, marks) =
      rw
        (>>=-returned (sweep_late timeout first)
          (λ item. sweep_robots now timeout rest >>= λ items. pure (item ∷ items)) m run)
        (collects item (sweep_robots now timeout rest n)
          (next n empty (mark_step first rest m.dispatcher.registry n.dispatcher.registry marks p)))

  listed_stored :
      (robots : List RobotRecord) (reg : Registry)
      → IsValid reg
      → All (Registered reg) robots
      → All (λ r. (old : RobotRecord) × (lookup r.robot_id reg.robots ≡ some old)) robots
  listed_stored [] reg valid h = tt
  listed_stored (r ∷ robots) reg valid ((i, found), h) = (
    (r, subst (λ k. lookup k reg.robots ≡ some r) (sym ((valid i r found).own_id)) found),
    listed_stored robots reg valid h,
  )

  sweep_robots-SweepsAll :
      (robots : List RobotRecord) (m : Monitor)
      → m.hauls ≡ []
      → Pending robots m.dispatcher.registry
      → SweepsAll (sweep_robots now timeout robots m)
  unfolding sweep_robots
  sweep_robots-SweepsAll [] m empty p = λ i robot found. elim ((p.dealt i robot found).1) [
    | inl done ↦ skipped robot done
    | inr none_left ↦ absurd none_left
  ]
  sweep_robots-SweepsAll (robot ∷ rest) m empty p =
      elim (Bool-cases (is_skipped now timeout robot)) [
        | inl skip ↦ rw skip (
            sweep_robots-SweepsAll rest m empty (skip_step robot rest m.dispatcher.registry skip p))
        | inr late ↦ rw late (
            let (old, found) = p.stored.0 in
            after_late robot rest m (sweep_late timeout robot m) refl p
              (λ n. sweep_robots-SweepsAll rest n)
              (sweep_late-Marked timeout m robot old empty found
                (p.dealt robot.robot_id old found).0))
      ]

  -- Where no haul is given, a sweep of a valid registry always returns, and afterwards every
  -- registered robot is OFFLINE or has a heartbeat in time.
  pub sweep-SweepsAll :
      (m : Monitor) → IsValid m.dispatcher.registry → m.hauls ≡ [] → SweepsAll (sweep now timeout m)
  unfolding sweep
  sweep-SweepsAll m valid empty =
      sweep_robots-SweepsAll (list_robots m.dispatcher.registry) m empty (record {
        dealt = λ i robot found. (
          (valid i robot found).own_id,
          inr (In-list_robots i robot m.dispatcher.registry found),
        );
        stored =
            listed_stored (list_robots m.dispatcher.registry) m.dispatcher.registry valid
              (list_robots-Registered m.dispatcher.registry);
      })
