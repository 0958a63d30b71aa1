-- ===== src/Fleet/Dispatcher/Ranking.antt =====
-- `list_candidates` and `select_robot`: the robot chosen is one that may be sent, and no robot that
-- may be sent ranks before it.
use amr_warehouse_navigation.Common.{
  All-append, In-append_left, In-append_right, true, ◌≡◌, refl, ◌⊎◌, inl, inr, Option, none, some,
  List, [], ◌∷◌, String, string_key, arith, Bool-cases, In, All, All-In, or_default, subst,
}
use amr_warehouse_navigation.Common.Int.{ℤ, pos, ◌≤ℤ◌}
use amr_warehouse_navigation.Common.Dict.{lookup}
use amr_warehouse_navigation.Common.Order.{
  IsTotalOrder, Sorted, sort-Sorted, sort-All, In-sort, text_leb, text_leb-total, text_leb_trans,
}
use amr_warehouse_navigation.Fleet.Robots.{RobotRecord}
use amr_warehouse_navigation.Fleet.Registry.{Registry, list_robots, can_accept_task}
use amr_warehouse_navigation.Fleet.Registry.Listing.{
  Registered, In-list_robots, list_robots-Registered,
}
use amr_warehouse_navigation.Fleet.Events.{Reason}
use amr_warehouse_navigation.Fleet.Stations.{Config}
use amr_warehouse_navigation.Fleet.Tasks.{
  DispatchTask, DispatchCandidate, DispatchDecision, compute_assignment_cost,
}
use amr_warehouse_navigation.Fleet.Dispatcher.{
  Terms, candidate_leb, costed, first_of_candidates, candidate_of, candidates_of, list_candidates,
  select_robot,
}

pub candidate_leb-IsTotalOrder : IsTotalOrder candidate_leb
candidate_leb-IsTotalOrder = record {
  total = λ a b. ground (arith, text_leb-total a.robot_id b.robot_id);
  trans = λ a b c p q. ground (arith, text_leb_trans a.robot_id b.robot_id c.robot_id);
}

-- The first costs less, or the same and its id is not the larger one.
abbrev pub RanksBefore : String → ℤ → String → ℤ → Type 0
RanksBefore i cost j cost' = ¬ (cost' ≤ℤ cost) ⊎ ((cost ≡ cost') × (text_leb i j ≡ true))

candidate_leb_refl : (c : DispatchCandidate) → candidate_leb c c ≡ true
candidate_leb_refl c = ground (arith, text_leb-total c.robot_id c.robot_id)

ranks_of :
    (a b : DispatchCandidate)
    → candidate_leb a b ≡ true
    → RanksBefore a.robot_id a.cost b.robot_id b.cost
ranks_of a b h = ground arith

module _ (config : Config) (terms : Terms) (task : DispatchTask) (reg : Registry) where
  -- The robot may be sent at this cost.
  pub record MaySend (robot : RobotRecord) (cost : ℤ) (reason : Reason) : Type 0 where
    pub registered : Registered reg robot
    pub accepts : can_accept_task robot.robot_id (some terms.now) terms.heartbeat_timeout reg ≡ true
    pub costs :
        compute_assignment_cost config robot.current_station task.pickup_station task.priority
          (or_default (lookup robot.robot_id terms.workload_penalty) (pos 0))
        ≡ some (cost, reason)

  abbrev price : RobotRecord → Option (ℤ × Reason)
  price robot =
      compute_assignment_cost config robot.current_station task.pickup_station task.priority
        (or_default (lookup robot.robot_id terms.workload_penalty) (pos 0))

  abbrev pub Backed : DispatchCandidate → Type 0
  Backed c =
      (robot : RobotRecord) × (robot.robot_id ≡ c.robot_id) × MaySend robot c.cost c.dispatch_reason

  candidate_of-Backed :
      (robot : RobotRecord)
      → Registered reg robot
      → All Backed (candidate_of config terms reg task robot)
  unfolding candidate_of
  candidate_of-Backed robot known =
      elim (Bool-cases
        (can_accept_task robot.robot_id (some terms.now) terms.heartbeat_timeout reg)) [
          | inl e ↦ rw e (by_cost e (price robot) refl)
          | inr e ↦ rw e tt
        ]
    where
      by_cost :
          can_accept_task robot.robot_id (some terms.now) terms.heartbeat_timeout reg ≡ true
          → (o : Option (ℤ × Reason)) → price robot ≡ o
          → All Backed (costed robot.robot_id o)
      by_cost e none p = tt
      by_cost e (some (cost, reason)) p =
          ((robot, refl, record { registered = known; accepts = e; costs = p }), tt)

  candidates_of-Backed :
      (robots : List RobotRecord)
      → All (Registered reg) robots
      → All Backed (candidates_of config terms reg task robots)
  unfolding candidates_of
  candidates_of-Backed [] h = tt
  candidates_of-Backed (robot ∷ robots) h =
      All-append Backed (candidate_of config terms reg task robot) _ (candidate_of-Backed robot h.0)
        (candidates_of-Backed robots h.1)

  abbrev pub candidate : RobotRecord → ℤ → Reason → DispatchCandidate
  candidate robot cost reason = record {
    robot_id = robot.robot_id;
    cost = cost;
    dispatch_reason = reason;
  }

  In-candidate_of :
      (robot : RobotRecord) (cost : ℤ) (reason : Reason)
      → MaySend robot cost reason
      → In (candidate robot cost reason) (candidate_of config terms reg task robot)
  unfolding candidate_of
  In-candidate_of robot cost reason may = rw (may.accepts, may.costs) (inl refl)

  In-candidates_of :
      (robot : RobotRecord) (cost : ℤ) (reason : Reason) (robots : List RobotRecord)
      → MaySend robot cost reason
      → In robot robots
      → In (candidate robot cost reason) (candidates_of config terms reg task robots)
  unfolding candidates_of
  In-candidates_of robot cost reason [] may m = absurd m
  In-candidates_of robot cost reason (r ∷ robots) may (inl e) =
      In-append_left _ (candidate_of config terms reg task r) _ (
        subst (λ x. In (candidate robot cost reason) (candidate_of config terms reg task x)) e
          (In-candidate_of robot cost reason may))
  In-candidates_of robot cost reason (r ∷ robots) may (inr m) =
      In-append_right _ (candidate_of config terms reg task r) _
        (In-candidates_of robot cost reason robots may m)

  list_candidates-Backed : All Backed (list_candidates config terms task reg)
  unfolding list_candidates
  list_candidates-Backed =
      sort-All candidate_leb Backed (candidates_of config terms reg task (list_robots reg))
        (candidates_of-Backed (list_robots reg) (list_robots-Registered reg))

  In-list_candidates :
      (robot : RobotRecord) (cost : ℤ) (reason : Reason)
      → MaySend robot cost reason
      → In (candidate robot cost reason) (list_candidates config terms task reg)
  unfolding list_candidates
  In-list_candidates robot cost reason may =
      In-sort candidate_leb _ (candidates_of config terms reg task (list_robots reg)) (
        In-candidates_of robot cost reason (list_robots reg) may
          (In-list_robots may.registered.0 robot reg may.registered.1))

  -- No robot that may be sent ranks before the one chosen.
  abbrev pub NoneBefore : String → ℤ → Type 0
  NoneBefore chosen best =
      (robot : RobotRecord) (cost : ℤ) (reason : Reason)
      → MaySend robot cost reason
      → RanksBefore chosen best robot.robot_id cost

  abbrev pub Chosen : Option DispatchDecision → Type 0
  Chosen none = (robot : RobotRecord) (cost : ℤ) (reason : Reason) → ¬ MaySend robot cost reason
  Chosen (some decision) =
      (decision.task_id ≡ task.task_id)
      × (decision.pickup_station ≡ task.pickup_station)
      × ((robot : RobotRecord) × (robot.robot_id ≡ decision.robot_id)
          × MaySend robot decision.cost decision.dispatch_reason)
      × NoneBefore decision.robot_id decision.cost

  first-Chosen :
      (cs : List DispatchCandidate)
      → list_candidates config terms task reg ≡ cs
      → All Backed cs
      → Sorted candidate_leb cs
      → Chosen (first_of_candidates config terms task cs)
  first-Chosen [] e backed sorted = λ robot cost reason may.
      subst (In (candidate robot cost reason)) e (In-list_candidates robot cost reason may)
  first-Chosen (best ∷ cs) e backed sorted = (
    refl,
    refl,
    backed.0,
    λ robot cost reason may.
        ranks robot cost reason
          (subst (In (candidate robot cost reason)) e (In-list_candidates robot cost reason may)),
  )
    where
      ranks :
          (robot : RobotRecord) (cost : ℤ) (reason : Reason)
          → In (candidate robot cost reason) (best ∷ cs)
          → RanksBefore best.robot_id best.cost robot.robot_id cost
      ranks robot cost reason m = ranks_of best (candidate robot cost reason) (
          All-In (λ c. candidate_leb best c ≡ true) (best ∷ cs) (candidate_leb_refl best, sorted.0)
            m)

  pub select_robot-Chosen : Chosen (select_robot config terms task reg)
  unfolding select_robot list_candidates
  select_robot-Chosen =
      first-Chosen (list_candidates config terms task reg) refl list_candidates-Backed (
        sort-Sorted candidate_leb candidate_leb-IsTotalOrder
          (candidates_of config terms reg task (list_robots reg)))

  -- The robot that `select_robot` decides on is a registered one that accepts the task now, and the
  -- decision carries the task, its pickup station, and that robot's cost and reason.
  pub select_robot_sound :
      (decision : DispatchDecision)
      → select_robot config terms task reg ≡ some decision
      → (decision.task_id ≡ task.task_id)
        × (decision.pickup_station ≡ task.pickup_station)
        × ((robot : RobotRecord) × (robot.robot_id ≡ decision.robot_id)
            × MaySend robot decision.cost decision.dispatch_reason)
  select_robot_sound decision e =
      let (same_task, same_pickup, backed, _) = subst Chosen e select_robot-Chosen in
      (same_task, same_pickup, backed)

  -- Any robot that may be sent costs more than the one decided on, or costs the same and has no
  -- smaller id.
  pub select_robot_best :
      (decision : DispatchDecision) (robot : RobotRecord) (cost : ℤ) (reason : Reason)
      → select_robot config terms task reg ≡ some decision
      → MaySend robot cost reason
      → RanksBefore decision.robot_id decision.cost robot.robot_id cost
  select_robot_best decision robot cost reason e may =
      (subst Chosen e select_robot-Chosen).3 robot cost reason may

  -- `select_robot` finds nobody only if no robot may be sent.
  pub select_robot-none :
      (robot : RobotRecord) (cost : ℤ) (reason : Reason)
      → select_robot config terms task reg ≡ none
      → ¬ MaySend robot cost reason
  select_robot-none robot cost reason e may =
      subst Chosen e select_robot-Chosen robot cost reason may
