-- ===== src/Fleet/Dispatcher/Batches.antt =====
-- `FleetDispatcher.dispatch_tasks`: what a batch has done when it ends, and what stops it.
use amr_warehouse_navigation.Common.{
  true, ◌≡◌, refl, sym, ap, ◌∙◌, Option, none, some, List, [], ◌∷◌, ◌++◌, String, ℕ, nat_key,
  string_key, Outcome, returned, raised, arith, inl, inr, ◌≢◌, subst, Option-cases, All,
}
use amr_warehouse_navigation.Common.Int.{ℤ}
use amr_warehouse_navigation.Fleet.Events.{Reason}
use amr_warehouse_navigation.Common.Dict.{lookup, lookup-insert}
use amr_warehouse_navigation.Common.Order.{sort}
use amr_warehouse_navigation.Fleet.Errors.{Error, no_available_robot}
use amr_warehouse_navigation.Fleet.Registry.{Registry}
use amr_warehouse_navigation.Fleet.Assignment.{AssignmentRecord, is_active}
use amr_warehouse_navigation.Fleet.Stations.{Config, static_station_distance, station_xy}
use amr_warehouse_navigation.Fleet.Tasks.{DispatchTask, DispatchDecision, compute_assignment_cost}
use amr_warehouse_navigation.Fleet.Dispatcher.{
  Dispatcher, Terms, get_assignment_for_task, select_robot, new_assignment, assign_task, task_leb,
  dispatch_loop, dispatch_tasks,
}
use amr_warehouse_navigation.Fleet.Dispatcher.Ranking.{select_robot_sound}
use amr_warehouse_navigation.Fleet.Dispatcher.Assigning.{
  IsSound, Holds, Accepts, Assigned, assign_task_assigns, dispatch_refused,
}

-- The robot holds the task, and the assignment is on file and active.
pub record Standing (d : Dispatcher) (a : AssignmentRecord) : Type 0 where
  pub holds : Holds a.robot_id a.task_id d.registry
  pub on_file : lookup a.task_id d.assignments ≡ some a
  pub active : is_active a ≡ true

Holds-others :
    (i j : String) (task new : ℕ) (before after : Registry)
    → Accepts i new before after
    → Holds j task before
    → Holds j task after
Holds-others i j task new before after acc (robot, found, state, held) =
    (robot, acc.others j apart ∙ found, state, held)
  where
    apart : j ≢ i
    apart same =
        let (old, found', idle) = acc.idle_before in
        ground (arith, subst (λ k. lookup k before.robots ≡ some robot) same found)

Standing-step :
    (terms : Terms) (decision : DispatchDecision) (d : Dispatcher)
    (result : Outcome Error AssignmentRecord × Dispatcher) (a : AssignmentRecord)
    → (done : Assigned terms decision d result) → get_assignment_for_task decision.task_id d ≡ none
    → Standing d a
    → Standing done.after a
Standing-step terms decision d result a done free s = record {
  holds =
      Holds-others decision.robot_id a.robot_id a.task_id decision.task_id d.registry
        done.after.registry done.robots s.holds;
  on_file = rw done.assignments (
      ground (
        arith,
        lookup-insert decision.task_id a.task_id
            (record (new_assignment terms decision) { id = done.id }) d.assignments,
        s.on_file,
        s.active,
      ));
  active = s.active;
}

All-Standing-step :
    (terms : Terms) (decision : DispatchDecision) (d : Dispatcher)
    (result : Outcome Error AssignmentRecord × Dispatcher) (given : List AssignmentRecord)
    → (done : Assigned terms decision d result) → get_assignment_for_task decision.task_id d ≡ none
    → All (Standing d) given
    → All
        (Standing done.after)
        (given ++ record (new_assignment terms decision) { id = done.id } ∷ [])
All-Standing-step terms decision d result [] done free h = (
  record {
    holds = done.robots.holds;
    on_file = rw done.assignments (
        ground (
          arith,
          lookup-insert decision.task_id decision.task_id
              (record (new_assignment terms decision) { id = done.id }) d.assignments,
        ));
    active = refl;
  },
  tt,
)
All-Standing-step terms decision d result (a ∷ given) done free h = (
  Standing-step terms decision d result a done free h.0,
  All-Standing-step terms decision d result given done free h.1,
)

abbrev pub Ends : Outcome Error (List AssignmentRecord) × Dispatcher → Type 0
Ends (raised e, d) = ⊥
Ends (returned results, d) = IsSound d × All (Standing d) results

no_price :
    (config : Config) (station : Option String) (pickup priority : String) (workload : ℤ)
    {price : ℤ × Reason}
    → lookup pickup config.task_points ≡ none
    → compute_assignment_cost config station pickup priority workload ≡ some price
    → ⊥
unfolding compute_assignment_cost static_station_distance station_xy
no_price config none pickup priority workload missing k = cc
no_price config (some origin) pickup priority workload missing k = ground arith

module _ (config : Config) (terms : Terms) where
  -- One round of the loop, by what happens to its task.
  skip_active :
      (task : DispatchTask) (rest : List DispatchTask) (results : List AssignmentRecord)
      (d : Dispatcher)
      → get_assignment_for_task task.task_id d ≢ none
      → dispatch_loop config terms (task ∷ rest) results d
        ≡ dispatch_loop config terms rest results d
  unfolding dispatch_loop
  skip_active task rest results d busy = ground arith

  stop_refused :
      (task : DispatchTask) (rest : List DispatchTask) (results : List AssignmentRecord)
      (d : Dispatcher)
      → get_assignment_for_task task.task_id d ≡ none
      → assign_task config terms task d ≡ (raised no_available_robot, d)
      → dispatch_loop config terms (task ∷ rest) results d ≡ (returned results, d)
  unfolding dispatch_loop
  stop_refused task rest results d free e = ground (arith, e)

  go_on :
      (task : DispatchTask) (rest : List DispatchTask) (results : List AssignmentRecord)
      (d d' : Dispatcher) (a : AssignmentRecord)
      → get_assignment_for_task task.task_id d ≡ none
      → assign_task config terms task d ≡ (returned a, d')
      → dispatch_loop config terms (task ∷ rest) results d
        ≡ dispatch_loop config terms rest (results ++ a ∷ []) d'
  unfolding dispatch_loop
  go_on task rest results d d' a free e = ground (arith, e)

  refused :
      (task : DispatchTask) (d : Dispatcher)
      → get_assignment_for_task task.task_id d ≡ none
      → select_robot config terms task d.registry ≡ none
      → assign_task config terms task d ≡ (raised no_available_robot, d)
  refused task d free nobody =
      ground (arith, dispatch_refused config terms task d (inr (free, nobody)))

  dispatch_loop-Ends :
      (tasks : List DispatchTask) (results : List AssignmentRecord) (d : Dispatcher)
      → IsSound d
      → All (Standing d) results
      → Ends (dispatch_loop config terms tasks results d)
  unfolding dispatch_loop
  dispatch_loop-Ends [] results d s h = (s, h)
  dispatch_loop-Ends (task ∷ tasks) results d s h =
      elim (Option-cases (get_assignment_for_task task.task_id d)) [
        | inr (a, e) ↦
            subst Ends (sym (skip_active task tasks results d (λ k. cc)))
              (dispatch_loop-Ends tasks results d s h)
        | inl free ↦ elim (Option-cases (select_robot config terms task d.registry)) [
          | inl nobody ↦
              subst Ends (sym (stop_refused task tasks results d free (refused task d free nobody)))
                (s, h)
          | inr (decision, chosen) ↦
              let same = (select_robot_sound config terms task d.registry decision chosen).0 in
              let done = assign_task_assigns config terms task decision d s free chosen in
              subst Ends (sym (go_on task tasks results d done.after _ free done.runs)) (
                dispatch_loop-Ends tasks _ done.after done.sound
                  (All-Standing-step terms decision d _ results done (rw same free) h))
        ]
      ]

  -- With the points loaded, a batch on a sound dispatcher returns its list: none of the fleet's own
  -- exceptions leaves it.
  pub dispatch_tasks-Ends :
      (tasks : List DispatchTask) (d : Dispatcher)
      → IsSound d
      → Ends (dispatch_tasks config terms tasks d)
  unfolding dispatch_tasks
  dispatch_tasks-Ends tasks d s = dispatch_loop-Ends (sort task_leb tasks) [] d s tt

  unknown_pickup :
      (task : DispatchTask) (reg : Registry)
      → lookup task.pickup_station config.task_points ≡ none
      → (o : Option DispatchDecision) → select_robot config terms task reg ≡ o
      → select_robot config terms task reg ≡ none
  unknown_pickup task reg missing none e = e
  unknown_pickup task reg missing (some decision) e =
      let (_, _, (robot, _, may)) = select_robot_sound config terms task reg decision e in
      absurd (
        no_price config robot.current_station task.pickup_station task.priority _ missing may.costs)

  -- A batch whose first task, by priority and id, has no active assignment and a pickup station
  -- that is not among the task points assigns nothing at all, however many robots are free and
  -- whatever the other tasks.
  pub dispatch_tasks_blocked :
      (tasks : List DispatchTask) (first : DispatchTask) (rest : List DispatchTask) (d : Dispatcher)
      → sort task_leb tasks ≡ first ∷ rest
      → get_assignment_for_task first.task_id d ≡ none
      → lookup first.pickup_station config.task_points ≡ none
      → dispatch_tasks config terms tasks d ≡ (returned [], d)
  unfolding dispatch_tasks
  dispatch_tasks_blocked tasks first rest d order free missing =
      ap (λ ts. dispatch_loop config terms ts [] d) order
      ∙ stop_refused first rest [] d free
          (refused first d free (unknown_pickup first d.registry missing _ refl))
