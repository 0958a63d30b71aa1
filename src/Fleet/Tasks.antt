-- ===== src/Fleet/Tasks.antt =====
-- amr_warehouse_sim/fleet/dispatcher.py: tasks, candidates and decisions, and the cost of sending a
-- robot to a task.
use amr_warehouse_navigation.Common.{
  ◌||◌, Option, none, some, String, ◌==◌, string_key, nat_key, ℕ, if◌then◌else◌, Outcome, returned,
  raised,
}
use amr_warehouse_navigation.Common.Int.{ℤ, pos, negsuc, ◌+ℤ◌}
use amr_warehouse_navigation.Fleet.Errors.{Error, value_error}
use amr_warehouse_navigation.Fleet.Events.{Reason}
use amr_warehouse_navigation.Fleet.Stations.{Config, static_station_distance}

pub record DispatchTask : Type 0 where
  pub task_id : ℕ
  pub pickup_station : String
  pub dropoff_station : Option String
  pub priority : String

-- `DispatchTask.__post_init__`
unfoldable pub new_dispatch_task : DispatchTask → Outcome Error DispatchTask
new_dispatch_task task =
    if (task.priority == "normal") || (task.priority == "high")
    then returned task
    else raised value_error

-- `PRIORITY_ORDER`
abbrev pub priority_order : String → ℕ
priority_order priority = if priority == "high" then 0 else 1

pub record DispatchCandidate : Type 0 where
  pub robot_id : String
  pub cost : ℤ
  pub dispatch_reason : Reason

pub record DispatchDecision : Type 0 where
  pub task_id : ℕ
  pub robot_id : String
  pub pickup_station : String
  pub cost : ℤ
  pub dispatch_reason : Reason

-- -0.5 for a high priority
abbrev priority_penalty : String → ℤ
priority_penalty priority = if priority == "high" then negsuc 499 else pos 0

unfoldable pub compute_assignment_cost :
    Config → Option String → String → String → ℤ → Option (ℤ × Reason)
compute_assignment_cost config station pickup priority workload =
    elim (static_station_distance config station pickup) [
      | none ↦ none
      | some distance ↦ some (
        distance +ℤ workload +ℤ priority_penalty priority,
        Reason.cost distance station pickup workload (priority_penalty priority),
      )
    ]
