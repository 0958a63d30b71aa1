-- ===== src/Fleet/Registry/Assignment.antt =====
-- Which robots accept a task, and what assigning one does.
use amr_warehouse_navigation.Common.{
  true, ◌≡◌, inl, inr, ◌↔◌, ◌≢◌, ◌&&◌, Option-cases, Option, some, String, string_key, ℕ, raised,
  arith, if◌then◌else◌, is_some,
}
use amr_warehouse_navigation.Common.Int.{ℤ}
use amr_warehouse_navigation.Common.Dict.{lookup}
use amr_warehouse_navigation.Fleet.Errors.{robot_not_available, robot_active_task_conflict}
use amr_warehouse_navigation.Fleet.RobotState.{RobotState, is_active_state}
use amr_warehouse_navigation.Fleet.Robots.{RobotRecord, is_heartbeat_valid, whole_second}
use amr_warehouse_navigation.Fleet.Registry.{Registry, can_accept_task, assign_task, upsert_robot}

-- `can_accept_task` says yes at a given time exactly for a registered robot that is IDLE and whose
-- heartbeat is in time.
pub can_accept_task_iff :
    (i : String) (now : ℕ) (timeout : ℤ) (reg : Registry)
    → (can_accept_task i (some now) timeout reg ≡ true) ↔ (
        (robot : RobotRecord) × (lookup i reg.robots ≡ some robot)
        × (robot.state ≡ RobotState.idle)
        × (is_heartbeat_valid robot now timeout ≡ true))
unfolding can_accept_task
can_accept_task_iff i now timeout reg = elim (Option-cases (lookup i reg.robots)) [
  | inl e ↦ (λ h. ground arith, λ h. ground arith)
  | inr (robot, e) ↦ (λ h. (robot, e, ground arith, ground arith), λ h. ground arith)
]

-- A robot that is said to accept is IDLE, and is assigned: it becomes ASSIGNED with the task, and keeps its other fields.
pub assign_task_accepted :
    (i : String) (task : ℕ) (now : Option ℕ) (timeout : ℤ) (reg : Registry)
    → can_accept_task i now timeout reg ≡ true
    → (old : RobotRecord) × (lookup i reg.robots ≡ some old)
      × (old.state ≡ RobotState.idle)
      × (let new = record old {
        state = RobotState.assigned;
        current_task_id = some task;
        updated_at = whole_second reg.clock;
      } in
          assign_task i task reg ≡ upsert_robot new reg)
unfolding can_accept_task assign_task upsert_robot
assign_task_accepted i task now timeout reg h = elim (Option-cases (lookup i reg.robots)) [
  | inl e ↦ absurd (ground arith)
  | inr (robot, e) ↦ (robot, e, ground arith, ground arith)
]

-- No robot gets a second active task: a robot that holds a task while ASSIGNED or BUSY refuses with
-- `RobotActiveTaskConflictError`, any other that is not IDLE is not available, and nothing changes.
pub assign_task_refused :
    (i : String) (task : ℕ) (reg : Registry) (robot : RobotRecord)
    → lookup i reg.robots ≡ some robot
    → robot.state ≢ RobotState.idle
    → assign_task i task reg ≡ (
      raised (
          if is_some robot.current_task_id && is_active_state robot.state
          then robot_active_task_conflict
          else robot_not_available),
      reg,
    )
unfolding assign_task
assign_task_refused i task reg robot e busy = ground arith
