-- ===== src/Wms/Executor.antt =====
-- amr_warehouse_sim/mock_wms_executor.py, `run_executor_once` on the task store. Messages, the
-- database path and the mode are not kept, and the runtime is given.
pub mod Outcomes
pub mod Writes
pub mod Effects
use amr_warehouse_navigation.Common.{
  Bool, true, false, not, Option, none, some, String, ℕ, if◌then◌else◌, Outcome, returned, raised,
  Method, pure, raise, reads, require, within, ◌>>=◌, ◌>>◌,
}
use amr_warehouse_navigation.Common.Int.{ℤ}
use amr_warehouse_navigation.Wms.Reasons.{
  WmsError, missing_key, bad_value, out_of_rounds, WmsReason, is_resolution_error,
}
use amr_warehouse_navigation.Wms.Targets.{Pose, TaskPoints, resolve_target_pose}
use amr_warehouse_navigation.Wms.Tasks.{
  TaskRow, TaskTable, get_next_pending_task, update_task_status,
}
use amr_warehouse_navigation.Wms.Runtime.{
  ReadyGateResult, NavigationResult, ReadyWaitResult, Runtime, wait_for_execute_ready_gate,
}

pub data RunOutcome : Type 0 where
  no_pending_task invalid_target execute_not_ready_timeout ready_gate_not_ready : RunOutcome
  dry_run_ready succeeded failed : RunOutcome

pub record RunResult : Type 0 where
  pub outcome : RunOutcome
  pub task_before : Option TaskRow
  pub task_running : Option TaskRow
  pub task_after : Option TaskRow
  pub ready_gate : Option ReadyGateResult
  pub navigation_result : Option NavigationResult
  pub goal_sent : Bool
  pub exit_code : ℕ

-- The store, and what the runtime acts on.
pub record Bench (W : Type 0) : Type 0 where
  pub tasks : TaskTable
  pub world : W

-- The arguments of a run.
pub record RunTerms : Type 0 where
  pub points : Outcome WmsError TaskPoints
  pub execute : Bool
  pub ready_timeout : ℤ
  pub ready_poll_interval : ℤ
  pub navigation_timeout : ℤ
  -- how many rounds the wait for the ready gate is given
  pub rounds : ℕ

abbrev pub empty_result : RunResult
empty_result = record {
  outcome = RunOutcome.no_pending_task;
  task_before = none;
  task_running = none;
  task_after = none;
  ready_gate = none;
  navigation_result = none;
  goal_sent = false;
  exit_code = 0;
}

abbrev pub final_status : Bool → String
final_status true = "succeeded"
final_status false = "failed"

abbrev pub final_outcome : Bool → RunOutcome
final_outcome true = RunOutcome.succeeded
final_outcome false = RunOutcome.failed

module _ {W : Type 0} (runtime : Runtime W) (terms : RunTerms) where
  abbrev Run : Type 0 → Type 0
  Run A = Method WmsError (Bench W) A

  -- An operation of the store, which reads the clock as it now stands.
  abbrev pub at_clock : Bench W → TaskTable
  at_clock b = record b.tasks { clock = runtime.wall_clock b.world }

  abbrev pub on_tasks : {A : Type 0} → Method WmsError TaskTable A → Run A
  on_tasks = within at_clock (λ t b. record b { tasks = t })

  -- The gate, waited for in execute mode and checked once otherwise.
  unfoldable pub gate_of : Run ReadyGateResult
  gate_of b =
      if terms.execute
      then (let (result, w) =
            wait_for_execute_ready_gate runtime terms.rounds terms.ready_timeout
              terms.ready_poll_interval b.world in
          elim result [
            | none ↦ (raised out_of_rounds, record b { world = w })
            | some waited ↦ (returned waited.ready_gate, record b { world = w })
          ])
      else (let (gate, w) = runtime.check_ready_gate b.world in
          (returned gate, record b { world = w }))

  unfoldable pub navigate : Pose → Run NavigationResult
  navigate pose b =
      let (result, w) = runtime.navigate_to_pose pose terms.navigation_timeout b.world in
      (returned result, record b { world = w })

  -- A target that cannot be resolved fails its task.
  unfoldable pub fail_target : TaskRow → WmsError → Run RunResult
  fail_target task e = do
    row ← on_tasks (update_task_status task.id "failed" (some (WmsReason.target_failed e)))
    pure (record empty_result {
      outcome = RunOutcome.invalid_target;
      task_before = some task;
      task_after = some row;
      exit_code = 1;
    })

  unfoldable pub stay_pending : TaskRow → ReadyGateResult → RunOutcome → WmsReason → Run RunResult
  stay_pending task gate outcome reason = do
    row ← on_tasks (update_task_status task.id "pending" (some reason))
    pure (record empty_result {
      outcome = outcome;
      task_before = some task;
      task_after = some row;
      ready_gate = some gate;
    })

  unfoldable pub drive : TaskRow → Pose → ReadyGateResult → Run RunResult
  drive task pose gate = do
    running ← on_tasks (
        update_task_status task.id "running"
          (some (WmsReason.text "Ready gate satisfied; NavigateToPose goal dispatched.")))
    result ← navigate pose
    row ← on_tasks (update_task_status task.id (final_status result.succeeded) (some result.reason))
    pure (record {
      outcome = final_outcome result.succeeded;
      task_before = some task;
      task_running = some running;
      task_after = some row;
      ready_gate = some gate;
      navigation_result = some result;
      goal_sent = true;
      exit_code = if result.succeeded then 0 else 1;
    })

  unfoldable pub after_gate : TaskRow → Pose → ReadyGateResult → Run RunResult
  after_gate task pose gate =
      if not gate.ready
      then stay_pending task gate
          (if terms.execute
            then RunOutcome.execute_not_ready_timeout
            else RunOutcome.ready_gate_not_ready)
          (WmsReason.not_ready gate.reason)
      else if not terms.execute
      then stay_pending task gate RunOutcome.dry_run_ready
          (WmsReason.text "Dry-run only: ready gate satisfied; NavigateToPose goal not sent.")
      else drive task pose gate

  abbrev pub after_resolution : TaskRow → Outcome WmsError (String × Pose) → Run RunResult
  after_resolution task (raised e) = if is_resolution_error e then fail_target task e else raise e
  after_resolution task (returned resolved) = gate_of >>= λ gate. after_gate task (resolved.1) gate

  abbrev pub run_next : Option TaskRow → Run RunResult
  run_next none = pure empty_result
  run_next (some task) = after_resolution task (resolve_target_pose task.target_name terms.points)

  unfoldable pub run_executor_once : Run RunResult
  run_executor_once = reads (λ b. get_next_pending_task b.tasks) >>= run_next
