-- ===== src/Wms/Http/Run.antt =====
-- amr_warehouse_sim/mock_wms_executor.py, `run_http_executor_once`: one run of the executor on tasks
-- that an API keeps. Messages are not kept.
use amr_warehouse_navigation.Common.{
  Bool, true, false, not, Option, none, some, String, ℕ, if◌then◌else◌, Outcome, returned, raised,
}
use amr_warehouse_navigation.Common.Int.{ℤ}
use amr_warehouse_navigation.Wms.Reasons.{WmsReason}
use amr_warehouse_navigation.Wms.Targets.{Pose}
use amr_warehouse_navigation.Wms.Runtime.{
  ReadyGateResult, ReadyWaitResult, NavigationResult, Runtime, wait_for_execute_ready_gate,
}
use amr_warehouse_navigation.Wms.Executor.{final_status}
use amr_warehouse_navigation.Wms.Http.{
  HttpFault, HttpTask, TaskApi, get_next_pending_task_via_http, update_task_status_via_http,
}

pub data HttpOutcome : Type 0 where
  api_unreachable invalid_task_payload no_pending_task http_task_simulated : HttpOutcome
  execute_not_ready_timeout succeeded failed : HttpOutcome

pub record HttpResult : Type 0 where
  pub outcome : HttpOutcome
  pub task_before : Option HttpTask
  pub task_running : Option HttpTask
  pub task_after : Option HttpTask
  pub ready_gate : Option ReadyGateResult
  pub navigation_result : Option NavigationResult
  pub goal_sent : Bool
  pub exit_code : ℕ

pub record HttpTerms : Type 0 where
  pub execute : Bool
  pub ready_timeout : ℤ
  pub ready_poll_interval : ℤ
  pub navigation_timeout : ℤ
  pub rounds : ℕ

-- The result of a run that has no task.
abbrev pub taskless : HttpOutcome → ℕ → HttpResult
taskless outcome exit_code = record {
  outcome = outcome;
  task_before = none;
  task_running = none;
  task_after = none;
  ready_gate = none;
  navigation_result = none;
  goal_sent = false;
  exit_code = exit_code;
}

abbrev pub fault_outcome : HttpFault → HttpOutcome
fault_outcome HttpFault.unavailable = HttpOutcome.api_unreachable
fault_outcome HttpFault.invalid = HttpOutcome.invalid_task_payload

abbrev pub with_fault : HttpFault → HttpResult → HttpResult
with_fault e r = record r { outcome = fault_outcome e; exit_code = 1 }

abbrev pub pose_of_task : HttpTask → Pose
pose_of_task t = record { frame_id = "map"; x = t.x; y = t.y; yaw = t.yaw }

abbrev pub http_outcome : Bool → HttpOutcome
http_outcome true = HttpOutcome.succeeded
http_outcome false = HttpOutcome.failed

module _ {W : Type 0} (api : TaskApi W) (runtime : Runtime W) (terms : HttpTerms) where
  -- What follows a reply to a status update: `_update_http_task_status_or_fail`, which ends the run
  -- with the result so far where the update failed.
  abbrev pub replied :
      HttpResult → (HttpTask → W → HttpResult × W) → Outcome HttpFault HttpTask × W → HttpResult × W
  replied so_far next (returned task, w) = next task w
  replied so_far next (raised e, w) = (with_fault e so_far, w)

  abbrev pub update_or_fail :
      HttpResult
      → HttpTask
      → String
      → WmsReason
      → (HttpTask → W → HttpResult × W)
      → W
      → HttpResult × W
  update_or_fail so_far task status reason next w =
      replied so_far next (update_task_status_via_http api task.id status reason w)

  abbrev pub simulate : HttpTask → HttpResult → W → HttpResult × W
  simulate task so_far =
      update_or_fail so_far task "running"
        (WmsReason.text "HTTP executor claimed task for local simulation.")
        (λ running.
          update_or_fail (record so_far { task_running = some running }) task "succeeded"
            (WmsReason.text "HTTP dry-run simulation completed; Nav2 goal not sent.")
            (λ after w. (
              record so_far {
                task_running = some running;
                task_after = some after;
                outcome = HttpOutcome.http_task_simulated;
              },
              w,
            )))

  abbrev pub finish_drive : HttpTask → HttpResult → NavigationResult → W → HttpResult × W
  finish_drive task so_far nav =
      let driven : HttpResult = record so_far { navigation_result = some nav } in
      update_or_fail driven task (final_status nav.succeeded) nav.reason (λ after w. (
        record driven {
          task_after = some after;
          outcome = http_outcome nav.succeeded;
          exit_code = if nav.succeeded then 0 else 1;
        },
        w,
      ))

  abbrev pub drive_http : HttpTask → HttpResult → W → HttpResult × W
  drive_http task so_far =
      update_or_fail so_far task "running"
        (WmsReason.text "Ready gate satisfied; NavigateToPose goal dispatched.")
        (λ running w.
          let (nav, w') = runtime.navigate_to_pose (pose_of_task task) terms.navigation_timeout w in
          finish_drive task (record so_far { goal_sent = true; task_running = some running }) nav
            w')

  abbrev pub stay_unready : HttpTask → HttpResult → ReadyGateResult → W → HttpResult × W
  stay_unready task so_far gate =
      update_or_fail so_far task "pending" (WmsReason.not_ready gate.reason) (λ after w. (
        record so_far { task_after = some after; outcome = HttpOutcome.execute_not_ready_timeout },
        w,
      ))

  abbrev pub after_http_wait : HttpTask → HttpResult → ReadyGateResult → W → HttpResult × W
  after_http_wait task so_far gate =
      let seen : HttpResult = record so_far { ready_gate = some gate } in
      if not gate.ready then stay_unready task seen gate else drive_http task seen

  -- `none` where the rounds of the wait run out.
  abbrev pub waited_http :
      HttpTask → HttpResult → Option ReadyWaitResult × W → Option HttpResult × W
  waited_http task so_far (none, w) = (none, w)
  waited_http task so_far (some waited, w) =
      let (r, w') = after_http_wait task so_far waited.ready_gate w in (some r, w')

  abbrev run_http_task : HttpTask → W → Option HttpResult × W
  run_http_task task w =
      let so_far : HttpResult = record (taskless HttpOutcome.no_pending_task 0) {
        task_before = some task;
      } in
      if not terms.execute
      then (let (r, w') = simulate task so_far w in (some r, w'))
      else waited_http task so_far (
          wait_for_execute_ready_gate runtime terms.rounds terms.ready_timeout
            terms.ready_poll_interval w)

  abbrev pub fetched : Outcome HttpFault (Option HttpTask) × W → Option HttpResult × W
  fetched (raised e, w) = (some (taskless (fault_outcome e) 1), w)
  fetched (returned none, w) = (some (taskless HttpOutcome.no_pending_task 0), w)
  fetched (returned (some task), w) = run_http_task task w

  unfoldable pub run_http_executor_once : W → Option HttpResult × W
  run_http_executor_once w = fetched (get_next_pending_task_via_http api w)
