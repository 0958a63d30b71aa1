-- ===== src/Wms/Http/Goals.antt =====
-- When a run on an API sends a goal, and what else it does to the world.
use amr_warehouse_navigation.Common.{true, false, ◌≡◌, ◌⊎◌, Option, none, some, String, returned}
use amr_warehouse_navigation.Common.Int.{ℤ}
use amr_warehouse_navigation.Wms.Reasons.{WmsReason}
use amr_warehouse_navigation.Wms.Runtime.{ReadyGateResult, NavigationResult, Runtime}
use amr_warehouse_navigation.Wms.Runtime.Looks.{Looks, Saw}
use amr_warehouse_navigation.Wms.Executor.{final_status}
use amr_warehouse_navigation.Wms.Http.{
  HttpTask, TaskApi, get_next_pending_task_via_http, update_task_status_via_http,
}
use amr_warehouse_navigation.Wms.Http.Run.{HttpResult, HttpTerms, pose_of_task}

-- The worlds that requests to the API and looking lead to; none of these steps sends a goal.
pub data Quiet {W : Type 0} (api : TaskApi W) (runtime : Runtime W) (start : W) : W → Type 0 where
  begun : Quiet api runtime start start
  looked : {w w' : W} → Quiet api runtime start w → Looks runtime w w' → Quiet api runtime start w'
  asked :
      {w : W}
      → Quiet api runtime start w
      → Quiet api runtime start (get_next_pending_task_via_http api w).1
  patched :
      (id : ℤ) (status : String) (reason : WmsReason) {w : W}
      → Quiet api runtime start w
      → Quiet api runtime start (update_task_status_via_http api id status reason w).1

module _ {W : Type 0} (api : TaskApi W) (runtime : Runtime W) (terms : HttpTerms) (start : W) where
  -- One goal was sent, in execute mode: after requests and looking a check had found the ready gate
  -- ready, then the API confirmed 'running' for the task, then the goal went to the pose of the
  -- task, and then its end was written to the API, which was all.
  pub record Sent (before : Option HttpTask) (found : Option ReadyGateResult)
      (result : Option NavigationResult) (end : W) : Type 0 where
    pub execute : terms.execute ≡ true
    pub task : HttpTask
    pub taken : before ≡ some task
    pub waited_from : W
    pub quiet : Quiet api runtime start waited_from
    pub gate : ReadyGateResult
    pub ready : gate.ready ≡ true
    pub seen : found ≡ some gate
    pub claimed_at : W
    pub saw : Saw runtime gate waited_from claimed_at
    pub claim : WmsReason
    pub running : HttpTask
    pub sent_at : W
    pub confirmed :
        update_task_status_via_http api task.id "running" claim claimed_at
        ≡ (returned running, sent_at)
    pub nav : NavigationResult
    pub arrived_at : W
    pub sent :
        runtime.navigate_to_pose (pose_of_task task) terms.navigation_timeout sent_at
        ≡ (nav, arrived_at)
    pub told : result ≡ some nav
    pub written :
        end
        ≡ (update_task_status_via_http api task.id
            (final_status nav.succeeded)
            nav.reason
            arrived_at).1

  -- A goal was sent and reported, or none was.
  abbrev pub Went : HttpResult × W → Type 0
  Went (r, w) =
      ((r.goal_sent ≡ false) × Quiet api runtime start w)
      ⊎ ((r.goal_sent ≡ true) × Sent r.task_before r.ready_gate r.navigation_result w)

  -- What a run that has come to a result has done.
  abbrev pub HttpWent : Option HttpResult × W → Type 0
  HttpWent (none, w) = Unit
  HttpWent (some r, w) = Went (r, w)
