-- ===== src/Wms/Http/Replies.antt =====
-- What a run on an API reports, whatever the API replies.
use text.Mathlib.TextEquality.{eq_iff}
use amr_warehouse_navigation.Common.{
  Bool, true, false, not, ◌≡◌, refl, sym, subst, ◌⊎◌, inl, inr, Option, none, some, String, ◌==◌,
  string_key, ℕ, suc, ◌+◌, ◌*◌, ◌≤◌, if◌then◌else◌, if_cases, arith, Outcome, returned, raised,
}
use amr_warehouse_navigation.Common.Int.{max_zero}
use amr_warehouse_navigation.Wms.Reasons.{WmsReason}
use amr_warehouse_navigation.Wms.Runtime.{
  ReadyGateResult, ReadyWaitResult, NavigationResult, Runtime, wait_for_execute_ready_gate,
}
use amr_warehouse_navigation.Wms.Runtime.Waits.{
  Ticks, Waited, round_time, wait_for_execute_ready_gate-Waited,
}
use amr_warehouse_navigation.Wms.Executor.{final_status}
use amr_warehouse_navigation.Wms.Http.{
  HttpFault, Payload, HttpTask, TaskApi, read_then, coerce_http_task, expect_status,
  get_next_pending_task_via_http, update_task_status_via_http,
}
use amr_warehouse_navigation.Wms.Http.Run.{
  HttpOutcome, HttpResult, HttpTerms, taskless, fault_outcome, with_fault, http_outcome, replied,
  update_or_fail, simulate, finish_drive, drive_http, stay_unready, after_http_wait, waited_http,
  fetched, run_http_executor_once, pose_of_task,
}

-- A reply that the API gave with a status, where it was asked for one.
abbrev HasStatus : Option HttpTask → String → Type 0
HasStatus none status = ⊥
HasStatus (some t) status = t.status ≡ status

-- What each outcome says of the replies, of the goal and of the exit code. A fault of the API ends
-- every run with exit code 1; a goal was sent only after the API confirmed the status 'running'.
abbrev Reports : Bool → HttpResult → HttpOutcome → Type 0
Reports execute r HttpOutcome.api_unreachable =
    (r.exit_code ≡ 1) × ((r.goal_sent ≡ false) ⊎ HasStatus r.task_running "running")
Reports execute r HttpOutcome.invalid_task_payload =
    (r.exit_code ≡ 1) × ((r.goal_sent ≡ false) ⊎ HasStatus r.task_running "running")
Reports execute r HttpOutcome.no_pending_task =
    (r.exit_code ≡ 0) × (r.goal_sent ≡ false) × (r.task_before ≡ none)
Reports execute r HttpOutcome.http_task_simulated =
    (execute ≡ false)
    × (r.exit_code ≡ 0)
    × (r.goal_sent ≡ false)
    × HasStatus r.task_running "running"
    × HasStatus r.task_after "succeeded"
Reports execute r HttpOutcome.execute_not_ready_timeout =
    (execute ≡ true) × (r.exit_code ≡ 0) × (r.goal_sent ≡ false) × HasStatus r.task_after "pending"
Reports execute r HttpOutcome.succeeded =
    (execute ≡ true)
    × (r.exit_code ≡ 0)
    × (r.goal_sent ≡ true)
    × HasStatus r.task_running "running"
    × HasStatus r.task_after "succeeded"
Reports execute r HttpOutcome.failed =
    (execute ≡ true)
    × (r.exit_code ≡ 1)
    × (r.goal_sent ≡ true)
    × HasStatus r.task_running "running"
    × HasStatus r.task_after "failed"

abbrev Reported : Bool → {W : Type 0} → HttpResult × W → Type 0
Reported execute (r, w) = Reports execute r r.outcome

-- A coerced task has the expected status.
abbrev Coerced : String → Outcome HttpFault HttpTask → Type 0
Coerced status (raised e) = Unit
Coerced status (returned t) = t.status ≡ status

read_then-Coerced :
    {A : Type 0} (status : String) (m : Outcome HttpFault A) (f : A → Outcome HttpFault HttpTask)
    → ((a : A) → Coerced status (f a))
    → Coerced status (read_then m f)
unfolding read_then
read_then-Coerced status (returned a) f h = h a
read_then-Coerced status (raised e) f h = tt

expect_status-Coerced :
    (expected status : String) (f : String → Outcome HttpFault HttpTask)
    → ((s : String) → s ≡ expected → Coerced expected (f s))
    → Coerced expected (read_then (expect_status expected status) f)
unfolding read_then
expect_status-Coerced expected status f h =
    if_cases (λ m. Coerced expected (read_then m f)) (status == expected) _ _
      (λ same. h status ((eq_iff status expected).0 same)) (λ other. tt)

coerce_http_task-Coerced :
    (status : String) (p : Payload) → Coerced status (coerce_http_task status p)
unfolding coerce_http_task
coerce_http_task-Coerced status Payload.not_object = tt
coerce_http_task-Coerced status (Payload.object o) = read_then-Coerced status _ _ (λ id.
    read_then-Coerced status _ _ (λ task_name. read_then-Coerced status _ _ (λ target_name.
      read_then-Coerced status _ _ (λ raw_status.
        expect_status-Coerced status raw_status _ (λ s same.
          read_then-Coerced status _ _ (λ frame_id. read_then-Coerced status _ _ (λ created_at.
            read_then-Coerced status _ _ (λ updated_at. read_then-Coerced status _ _ (λ reason.
              read_then-Coerced status _ _ (λ x.
                read_then-Coerced status _ _
                  (λ y. read_then-Coerced status _ _ (λ yaw. same))))))))))))

fault-Reports :
    (execute : Bool) (e : HttpFault) (r : HttpResult)
    → (r.goal_sent ≡ false) ⊎ HasStatus r.task_running "running"
    → Reports execute (with_fault e r) (fault_outcome e)
fault-Reports execute HttpFault.unavailable r h = (refl, h)
fault-Reports execute HttpFault.invalid r h = (refl, h)

module _ {W : Type 0} (api : TaskApi W) (runtime : Runtime W) (terms : HttpTerms)
    (execute : Bool) where
  -- What follows a status update, where the API confirms the status that it was asked for.
  replied-Reported :
      (so_far : HttpResult) (next : HttpTask → W → HttpResult × W)
      (p : Outcome HttpFault HttpTask × W) (status : String)
      → Coerced status p.0
      → (so_far.goal_sent ≡ false) ⊎ HasStatus so_far.task_running "running"
      → ((t : HttpTask) (w : W) → t.status ≡ status → Reported execute (next t w))
      → Reported execute (replied api runtime terms so_far next p)
  replied-Reported so_far next (returned t, w) status h idle more = more t w h
  replied-Reported so_far next (raised e, w) status h idle more =
      fault-Reports execute e so_far idle

  updated_status :
      (task : HttpTask) (status : String) (reason : WmsReason) (w : W)
      → Coerced status (update_task_status_via_http api task.id status reason w).0
  unfolding update_task_status_via_http
  updated_status task status reason w =
      read_then-Coerced status (api.patch_status task.id status reason w).0
        (coerce_http_task status) (coerce_http_task-Coerced status)

  update-Reported :
      (so_far : HttpResult) (task : HttpTask) (status : String) (reason : WmsReason)
      (next : HttpTask → W → HttpResult × W) (w : W)
      → (so_far.goal_sent ≡ false) ⊎ HasStatus so_far.task_running "running"
      → ((t : HttpTask) (w' : W) → t.status ≡ status → Reported execute (next t w'))
      → Reported execute (update_or_fail api runtime terms so_far task status reason next w)
  update-Reported so_far task status reason next w idle more =
      replied-Reported so_far next (update_task_status_via_http api task.id status reason w) status
        (updated_status task status reason w) idle more

  -- A result that no goal has been sent for, and that will be a success unless something fails.
  abbrev IsFresh : HttpResult → Type 0
  IsFresh r = (r.goal_sent ≡ false) × (r.exit_code ≡ 0)

  simulate-Reported :
      (task : HttpTask) (so_far : HttpResult) (w : W)
      → execute ≡ false
      → IsFresh so_far
      → Reported execute (simulate api runtime terms task so_far w)
  simulate-Reported task so_far w dry (idle, fine) =
      update-Reported so_far task "running" _ _ w (inl idle) (λ running w' claimed.
        update-Reported (record so_far { task_running = some running }) task "succeeded" _ _ w'
          (inl idle) (λ after w'' done. (dry, fine, idle, claimed, done)))

  -- The last reply of a drive.
  driven-Reports :
      (b : Bool) (running after : HttpTask) (r : HttpResult)
      → execute ≡ true
      → running.status ≡ "running"
      → after.status ≡ final_status b
      → Reports execute
          (record r {
            goal_sent = true;
            task_running = some running;
            task_after = some after;
            exit_code = if b then 0 else 1;
          })
          (http_outcome b)
  driven-Reports true running after r wet claimed done = (wet, refl, refl, claimed, done)
  driven-Reports false running after r wet claimed done = (wet, refl, refl, claimed, done)

  finish_drive-Reported :
      (task running : HttpTask) (so_far : HttpResult) (nav : NavigationResult) (w : W)
      → execute ≡ true
      → running.status ≡ "running"
      → Reported execute (
          finish_drive api runtime terms task
            (record so_far { goal_sent = true; task_running = some running })
            nav
            w)
  finish_drive-Reported task running so_far nav w wet claimed =
      update-Reported
        (record so_far {
          goal_sent = true;
          task_running = some running;
          navigation_result = some nav;
        })
        task (final_status nav.succeeded) _ _ w (inr claimed)
        (λ after w' done.
          driven-Reports nav.succeeded running after
            (record so_far { navigation_result = some nav; outcome = http_outcome nav.succeeded })
            wet claimed done)

  drive_http-Reported :
      (task : HttpTask) (so_far : HttpResult) (w : W)
      → execute ≡ true
      → IsFresh so_far
      → Reported execute (drive_http api runtime terms task so_far w)
  drive_http-Reported task so_far w wet (idle, fine) =
      update-Reported so_far task "running" _ _ w (inl idle) (λ running w' claimed.
        let (nav, w'') = runtime.navigate_to_pose (pose_of_task task) terms.navigation_timeout w' in
        finish_drive-Reported task running so_far nav w'' wet claimed)

  stay_unready-Reported :
      (task : HttpTask) (so_far : HttpResult) (gate : ReadyGateResult) (w : W)
      → execute ≡ true
      → IsFresh so_far
      → Reported execute (stay_unready api runtime terms task so_far gate w)
  stay_unready-Reported task so_far gate w wet (idle, fine) =
      update-Reported so_far task "pending" _ _ w (inl idle)
        (λ after w' done. (wet, fine, idle, done))

  after_http_wait-Reported :
      (task : HttpTask) (so_far : HttpResult) (gate : ReadyGateResult) (w : W)
      → execute ≡ true
      → IsFresh so_far
      → Reported execute (after_http_wait api runtime terms task so_far gate w)
  after_http_wait-Reported task so_far gate w wet fresh =
      let seen : HttpResult = record so_far { ready_gate = some gate } in
      if_cases (λ (m : W → HttpResult × W). Reported execute (m w)) (not gate.ready) _ _
        (λ unready. stay_unready-Reported task seen gate w wet fresh)
        (λ ready. drive_http-Reported task seen w wet fresh)

  -- The run has come to a result.
  abbrev pub HttpRan : Option HttpResult × W → Type 0
  HttpRan (none, w) = ⊥
  HttpRan (some r, w) = Reports execute r r.outcome

  waited_http-HttpRan :
      (task : HttpTask) (so_far : HttpResult) (timeout most : ℕ) (p : Option ReadyWaitResult × W)
      → execute ≡ true
      → IsFresh so_far
      → Waited timeout most p
      → HttpRan (waited_http api runtime terms task so_far p)
  waited_http-HttpRan task so_far timeout most (none, w) wet fresh h = absurd h
  waited_http-HttpRan task so_far timeout most (some waited, w) wet fresh h =
      after_http_wait-Reported task so_far waited.ready_gate w wet fresh

module _ {W : Type 0} (api : TaskApi W) (runtime : Runtime W) (terms : HttpTerms)
    (ticks : Ticks runtime) (last_round : ℕ) (counted : terms.rounds ≡ suc last_round)
    (enough : max_zero terms.ready_timeout
      ≤ last_round
        * round_time (max_zero terms.ready_timeout) (max_zero terms.ready_poll_interval)) where
  fetched-HttpRan :
      (p : Outcome HttpFault (Option HttpTask) × W)
      → HttpRan api runtime terms terms.execute (fetched api runtime terms p)
  fetched-HttpRan (raised HttpFault.unavailable, w) = (refl, inl refl)
  fetched-HttpRan (raised HttpFault.invalid, w) = (refl, inl refl)
  fetched-HttpRan (returned none, w) = (refl, refl, refl)
  fetched-HttpRan (returned (some task), w) =
      let so_far : HttpResult = record (taskless HttpOutcome.no_pending_task 0) {
        task_before = some task;
      } in
      if_cases (HttpRan api runtime terms terms.execute) (not terms.execute) _ _
        (λ dry.
          simulate-Reported api runtime terms terms.execute task so_far w (dry_mode dry)
            (refl, refl))
        (λ wet.
          waited_http-HttpRan api runtime terms terms.execute task so_far
            (max_zero terms.ready_timeout) (1 + last_round)
            (wait_for_execute_ready_gate runtime terms.rounds terms.ready_timeout
              terms.ready_poll_interval w)
            (wet_mode wet) (refl, refl)
            (subst
              (λ k. Waited (max_zero terms.ready_timeout) (1 + last_round) (
                wait_for_execute_ready_gate runtime k terms.ready_timeout terms.ready_poll_interval
                  w))
              (sym counted)
              (wait_for_execute_ready_gate-Waited runtime ticks last_round terms.ready_timeout
                terms.ready_poll_interval w enough)))
    where
      dry_mode : not terms.execute ≡ true → terms.execute ≡ false
      dry_mode h = ground arith

      wet_mode : not terms.execute ≡ false → terms.execute ≡ true
      wet_mode h = ground arith

  pub run_http_executor_once-HttpRan :
      (w : W) → HttpRan api runtime terms terms.execute (run_http_executor_once api runtime terms w)
  unfolding run_http_executor_once
  run_http_executor_once-HttpRan w = fetched-HttpRan (get_next_pending_task_via_http api w)
