-- ===== src/Wms/Executor/Writes.antt =====
-- What each way to end a run writes to the store, and what it does to the world.
use amr_warehouse_navigation.Common.{
  true, false, ◌≡◌, refl, sym, ap, some, String, nat_key, string_key, ℕ, contains, returned,
  >>=-returned, within_runs,
}
use amr_warehouse_navigation.Fleet.Robots.{whole_second}
use amr_warehouse_navigation.Wms.Reasons.{WmsError, WmsReason}
use amr_warehouse_navigation.Wms.Targets.{Pose, resolve_target_pose}
use amr_warehouse_navigation.Wms.Tasks.{
  TaskRow, TaskTable, task_statuses, update_task_status, restatus, fetch_task_row,
}
use amr_warehouse_navigation.Wms.Tasks.Rows.{
  updated, update_task_status_runs, update_rows_twice, fetch-update_rows,
}
use amr_warehouse_navigation.Wms.Runtime.{ReadyGateResult, Runtime}
use amr_warehouse_navigation.Wms.Runtime.Looks.{Saw}
use amr_warehouse_navigation.Wms.Executor.{
  RunOutcome, RunResult, Bench, RunTerms, empty_result, final_status, navigate, fail_target,
  stay_pending, drive, on_tasks, at_clock,
}
use amr_warehouse_navigation.Wms.Executor.Outcomes.{
  Handles, exit_of, final_driven, final_exit, final_fits, final_known, fits_mode, invalid_fits,
  is_driven, Acts, final-Acts, status_after, status_after_final,
}

module _ {W : Type 0} (runtime : Runtime W) (terms : RunTerms) where
  update_runs :
      (b : Bench W) (task : TaskRow) (status : String) (reason : WmsReason)
      → contains task_statuses status ≡ true
      → fetch_task_row task.id b.tasks.rows ≡ returned task
      → on_tasks runtime terms (update_task_status task.id status (some reason)) b ≡ (
        returned (restatus status (some reason) (whole_second (runtime.wall_clock b.world)) task),
        record b { tasks = updated (at_clock runtime terms b) task.id status (some reason) },
      )
  update_runs b task status reason known found =
      within_runs (at_clock runtime terms) (λ t x. record x { tasks = t })
        (update_task_status task.id status (some reason)) b
        (update_task_status_runs (at_clock runtime terms b) task.id status (some reason) task known
          found)

  pub fail_target-Handles :
      (task : TaskRow) (e : WmsError) (b : Bench W)
      → fetch_task_row task.id b.tasks.rows ≡ returned task
      → Handles runtime terms task b.world b.tasks (fail_target runtime terms task e b)
  unfolding fail_target
  fail_target-Handles task e b found =
      rw
        (>>=-returned
          (on_tasks runtime terms
            (update_task_status task.id "failed" (some (WmsReason.target_failed e))))
          _ b (update_runs b task "failed" (WmsReason.target_failed e) refl found))
        (
          WmsReason.target_failed e,
          refl,
          refl,
          refl,
          refl,
          refl,
          invalid_fits terms.execute,
          (refl, refl),
        )

  pub stay_pending-Handles :
      (task : TaskRow) (start : W) (gate : ReadyGateResult) (outcome : RunOutcome)
      (reason : WmsReason) (b : Bench W)
      → status_after outcome ≡ "pending"
      → is_driven outcome ≡ false
      → exit_of outcome ≡ 0
      → fits_mode terms.execute outcome ≡ true
      → ((r : RunResult)
          → r.ready_gate ≡ some gate
          → Acts runtime terms task start r b.world outcome)
      → fetch_task_row task.id b.tasks.rows ≡ returned task
      → Handles runtime terms task start b.tasks
          (stay_pending runtime terms task gate outcome reason b)
  unfolding stay_pending
  stay_pending-Handles task start gate outcome reason b pending idle fine fits acts found =
      rw
        (>>=-returned (on_tasks runtime terms (update_task_status task.id "pending" (some reason)))
          _ b (update_runs b task "pending" reason refl found))
        (
          reason,
          rw pending refl,
          refl,
          rw pending refl,
          sym idle,
          sym fine,
          fits,
          acts
              (record empty_result {
                outcome = outcome;
                task_before = some task;
                task_after = some (
                    restatus "pending" (some reason) (whole_second (runtime.wall_clock b.world))
                      task);
                ready_gate = some gate;
              })
              refl,
        )

  -- The store after a goal: the second update replaces what the first one wrote.
  updated_twice :
      (t : TaskTable) (id now now' : ℕ) (status status' : String) (reason reason' : WmsReason)
      → updated
          (record (updated (record t { clock = now }) id status (some reason)) { clock = now' })
          id
          status'
          (some reason')
        ≡ updated (record t { clock = now' }) id status' (some reason')
  updated_twice t id now now' status status' reason reason' =
      ap (λ rows. record t { rows = rows; clock = now' })
        (update_rows_twice id status status' (some reason) (some reason') (whole_second now)
          (whole_second now') t.rows)

  pub drive-Handles :
      (task : TaskRow) (name : String) (pose : Pose) (start : W) (gate : ReadyGateResult)
      (b : Bench W)
      → terms.execute ≡ true
      → resolve_target_pose task.target_name terms.points ≡ returned (name, pose)
      → gate.ready ≡ true
      → Saw runtime gate start b.world
      → fetch_task_row task.id b.tasks.rows ≡ returned task
      → Handles runtime terms task start b.tasks (drive runtime terms task pose gate b)
  unfolding drive navigate
  drive-Handles task name pose start gate b executing target ready saw found =
      let running = WmsReason.text "Ready gate satisfied; NavigateToPose goal dispatched." in
      let result = (runtime.navigate_to_pose pose terms.navigation_timeout b.world).0 in
      let end = (runtime.navigate_to_pose pose terms.navigation_timeout b.world).1 in
      let now = whole_second (runtime.wall_clock b.world) in
      let b1 : Bench W = record {
        tasks = updated (at_clock runtime terms b) task.id "running" (some running);
        world = end;
      } in
      let refound =
        fetch-update_rows task.id (restatus "running" (some running) now) task b.tasks.rows
          (λ r. refl) found in
      rw
        (
          >>=-returned
              (on_tasks runtime terms (update_task_status task.id "running" (some running))) _ b
              (update_runs b task "running" running refl found),
          >>=-returned
              (on_tasks runtime terms
                (update_task_status task.id (final_status result.succeeded) (some result.reason)))
              _ b1
              (update_runs b1 (restatus "running" (some running) now task)
                (final_status result.succeeded) result.reason (final_known result.succeeded)
                refound),
        )
        (
          result.reason,
          rw (status_after_final result.succeeded) (
              updated_twice b.tasks task.id (runtime.wall_clock b.world) (runtime.wall_clock end)
                "running" (final_status result.succeeded) running result.reason),
          refl,
          rw (status_after_final result.succeeded) refl,
          sym (final_driven result.succeeded),
          final_exit result.succeeded,
          rw executing (final_fits result.succeeded),
          final-Acts runtime terms task start result.succeeded _ end (record {
            execute = executing;
            at = b.world;
            seen = (gate, refl, ready, saw);
            name = name;
            pose = pose;
            target = target;
            nav = result;
            sent = refl;
            reported = refl;
            as_told = refl;
          }),
        )
