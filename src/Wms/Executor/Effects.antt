-- ===== src/Wms/Executor/Effects.antt =====
-- What one run of the executor does to the store and reports, on every branch.
use amr_warehouse_navigation.Common.{
  true, not, ◌≡◌, refl, sym, subst, Option, none, some, String, nat_key, string_key, ℕ, suc, ◌+◌,
  ◌*◌, ◌≤◌, Outcome, returned, raised, Method, if_cases, >>=-returned, ◌>>=◌,
}
use amr_warehouse_navigation.Common.Int.{max_zero}
use amr_warehouse_navigation.Wms.Reasons.{WmsError, out_of_rounds, WmsReason}
use amr_warehouse_navigation.Wms.Targets.{Pose, resolve_target_pose}
use amr_warehouse_navigation.Wms.Targets.Caught.{is_caught, IsCaught, resolve_target_pose-IsCaught}
use amr_warehouse_navigation.Wms.Tasks.{TaskRow, get_next_pending_task, fetch_task_row}
use amr_warehouse_navigation.Wms.Tasks.Rows.{HasUniqueIds, fetch_task_row-In}
use amr_warehouse_navigation.Wms.Tasks.Pending.{IsNext, get_next_pending_task-IsNext}
use amr_warehouse_navigation.Wms.Runtime.{
  ReadyGateResult, ReadyWaitResult, Runtime, wait_for_execute_ready_gate,
}
use amr_warehouse_navigation.Wms.Runtime.Waits.{
  Ticks, round_time, Waited, wait_for_execute_ready_gate-Waited,
}
use amr_warehouse_navigation.Wms.Runtime.Looks.{
  Looks, Saw, WaitSaw, check_finds, wait_for_execute_ready_gate-WaitSaw,
}
use amr_warehouse_navigation.Wms.Executor.{
  RunOutcome, RunResult, Bench, RunTerms, empty_result, gate_of, after_gate, after_resolution,
  run_next, run_executor_once,
}
use amr_warehouse_navigation.Wms.Executor.Outcomes.{
  Handles, dry_fits, late_exit, late_fits, late_idle, late_pending, not-not, not-yes, late-Acts,
}
use amr_warehouse_navigation.Wms.Executor.Writes.{
  fail_target-Handles, stay_pending-Handles, drive-Handles,
}

module _ {W : Type 0} (runtime : Runtime W) (terms : RunTerms) where
  after_gate-Handles :
      (task : TaskRow) (name : String) (pose : Pose) (start : W) (gate : ReadyGateResult)
      (b : Bench W)
      → resolve_target_pose task.target_name terms.points ≡ returned (name, pose)
      → Saw runtime gate start b.world
      → fetch_task_row task.id b.tasks.rows ≡ returned task
      → Handles runtime terms task start b.tasks (after_gate runtime terms task pose gate b)
  unfolding after_gate
  after_gate-Handles task name pose start gate b target saw found =
      let P = λ (m : Method WmsError (Bench W) RunResult).
        Handles runtime terms task start b.tasks (m b) in
      if_cases P (not gate.ready) _ _
        (λ late.
          stay_pending-Handles runtime terms task start gate _ (WmsReason.not_ready gate.reason) b
            (late_pending terms.execute) (late_idle terms.execute) (late_exit terms.execute)
            (late_fits terms.execute)
            (λ r e.
              late-Acts runtime terms task start terms.execute r b.world
                (gate, e, not-yes gate.ready late, saw))
            found)
        (λ ready.
          if_cases P (not terms.execute) _ _
            (λ dry.
              stay_pending-Handles runtime terms task start gate RunOutcome.dry_run_ready _ b refl
                refl refl (dry_fits terms.execute dry)
                (λ r e. (gate, e, not-not gate.ready ready, saw)) found)
            (λ wet.
              drive-Handles runtime terms task name pose start gate b (not-not terms.execute wet)
                target (not-not gate.ready ready) saw found))

  -- The gate is found by looking alone, whatever it says, and the store is not touched.
  abbrev Gated : Bench W → Outcome WmsError ReadyGateResult × Bench W → Type 0
  Gated b (raised e, b') = ⊥
  Gated b (returned gate, b') = (b'.tasks ≡ b.tasks) × Saw runtime gate b.world b'.world

  wait-Gated :
      (b : Bench W) (timeout most : ℕ) (p : Option ReadyWaitResult × W)
      → Waited timeout most p
      → WaitSaw runtime b.world p
      → Gated b (elim p.0 [
        | none ↦ (raised out_of_rounds, record b { world = p.1 })
        | some waited ↦ (returned waited.ready_gate, record b { world = p.1 })
      ])
  wait-Gated b timeout most (none, w) h saw = absurd h
  wait-Gated b timeout most (some waited, w) h saw = (refl, saw)

  after_gate_of :
      (task : TaskRow) (name : String) (pose : Pose) (b : Bench W)
      (p : Outcome WmsError ReadyGateResult × Bench W)
      → resolve_target_pose task.target_name terms.points ≡ returned (name, pose)
      → gate_of runtime terms b ≡ p
      → Gated b p
      → fetch_task_row task.id b.tasks.rows ≡ returned task
      → Handles runtime terms task b.world b.tasks
          ((gate_of runtime terms >>= λ gate. after_gate runtime terms task pose gate) b)
  after_gate_of task name pose b (raised e, b1) target run h found = absurd h
  after_gate_of task name pose b (returned gate, b1) target run (same, saw) found =
      rw (>>=-returned (gate_of runtime terms) (λ g. after_gate runtime terms task pose g) b run) (
        subst
          (λ t. Handles runtime terms task b.world t (after_gate runtime terms task pose gate b1))
          same
          (after_gate-Handles task name pose b.world gate b1 target saw
            (subst (λ t. fetch_task_row task.id t.rows ≡ returned task) (sym same) found)))

  -- What the executor needs: a clock that runs forward, and rounds enough for the timeout.
  pub record Suffices : Type 0 where
    pub ticks : Ticks runtime
    pub last_round : ℕ
    pub counted : terms.rounds ≡ suc last_round
    pub enough :
        max_zero terms.ready_timeout
        ≤ last_round
          * round_time (max_zero terms.ready_timeout) (max_zero terms.ready_poll_interval)

  gate_of-Gated : (s : Suffices) (b : Bench W) → Gated b (gate_of runtime terms b)
  unfolding gate_of
  gate_of-Gated s b =
      if_cases (Gated b) terms.execute _ _
        (λ executing.
          wait-Gated b _ _
            (wait_for_execute_ready_gate runtime terms.rounds terms.ready_timeout
              terms.ready_poll_interval b.world)
            (subst
              (λ k. Waited (max_zero terms.ready_timeout) (1 + s.last_round) (
                wait_for_execute_ready_gate runtime k terms.ready_timeout terms.ready_poll_interval
                  b.world))
              (sym s.counted)
              (wait_for_execute_ready_gate-Waited runtime s.ticks s.last_round terms.ready_timeout
                terms.ready_poll_interval b.world s.enough))
            (wait_for_execute_ready_gate-WaitSaw runtime terms.rounds terms.ready_timeout
              terms.ready_poll_interval b.world))
        (λ dry. (refl, check_finds runtime b.world b.world Looks.still))

  after_resolution-Handles :
      (s : Suffices) (task : TaskRow) (b : Bench W) (resolved : Outcome WmsError (String × Pose))
      → resolve_target_pose task.target_name terms.points ≡ resolved
      → fetch_task_row task.id b.tasks.rows ≡ returned task
      → IsCaught resolved
      → Handles runtime terms task b.world b.tasks (after_resolution runtime terms task resolved b)
  after_resolution-Handles s task b (raised e) target found caught =
      rw caught (fail_target-Handles runtime terms task e b found)
  after_resolution-Handles s task b (returned (name, pose)) target found caught =
      after_gate_of task name pose b (gate_of runtime terms b) target refl (gate_of-Gated s b) found

  -- The result of a run: nothing where nothing is pending, and the next task handled otherwise.
  abbrev pub Executes : Bench W → Option TaskRow → Outcome WmsError RunResult × Bench W → Type 0
  Executes start none (raised e, b) = ⊥
  Executes start none (returned r, b) = (r ≡ empty_result) × (b ≡ start)
  Executes start (some task) result = Handles runtime terms task start.world start.tasks result

  run_next-Executes :
      (s : Suffices) (b : Bench W) (next : Option TaskRow)
      → HasUniqueIds b.tasks.rows
      → is_caught terms.points ≡ true
      → IsNext b.tasks.rows next
      → Executes b next (run_next runtime terms next b)
  run_next-Executes s b none unique caught is_next = (refl, refl)
  run_next-Executes s b (some task) unique caught is_next =
      after_resolution-Handles s task b (resolve_target_pose task.target_name terms.points) refl
        (fetch_task_row-In task b.tasks.rows unique is_next.0.0)
        (resolve_target_pose-IsCaught task.target_name terms.points caught)

  pub run_executor_once-Executes :
      (s : Suffices) (b : Bench W)
      → HasUniqueIds b.tasks.rows
      → is_caught terms.points ≡ true
      → Executes b (get_next_pending_task b.tasks) (run_executor_once runtime terms b)
  unfolding run_executor_once
  run_executor_once-Executes s b unique caught =
      run_next-Executes s b (get_next_pending_task b.tasks) unique caught
        (get_next_pending_task-IsNext b.tasks)
