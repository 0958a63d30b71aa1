-- ===== src/Wms/Queue/Store.antt =====
-- The queue run over the executor and its task store.
use amr_warehouse_navigation.Common.{
  true, false, ◌≡◌, refl, sym, subst, ap, inl, inr, Option, none, some, List, string_key, ℕ, ◌+◌,
  ◌<◌, arith, length, Outcome, returned, raised,
}
use amr_warehouse_navigation.Common.Int.{pos}
use amr_warehouse_navigation.Fleet.Robots.{whole_second}
use amr_warehouse_navigation.Wms.Reasons.{WmsError, WmsReason}
use amr_warehouse_navigation.Wms.Targets.Caught.{is_caught}
use amr_warehouse_navigation.Wms.Tasks.{TaskRow, get_next_pending_task, restatus, update_rows}
use amr_warehouse_navigation.Wms.Tasks.Rows.{HasUniqueIds, update_rows-HasUniqueIds}
use amr_warehouse_navigation.Wms.Tasks.Pending.{
  IsNext, IsWaiting, waiting, waiting-consumed, waiting_kept, pending_rows-none,
  get_next_pending_task-IsNext,
}
use amr_warehouse_navigation.Wms.Runtime.{Runtime}
use amr_warehouse_navigation.Wms.Executor.{
  RunOutcome, RunResult, Bench, RunTerms, run_executor_once,
}
use amr_warehouse_navigation.Wms.Executor.Effects.{Executes, Suffices, run_executor_once-Executes}
use amr_warehouse_navigation.Wms.Executor.Outcomes.{exit_of, fits_mode, status_after}
use amr_warehouse_navigation.Wms.Queue.{QueueTerms, is_empty_queue, run_task_queue}
use amr_warehouse_navigation.Wms.Queue.Drain.{Drains, run_task_queue-Drains}
use amr_warehouse_navigation.Wms.Queue.Counts.{Consumer, Ran, taken}

-- The pending tasks before and after a task was handled with an outcome.
waiting_after :
    (task : TaskRow) (outcome : RunOutcome) (reason : WmsReason) (now : ℕ) (rows : List TaskRow)
    → HasUniqueIds rows
    → IsWaiting rows task
    → waiting rows
      ≡ taken outcome
        + waiting (update_rows task.id (restatus (status_after outcome) (some reason) now) rows)
waiting_after task RunOutcome.succeeded reason now rows unique next =
    omega (arith, waiting-consumed task "succeeded" (some reason) now rows unique next refl)
waiting_after task RunOutcome.failed reason now rows unique next =
    omega (arith, waiting-consumed task "failed" (some reason) now rows unique next refl)
waiting_after task RunOutcome.invalid_target reason now rows unique next =
    omega (arith, waiting-consumed task "failed" (some reason) now rows unique next refl)
waiting_after task RunOutcome.no_pending_task reason now rows unique next =
    omega (arith, waiting_kept task (some reason) now rows unique next)
waiting_after task RunOutcome.execute_not_ready_timeout reason now rows unique next =
    omega (arith, waiting_kept task (some reason) now rows unique next)
waiting_after task RunOutcome.ready_gate_not_ready reason now rows unique next =
    omega (arith, waiting_kept task (some reason) now rows unique next)
waiting_after task RunOutcome.dry_run_ready reason now rows unique next =
    omega (arith, waiting_kept task (some reason) now rows unique next)

handled_outcome :
    (outcome : RunOutcome) → fits_mode true outcome ≡ true → is_empty_queue outcome ≡ false
handled_outcome RunOutcome.no_pending_task h = ground arith
handled_outcome RunOutcome.succeeded h = refl
handled_outcome RunOutcome.failed h = refl
handled_outcome RunOutcome.invalid_target h = refl
handled_outcome RunOutcome.execute_not_ready_timeout h = refl
handled_outcome RunOutcome.ready_gate_not_ready h = refl
handled_outcome RunOutcome.dry_run_ready h = refl

abbrev pub Sound : {W : Type 0} → Bench W → Type 0
Sound b = HasUniqueIds b.tasks.rows

abbrev pub left : {W : Type 0} → Bench W → ℕ
left b = waiting b.tasks.rows

module _ {W : Type 0} (runtime : Runtime W) (terms : RunTerms)
    (executing : terms.execute ≡ true) where
  executed-Ran :
      (b : Bench W) (next : Option TaskRow) (p : Outcome WmsError RunResult × Bench W)
      → Sound b
      → IsNext b.tasks.rows next
      → Executes runtime terms b next p
      → Ran Sound left b p
  executed-Ran b none (raised e, b') sound is_next h = absurd h
  executed-Ran b none (returned r, b') sound is_next h = (
    subst (λ x. HasUniqueIds x.rows) (sym (ap (λ x. x.tasks) h.1)) sound,
    ground (arith, ap (λ x. x.outcome) h.0, ap (λ x. waiting x.tasks.rows) h.1),
    inr (
        subst (λ x. waiting x.rows ≡ 0) (sym (ap (λ x. x.tasks) h.1))
          (ap length (pending_rows-none b.tasks.rows is_next))),
    subst (λ x. x.exit_code ≡ exit_of x.outcome) (sym h.0) refl,
    inl (ap (λ x. is_empty_queue x.outcome) h.0),
  )
  executed-Ran b (some task) (raised e, b') sound is_next h = absurd h
  executed-Ran b (some task) (returned r, b') sound is_next
        (reason, store, before, after, sent, code, fits, acts) =
      (
        subst (λ x. HasUniqueIds x.rows) (sym store)
            (update_rows-HasUniqueIds task.id (status_after r.outcome) (some reason)
              (whole_second (runtime.wall_clock b'.world)) b.tasks.rows sound),
        subst (λ x. waiting b.tasks.rows ≡ taken r.outcome + waiting x.rows) (sym store)
            (waiting_after task r.outcome reason (whole_second (runtime.wall_clock b'.world))
              b.tasks.rows sound is_next.0),
        inl (handled_outcome r.outcome (subst (λ x. fits_mode x r.outcome ≡ true) executing fits)),
        code,
        inr (subst (λ x. fits_mode x r.outcome ≡ true) executing fits),
      )

  abbrev executor_consumer :
      Suffices runtime terms
      → is_caught terms.points ≡ true
      → Consumer (run_executor_once runtime terms)
  executor_consumer suffices caught = record {
    Sound = Sound;
    left = left;
    runs = λ b sound.
        executed-Ran b (get_next_pending_task b.tasks) (run_executor_once runtime terms b) sound
          (get_next_pending_task-IsNext b.tasks)
          (run_executor_once-Executes runtime terms suffices b sound caught);
  }

-- In execute mode, where the executor's run has a clock that runs forward and rounds enough, its
-- points were loaded or the exception is one that it catches, and no two tasks share an id: with a
-- round for each pending task and one more, the queue run over the executor returns, and ends as
-- `Drained` says.
pub run_task_queue-run_executor_once :
    {W : Type 0} (runtime : Runtime W) (run_terms : RunTerms) (queue_terms : QueueTerms)
    (max_tasks rounds : ℕ) (b : Bench W)
    → run_terms.execute ≡ true
    → queue_terms.execute ≡ true
    → Suffices runtime run_terms
    → is_caught run_terms.points ≡ true
    → Sound b
    → left b < rounds
    → Drains queue_terms max_tasks
        (left b)
        Sound
        left
        (run_task_queue (run_executor_once runtime run_terms) queue_terms rounds (pos max_tasks) b)
run_task_queue-run_executor_once runtime run_terms queue_terms max_tasks rounds b executing queued
      suffices caught unique enough =
    run_task_queue-Drains (executor_consumer runtime run_terms executing suffices caught)
      queue_terms max_tasks rounds b queued unique enough
