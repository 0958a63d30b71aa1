-- ===== src/Wms/Queue.antt =====
-- amr_warehouse_sim/mock_wms_task_runner.py, `run_task_queue` over a given `run_executor_once`. The
-- `while True` loop is given a number of rounds.
pub mod Counts
pub mod Drain
pub mod Store
use amr_warehouse_navigation.Common.{
  Bool, true, false, not, ◌&&◌, List, [], ◌∷◌, ◌++◌, ℕ, zero, suc, ◌+◌, if◌then◌else◌, ltb, leb,
  is_some, length, Outcome, returned, raised, Method,
}
use amr_warehouse_navigation.Common.Int.{ℤ, pos, negsuc}
use amr_warehouse_navigation.Wms.Reasons.{WmsError, bad_value, out_of_rounds}
use amr_warehouse_navigation.Wms.Executor.{RunOutcome, RunResult}

pub data StopReason : Type 0 where
  queue_empty max_tasks_reached dry_run_single_pass terminal_failure : StopReason
  ready_gate_timeout task_not_consumed unexpected_outcome : StopReason

pub record QueueTerms : Type 0 where
  pub execute : Bool
  pub continue_on_failure : Bool

-- The local variables of the loop.
pub record Tally : Type 0 where
  pub runs : List RunResult
  pub consumed : ℕ
  pub succeeded : ℕ
  pub failed : ℕ
  pub exit_code : ℕ

pub record QueueResult : Type 0 where
  pub tally : Tally
  pub task_runs : ℕ
  pub stop_reason : StopReason

abbrev max_ℕ : ℕ → ℕ → ℕ
max_ℕ a b = if leb a b then b else a

abbrev pub empty_tally : Tally
empty_tally = record { runs = []; consumed = 0; succeeded = 0; failed = 0; exit_code = 0 }

-- `CONSUMING_OUTCOMES`
abbrev pub is_consuming : RunOutcome → Bool
is_consuming RunOutcome.invalid_target = true
is_consuming RunOutcome.failed = true
is_consuming RunOutcome.succeeded = true
is_consuming _ = false

abbrev count_task_runs : List RunResult → ℕ
count_task_runs [] = 0
count_task_runs (r ∷ rs) = (if is_some r.task_before then 1 else 0) + count_task_runs rs

abbrev pub stopped : Tally → StopReason → QueueResult
stopped t reason = record { tally = t; task_runs = count_task_runs t.runs; stop_reason = reason }

-- What follows a run: another round, or the end of the loop.
pub data Turn : Type 0 where
  go_on : Tally → Turn
  stop : Tally → StopReason → Turn

abbrev with_exit : Tally → ℕ → Tally
with_exit t code = record t { exit_code = max_ℕ t.exit_code code }

abbrev after_failure : QueueTerms → Tally → Turn
after_failure terms t =
    if terms.continue_on_failure then Turn.go_on t else Turn.stop t StopReason.terminal_failure

-- The tests on the outcome of a run of execute mode, in their order.
abbrev pub after_outcome : QueueTerms → Tally → RunOutcome → Turn
after_outcome terms t RunOutcome.succeeded =
    Turn.go_on (record t { consumed = t.consumed + 1; succeeded = t.succeeded + 1 })
after_outcome terms t RunOutcome.failed =
    after_failure terms (record t { consumed = t.consumed + 1; failed = t.failed + 1 })
after_outcome terms t RunOutcome.invalid_target =
    after_failure terms (record t { consumed = t.consumed + 1; failed = t.failed + 1 })
after_outcome terms t RunOutcome.execute_not_ready_timeout =
    Turn.stop (with_exit t 1) StopReason.ready_gate_timeout
after_outcome terms t outcome =
    if not (is_consuming outcome)
    then Turn.stop (with_exit t (if terms.execute then 1 else 0)) StopReason.task_not_consumed
    else Turn.stop (with_exit t 1) StopReason.unexpected_outcome

abbrev pub is_empty_queue : RunOutcome → Bool
is_empty_queue RunOutcome.no_pending_task = true
is_empty_queue _ = false

abbrev pub noted : Tally → RunResult → Tally
noted t r = with_exit (record t { runs = t.runs ++ r ∷ [] }) r.exit_code

abbrev pub turn_of : QueueTerms → Tally → RunOutcome → Turn
turn_of terms t outcome =
    if is_empty_queue outcome
    then Turn.stop t StopReason.queue_empty
    else if not terms.execute
    then Turn.stop t StopReason.dry_run_single_pass
    else after_outcome terms t outcome

-- The rest of a round, once the executor has run, before the rounds that `next` stands for.
abbrev pub queue_turn :
    {S : Type 0} → (Tally → Method WmsError S QueueResult) → Turn → Method WmsError S QueueResult
queue_turn next (Turn.stop t reason) s = (returned (stopped t reason), s)
queue_turn next (Turn.go_on t) s = next t s

abbrev pub queue_ran :
    {S : Type 0}
    → QueueTerms
    → (Tally → Method WmsError S QueueResult)
    → Tally
    → Outcome WmsError RunResult × S
    → Outcome WmsError QueueResult × S
queue_ran terms next t (raised e, s) = (raised e, s)
queue_ran terms next t (returned r, s) = queue_turn next (turn_of terms (noted t r) r.outcome) s

module _ {S : Type 0} (run_once : Method WmsError S RunResult) (terms : QueueTerms) where
  unfoldable pub queue_loop : ℕ → ℕ → Tally → Method WmsError S QueueResult
  queue_loop zero max_tasks t s = (raised out_of_rounds, s)
  queue_loop (suc rounds) max_tasks t s =
      if terms.execute && (ltb 0 max_tasks && leb max_tasks t.consumed)
      then (returned (stopped t StopReason.max_tasks_reached), s)
      else queue_ran terms (queue_loop rounds max_tasks) t (run_once s)

  unfoldable pub run_task_queue : ℕ → ℤ → Method WmsError S QueueResult
  run_task_queue rounds (negsuc _) s = (raised bad_value, s)
  run_task_queue rounds (pos max_tasks) s = queue_loop rounds max_tasks empty_tally s
