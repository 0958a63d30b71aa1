-- ===== src/Wms/Queue/Drain.antt =====
-- `run_task_queue` in execute mode: how the loop ends, and what it leaves in the queue.
use amr_warehouse_navigation.Common.{
  true, false, ◌&&◌, ◌≡◌, refl, subst, ◌⊎◌, inl, inr, ℕ, zero, suc, ◌+◌, ◌<◌, ltb, leb, arith,
  if_cases, Outcome, returned, raised, Method,
}
use amr_warehouse_navigation.Common.Int.{pos}
use amr_warehouse_navigation.Wms.Reasons.{WmsError}
use amr_warehouse_navigation.Wms.Executor.{RunOutcome, RunResult}
use amr_warehouse_navigation.Wms.Executor.Outcomes.{exit_of, fits_mode}
use amr_warehouse_navigation.Wms.Queue.{
  StopReason, QueueTerms, Tally, QueueResult, empty_tally, is_empty_queue, Turn, stopped, noted,
  turn_of, queue_turn, queue_ran, queue_loop, run_task_queue,
}
use amr_warehouse_navigation.Wms.Queue.Counts.{
  Consumer, Counted, Drained, Ran, Turned, WithinMax, empty-Turned, failure-Turned, late-Turned,
  success-Turned, taken,
}

-- The loop has returned, in a sound state.
abbrev pub Drains :
    QueueTerms
    → ℕ
    → ℕ
    → {S : Type 0} → (S → Type 0)
    → (S → ℕ)
    → Outcome WmsError QueueResult × S
    → Type 0
Drains terms max_tasks before Sound left (raised e, s) = ⊥
Drains terms max_tasks before Sound left (returned q, s) =
    Sound s × Drained terms max_tasks before q (left s)

module _ {S : Type 0} {run_once : Method WmsError S RunResult} (consumer : Consumer run_once)
    (terms : QueueTerms) (max_tasks before : ℕ) where
  full_stop :
      (t : Tally) (left : ℕ)
      → Counted terms max_tasks before t left
      → (ltb 0 max_tasks && leb max_tasks t.consumed) ≡ true
      → Drained terms max_tasks before (stopped t StopReason.max_tasks_reached) left
  full_stop t left c full = record {
    balanced = c.balanced;
    logged = omega (arith, c.logged);
    within = c.within;
    shared = c.shared;
    ended = (ground (arith, c.within), c.coded);
  }

  room_left :
      (t : Tally) (left : ℕ)
      → Counted terms max_tasks before t left
      → (ltb 0 max_tasks && leb max_tasks t.consumed) ≡ false
      → WithinMax max_tasks (t.consumed + 1)
  room_left t left c room = ground (arith, c.within)

  take_one :
      (t : Tally) (left left' : ℕ)
      → Counted terms max_tasks before t left
      → left ≡ 1 + left'
      → Counted terms max_tasks before t (suc left')
  take_one t left left' c took = subst (Counted terms max_tasks before t) (omega arith) c

  take_none :
      (t : Tally) (left left' : ℕ)
      → Counted terms max_tasks before t left
      → left ≡ 0 + left'
      → Counted terms max_tasks before t left'
  take_none t left left' c took = subst (Counted terms max_tasks before t) (omega arith) c

  -- A round of execute mode, after the executor has run.
  turned :
      (t : Tally) (left left' : ℕ) (r : RunResult) (outcome : RunOutcome)
      → terms.execute ≡ true
      → Counted terms max_tasks before t left
      → WithinMax max_tasks (t.consumed + 1)
      → left ≡ taken outcome + left'
      → (is_empty_queue outcome ≡ false) ⊎ (left' ≡ 0)
      → r.exit_code ≡ exit_of outcome
      → (is_empty_queue outcome ≡ true) ⊎ (fits_mode true outcome ≡ true)
      → Turned terms max_tasks before t.consumed left' (turn_of terms (noted t r) outcome)
  turned t left left' r RunOutcome.no_pending_task executing c room took (inl never) code fits = cc
  turned t left left' r RunOutcome.no_pending_task executing c room took (inr done) code fits =
      empty-Turned terms max_tasks before t r left' (take_none t left left' c took) code done
  turned t left left' r RunOutcome.succeeded executing c room took empty code fits =
      simp executing
        (success-Turned terms max_tasks before t r left' (take_one t left left' c took) room code)
  turned t left left' r RunOutcome.failed executing c room took empty code fits =
      simp executing
        (failure-Turned terms max_tasks before t r left' (take_one t left left' c took) room code)
  turned t left left' r RunOutcome.invalid_target executing c room took empty code fits =
      simp executing
        (failure-Turned terms max_tasks before t r left' (take_one t left left' c took) room code)
  turned t left left' r RunOutcome.execute_not_ready_timeout executing c room took empty code fits =
      simp executing
        (late-Turned terms max_tasks before t r left' (take_none t left left' c took) code)
  turned t left left' r RunOutcome.ready_gate_not_ready executing c room took empty code fits =
      ground arith
  turned t left left' r RunOutcome.dry_run_ready executing c room took empty code fits =
      ground arith

  queue_turn-Drains :
      (next : Tally → Method WmsError S QueueResult) (start : ℕ) (turn : Turn) (s : S)
      → consumer.Sound s
      → Turned terms max_tasks before start (consumer.left s) turn
      → ((t : Tally)
          → Counted terms max_tasks before t (consumer.left s)
          → start < t.consumed
          → Drains terms max_tasks before consumer.Sound consumer.left (next t s))
      → Drains terms max_tasks before consumer.Sound consumer.left (queue_turn next turn s)
  queue_turn-Drains next start (Turn.stop t reason) s sound done rest = (sound, done)
  queue_turn-Drains next start (Turn.go_on t) s sound (c, more) rest = rest t c more

  queue_ran-Drains :
      (next : Tally → Method WmsError S QueueResult) (t : Tally) (s : S)
      (ran : Outcome WmsError RunResult × S)
      → terms.execute ≡ true
      → Counted terms max_tasks before t (consumer.left s)
      → WithinMax max_tasks (t.consumed + 1)
      → Ran consumer.Sound consumer.left s ran
      → ((t' : Tally) (s' : S)
          → consumer.Sound s'
          → Counted terms max_tasks before t' (consumer.left s')
          → t.consumed < t'.consumed
          → Drains terms max_tasks before consumer.Sound consumer.left (next t' s'))
      → Drains terms max_tasks before consumer.Sound consumer.left (queue_ran terms next t ran)
  queue_ran-Drains next t s (raised e, s') executing c room h rest = absurd h
  queue_ran-Drains next t s (returned r, s') executing c room (sound, took, empty, code, fits)
        rest =
      queue_turn-Drains next t.consumed (turn_of terms (noted t r) r.outcome) s' sound
        (turned t (consumer.left s) (consumer.left s') r r.outcome executing c room took empty code
          fits)
        (λ t' c' more. rest t' s' sound c' more)

  queue_loop-Drains :
      (rounds : ℕ) (t : Tally) (s : S)
      → terms.execute ≡ true
      → consumer.Sound s
      → Counted terms max_tasks before t (consumer.left s)
      → consumer.left s < rounds
      → Drains terms max_tasks before consumer.Sound consumer.left
          (queue_loop run_once terms rounds max_tasks t s)
  unfolding queue_loop
  queue_loop-Drains zero t s executing sound c enough = omega arith
  queue_loop-Drains (suc rounds) t s executing sound c enough =
      if_cases (Drains terms max_tasks before consumer.Sound consumer.left)
        (terms.execute && (ltb 0 max_tasks && leb max_tasks t.consumed)) _ _
        (λ full. (sound, full_stop t (consumer.left s) c (ground arith)))
        (λ room.
          queue_ran-Drains (queue_loop run_once terms rounds max_tasks) t s (run_once s) executing c
            (room_left t (consumer.left s) c (ground arith)) (consumer.runs s sound)
            (λ t' s' sound' c' more.
              queue_loop-Drains rounds t' s' executing sound' c'
                (omega (arith, enough, c.shared, c'.shared))))

-- In execute mode, with a round for each pending task and one more, the queue run returns. Every
-- task that it consumed has succeeded or failed and has left the queue, no more of them than
-- allowed; it ends where the queue is empty, the allowed number is reached, a task has failed and
-- failures are not passed over, or the ready gate was not ready in time, and for no other reason;
-- the exit code is 1 where a task has failed or the gate was late.
pub run_task_queue-Drains :
    {S : Type 0} {run_once : Method WmsError S RunResult} (consumer : Consumer run_once)
    (terms : QueueTerms) (max_tasks rounds : ℕ) (s : S)
    → terms.execute ≡ true
    → consumer.Sound s
    → consumer.left s < rounds
    → Drains terms max_tasks
        (consumer.left s)
        consumer.Sound
        consumer.left
        (run_task_queue run_once terms rounds (pos max_tasks) s)
unfolding run_task_queue
run_task_queue-Drains consumer terms max_tasks rounds s executing sound enough =
    queue_loop-Drains consumer terms max_tasks (consumer.left s) rounds empty_tally s executing
      sound
      (record {
        balanced = refl;
        logged = refl;
        coded = refl;
        tolerated = inr refl;
        within = inr (omega arith);
        shared = omega arith;
      })
      enough
