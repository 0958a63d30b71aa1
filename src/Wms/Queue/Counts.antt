-- ===== src/Wms/Queue/Counts.antt =====
-- What the variables of the queue loop count in execute mode, and how one round changes them.
use amr_warehouse_navigation.Common.{
  true, false, ◌≡◌, refl, ◌⊎◌, inl, List, [], ◌∷◌, ◌++◌, ℕ, suc, ◌+◌, ◌≤◌, ◌<◌, if◌then◌else◌, ltb,
  arith, if_cases, length, Outcome, returned, raised, Method,
}
use amr_warehouse_navigation.Wms.Reasons.{WmsError}
use amr_warehouse_navigation.Wms.Executor.{RunOutcome, RunResult}
use amr_warehouse_navigation.Wms.Executor.Outcomes.{exit_of, fits_mode}
use amr_warehouse_navigation.Wms.Queue.{
  StopReason, QueueTerms, Tally, QueueResult, is_consuming, is_empty_queue, Turn, stopped, noted,
  after_outcome,
}

-- How many tasks a run takes from the queue.
abbrev pub taken : RunOutcome → ℕ
taken outcome = if is_consuming outcome then 1 else 0

-- A run has returned, with its exit code, in a sound state: a consuming outcome has taken one task
-- and any other none, and an empty queue is reported only where it is empty.
abbrev pub Ran : {S : Type 0} → (S → Type 0) → (S → ℕ) → S → Outcome WmsError RunResult × S → Type 0
Ran Sound left s (raised e, s') = ⊥
Ran Sound left s (returned r, s') =
    Sound s'
    × (left s ≡ taken r.outcome + left s')
    × ((is_empty_queue r.outcome ≡ false) ⊎ (left s' ≡ 0))
    × (r.exit_code ≡ exit_of r.outcome)
    × ((is_empty_queue r.outcome ≡ true) ⊎ (fits_mode true r.outcome ≡ true))

-- What one run of the executor owes the queue in execute mode, over the states that are sound and a
-- count of the pending tasks.
pub record Consumer {S : Type 0} (run_once : Method WmsError S RunResult) : Type 1 where
  pub Sound : S → Type 0
  pub left : S → ℕ
  pub runs : (s : S) → Sound s → Ran Sound left s (run_once s)

-- The exit code after so many failed tasks.
abbrev exit_after : ℕ → ℕ
exit_after failed = if ltb 0 failed then 1 else 0

-- No more tasks than allowed, where 0 allows any number.
abbrev pub WithinMax : ℕ → ℕ → Type 0
WithinMax max_tasks consumed = (max_tasks ≡ 0) ⊎ (consumed ≤ max_tasks)

-- The loop's variables after whole rounds.
pub record Counted (terms : QueueTerms) (max_tasks before : ℕ) (t : Tally) (left : ℕ) : Type 0 where
  pub balanced : t.consumed ≡ t.succeeded + t.failed
  pub logged : length t.runs ≡ t.consumed
  pub coded : t.exit_code ≡ exit_after t.failed
  pub tolerated : (terms.continue_on_failure ≡ true) ⊎ (t.failed ≡ 0)
  pub within : WithinMax max_tasks t.consumed
  pub shared : before ≡ t.consumed + left

-- What each way to stop means for the variables and for the tasks that are left.
abbrev Stopped : QueueTerms → ℕ → Tally → ℕ → StopReason → Type 0
Stopped terms max_tasks t left StopReason.queue_empty =
    (left ≡ 0) × (t.exit_code ≡ exit_after t.failed)
Stopped terms max_tasks t left StopReason.max_tasks_reached =
    (t.consumed ≡ max_tasks) × (t.exit_code ≡ exit_after t.failed)
Stopped terms max_tasks t left StopReason.terminal_failure =
    (terms.continue_on_failure ≡ false) × (t.failed ≡ 1) × (t.exit_code ≡ 1)
Stopped terms max_tasks t left StopReason.ready_gate_timeout = t.exit_code ≡ 1
Stopped terms max_tasks t left _ = ⊥

pub record Drained (terms : QueueTerms) (max_tasks before : ℕ) (q : QueueResult) (left : ℕ)
    : Type 0 where
  pub balanced : q.tally.consumed ≡ q.tally.succeeded + q.tally.failed
  pub logged : length q.tally.runs ≤ q.tally.consumed + 1
  pub within : WithinMax max_tasks q.tally.consumed
  pub shared : before ≡ q.tally.consumed + left
  pub ended : Stopped terms max_tasks q.tally left q.stop_reason

length-snoc : {A : Type 0} (xs : List A) (x : A) → length (xs ++ x ∷ []) ≡ length xs + 1
length-snoc [] x = refl
length-snoc (y ∷ xs) x = omega (arith, length-snoc xs x)

-- A round that counts one more task, if there was room for it, or that ends the loop.
abbrev pub Turned : QueueTerms → ℕ → ℕ → ℕ → ℕ → Turn → Type 0
Turned terms max_tasks before start left (Turn.go_on t) =
    Counted terms max_tasks before t left × (start < t.consumed)
Turned terms max_tasks before start left (Turn.stop t reason) =
    Drained terms max_tasks before (stopped t reason) left

module _ (terms : QueueTerms) (max_tasks before : ℕ) (t : Tally) where
  pub success-Turned :
      (r : RunResult) (left : ℕ)
      → Counted terms max_tasks before t (suc left)
      → WithinMax max_tasks (t.consumed + 1)
      → r.exit_code ≡ 0
      → Turned terms max_tasks before t.consumed left
          (after_outcome terms (noted t r) RunOutcome.succeeded)
  success-Turned r left c room code = (
    record {
      balanced = ground (arith, c.balanced);
      logged = ground (arith, c.logged, length-snoc t.runs r);
      coded = ground (arith, c.coded);
      tolerated = c.tolerated;
      within = room;
      shared = omega (arith, c.shared);
    },
    omega arith,
  )

  pub failure-Turned :
      (r : RunResult) (left : ℕ)
      → Counted terms max_tasks before t (suc left)
      → WithinMax max_tasks (t.consumed + 1)
      → r.exit_code ≡ 1
      → Turned terms max_tasks before t.consumed left
          (after_outcome terms (noted t r) RunOutcome.failed)
  failure-Turned r left c room code =
      if_cases (Turned terms max_tasks before t.consumed left) terms.continue_on_failure _ _
        (λ continue. (
          record {
            balanced = ground (arith, c.balanced);
            logged = ground (arith, c.logged, length-snoc t.runs r);
            coded = ground (arith, c.coded);
            tolerated = inl continue;
            within = room;
            shared = omega (arith, c.shared);
          },
          omega arith,
        ))
        (λ halt. record {
          balanced = ground (arith, c.balanced);
          logged = ground (arith, c.logged, length-snoc t.runs r);
          within = room;
          shared = omega (arith, c.shared);
          ended = (halt, ground (arith, c.tolerated), ground (arith, c.coded));
        })

  pub late-Turned :
      (r : RunResult) (left : ℕ)
      → Counted terms max_tasks before t left
      → r.exit_code ≡ 0
      → Turned terms max_tasks before t.consumed left
          (after_outcome terms (noted t r) RunOutcome.execute_not_ready_timeout)
  late-Turned r left c code = record {
    balanced = c.balanced;
    logged = ground (arith, c.logged, length-snoc t.runs r);
    within = c.within;
    shared = c.shared;
    ended = ground (arith, c.coded);
  }

  pub empty-Turned :
      (r : RunResult) (left : ℕ)
      → Counted terms max_tasks before t left
      → r.exit_code ≡ 0
      → left ≡ 0
      → Turned terms max_tasks before t.consumed left (Turn.stop (noted t r) StopReason.queue_empty)
  empty-Turned r left c code none_left = record {
    balanced = c.balanced;
    logged = ground (arith, c.logged, length-snoc t.runs r);
    within = c.within;
    shared = c.shared;
    ended = (none_left, ground (arith, c.coded));
  }
