-- ===== src/Wms/Executor/Outcomes.antt =====
-- What each outcome of a run means for its task, and the statement that a task was handled.
use amr_warehouse_navigation.Common.{
  Bool, true, false, not, ◌≡◌, refl, none, some, String, nat_key, string_key, ℕ, contains,
  if◌then◌else◌, Outcome, returned, raised, arith,
}
use amr_warehouse_navigation.Fleet.Robots.{whole_second}
use amr_warehouse_navigation.Wms.Reasons.{WmsError, WmsReason}
use amr_warehouse_navigation.Wms.Tasks.{TaskRow, TaskTable, task_statuses, restatus}
use amr_warehouse_navigation.Wms.Tasks.Rows.{updated}
use amr_warehouse_navigation.Wms.Targets.{Pose, resolve_target_pose}
use amr_warehouse_navigation.Wms.Runtime.{ReadyGateResult, NavigationResult, Runtime}
use amr_warehouse_navigation.Wms.Runtime.Looks.{Saw}
use amr_warehouse_navigation.Wms.Executor.{
  RunOutcome, RunResult, RunTerms, Bench, final_status, final_outcome,
}

-- The status in which each outcome leaves its task.
abbrev pub status_after : RunOutcome → String
status_after RunOutcome.succeeded = "succeeded"
status_after RunOutcome.failed = "failed"
status_after RunOutcome.invalid_target = "failed"
status_after RunOutcome.no_pending_task = "pending"
status_after RunOutcome.execute_not_ready_timeout = "pending"
status_after RunOutcome.ready_gate_not_ready = "pending"
status_after RunOutcome.dry_run_ready = "pending"

-- The outcomes of a goal that was sent.
abbrev pub is_driven : RunOutcome → Bool
is_driven RunOutcome.succeeded = true
is_driven RunOutcome.failed = true
is_driven _ = false

-- The outcomes of a task in each mode.
abbrev pub fits_mode : Bool → RunOutcome → Bool
fits_mode _ RunOutcome.no_pending_task = false
fits_mode true RunOutcome.dry_run_ready = false
fits_mode true RunOutcome.ready_gate_not_ready = false
fits_mode false RunOutcome.execute_not_ready_timeout = false
fits_mode false RunOutcome.succeeded = false
fits_mode false RunOutcome.failed = false
fits_mode _ _ = true

-- The outcomes that the process reports by a nonzero exit code.
abbrev pub exit_of : RunOutcome → ℕ
exit_of RunOutcome.failed = 1
exit_of RunOutcome.invalid_target = 1
exit_of _ = 0

abbrev late_outcome : Bool → RunOutcome
late_outcome execute =
    if execute then RunOutcome.execute_not_ready_timeout else RunOutcome.ready_gate_not_ready

module _ {W : Type 0} (runtime : Runtime W) (terms : RunTerms) (task : TaskRow) (start : W) where
  -- The gate of the report was found by looking alone, and it is ready or it is not.
  abbrev Seen : Bool → RunResult → W → Type 0
  Seen ready r w =
      (gate : ReadyGateResult) × (r.ready_gate ≡ some gate)
      × (gate.ready ≡ ready)
      × Saw runtime gate start w

  -- One goal was sent, in execute mode, to the pose of the task's target, from a world where the
  -- gate had been found ready by looking alone; nothing was done after it.
  pub record Drives (succeeded : Bool) (r : RunResult) (end : W) : Type 0 where
    pub execute : terms.execute ≡ true
    pub at : W
    pub seen : Seen true r at
    pub name : String
    pub pose : Pose
    pub target : resolve_target_pose task.target_name terms.points ≡ returned (name, pose)
    pub nav : NavigationResult
    pub sent : runtime.navigate_to_pose pose terms.navigation_timeout at ≡ (nav, end)
    pub reported : r.navigation_result ≡ some nav
    pub as_told : nav.succeeded ≡ succeeded

  -- What a run with each outcome has done to the world, which started from `start`.
  abbrev pub Acts : RunResult → W → RunOutcome → Type 0
  Acts r w RunOutcome.no_pending_task = ⊥
  Acts r w RunOutcome.invalid_target = (w ≡ start) × (r.ready_gate ≡ none)
  Acts r w RunOutcome.execute_not_ready_timeout = Seen false r w
  Acts r w RunOutcome.ready_gate_not_ready = Seen false r w
  Acts r w RunOutcome.dry_run_ready = Seen true r w
  Acts r w RunOutcome.succeeded = Drives true r w
  Acts r w RunOutcome.failed = Drives false r w

  -- The task has been handled: of the store only its row has changed, to the status of the outcome
  -- and the second of the last write, and the world has gone as the outcome says.
  abbrev pub Handles : TaskTable → Outcome WmsError RunResult × Bench W → Type 0
  Handles t (raised e, b) = ⊥
  Handles t (returned r, b) =
      (reason : WmsReason) × (b.tasks
        ≡ updated (record t { clock = runtime.wall_clock b.world }) task.id (status_after r.outcome)
            (some reason))
      × (r.task_before ≡ some task)
      × (r.task_after
          ≡ some (
              restatus (status_after r.outcome) (some reason)
                (whole_second (runtime.wall_clock b.world)) task))
      × (r.goal_sent ≡ is_driven r.outcome)
      × (r.exit_code ≡ exit_of r.outcome)
      × (fits_mode terms.execute r.outcome ≡ true)
      × Acts r b.world r.outcome

  pub final-Acts : (s : Bool) (r : RunResult) (w : W) → Drives s r w → Acts r w (final_outcome s)
  final-Acts true r w d = d
  final-Acts false r w d = d

  pub late-Acts :
      (execute : Bool) (r : RunResult) (w : W) → Seen false r w → Acts r w (late_outcome execute)
  late-Acts true r w h = h
  late-Acts false r w h = h

pub final_known : (s : Bool) → contains task_statuses (final_status s) ≡ true
final_known true = refl
final_known false = refl

pub status_after_final : (s : Bool) → status_after (final_outcome s) ≡ final_status s
status_after_final true = refl
status_after_final false = refl

pub final_driven : (s : Bool) → is_driven (final_outcome s) ≡ true
final_driven true = refl
final_driven false = refl

pub final_exit : (s : Bool) → (if s then 0 else 1) ≡ exit_of (final_outcome s)
final_exit true = refl
final_exit false = refl

pub final_fits : (s : Bool) → fits_mode true (final_outcome s) ≡ true
final_fits true = refl
final_fits false = refl

pub invalid_fits : (execute : Bool) → fits_mode execute RunOutcome.invalid_target ≡ true
invalid_fits true = refl
invalid_fits false = refl

pub dry_fits :
    (execute : Bool) → not execute ≡ true → fits_mode execute RunOutcome.dry_run_ready ≡ true
dry_fits true h = cc
dry_fits false h = refl

pub late_fits : (execute : Bool) → fits_mode execute (late_outcome execute) ≡ true
late_fits true = refl
late_fits false = refl

pub late_pending : (x : Bool) → status_after (late_outcome x) ≡ "pending"
late_pending true = refl
late_pending false = refl

pub late_idle : (x : Bool) → is_driven (late_outcome x) ≡ false
late_idle true = refl
late_idle false = refl

pub late_exit : (x : Bool) → exit_of (late_outcome x) ≡ 0
late_exit true = refl
late_exit false = refl

pub not-not : (x : Bool) → not x ≡ false → x ≡ true
not-not x h = ground arith

pub not-yes : (x : Bool) → not x ≡ true → x ≡ false
not-yes x h = ground arith
