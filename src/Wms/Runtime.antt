-- ===== src/Wms/Runtime.antt =====
-- amr_warehouse_sim/mock_wms_executor.py: what the executor asks of its runtime and of the clock,
-- and `wait_for_execute_ready_gate`. Times are microseconds.
pub mod Waits
pub mod Looks
use amr_warehouse_navigation.Common.{
  Bool, true, false, not, Option, none, some, List, [], String, ℕ, zero, suc, ◌+◌, ◌-◌,
  if◌then◌else◌, ltb, leb,
}
use amr_warehouse_navigation.Common.Int.{ℤ, max_zero}
use amr_warehouse_navigation.Common.Dict.{Dict}
use amr_warehouse_navigation.Wms.Reasons.{WmsReason}
use amr_warehouse_navigation.Wms.Targets.{Pose}

pub record ReadyGateResult : Type 0 where
  pub ready : Bool
  pub reason : WmsReason
  pub details : Dict String String

pub record NavigationResult : Type 0 where
  pub succeeded : Bool
  pub status : String
  pub reason : WmsReason

pub record ReadyWaitResult : Type 0 where
  pub ready_gate : ReadyGateResult
  pub attempts : ℕ
  pub elapsed : ℕ
  pub timed_out : Bool

-- `ExecutorRuntime`, with `monotonic_fn` and `sleep_fn`, over whatever they act on. `wall_clock` is
-- what the system clock reads there, which the task store asks for at each write.
pub record Runtime (W : Type 0) : Type 0 where
  pub check_ready_gate : W → ReadyGateResult × W
  pub navigate_to_pose : Pose → ℤ → W → NavigationResult × W
  pub monotonic : W → ℕ × W
  pub sleep : ℕ → W → W
  pub wall_clock : W → ℕ

abbrev min_ℕ : ℕ → ℕ → ℕ
min_ℕ a b = if leb a b then a else b

-- How long one round sleeps.
abbrev pub nap : ℕ → ℕ → ℕ
nap poll remaining = if ltb 0 poll then min_ℕ poll remaining else remaining

module _ {W : Type 0} (runtime : Runtime W) where
  unfoldable pub finished : ReadyGateResult → ℕ → ℕ → W → Option ReadyWaitResult × W
  finished gate attempts start w =
      let (now, w') = runtime.monotonic w in
      (
        some (record {
          ready_gate = gate;
          attempts = attempts;
          elapsed = now - start;
          timed_out = not gate.ready;
        }),
        w',
      )

  -- The `while` loop, for a number of rounds; `none` where they run out.
  unfoldable pub wait_loop : ℕ → ℕ → ℕ → ℕ → ReadyGateResult → ℕ → W → Option ReadyWaitResult × W
  unfolding finished
  wait_loop zero start deadline poll gate attempts w = (none, w)
  wait_loop (suc rounds) start deadline poll gate attempts w =
      let (now, w1) = runtime.monotonic w in
      let (again, w2) = runtime.monotonic w1 in
      let (gate', w3) = runtime.check_ready_gate (runtime.sleep (nap poll (deadline - again)) w2) in
      let rest = wait_loop rounds start deadline poll gate' (attempts + 1) w3 in
      if not (ltb now deadline)
      then finished gate attempts start w1
      else if leb deadline again
      then finished gate attempts start w2
      else if gate'.ready
      then finished gate' (attempts + 1) start w3
      else rest

  unfoldable pub wait_for_execute_ready_gate : ℕ → ℤ → ℤ → W → Option ReadyWaitResult × W
  unfolding finished
  wait_for_execute_ready_gate rounds ready_timeout poll_interval w =
      let (start, w1) = runtime.monotonic w in
      let (gate, w2) = runtime.check_ready_gate w1 in
      let rest =
        wait_loop rounds start (start + max_zero ready_timeout) (max_zero poll_interval) gate 1
          w2 in
      if gate.ready then finished gate 1 start w2 else rest
