-- ===== src/Wms/Runtime/Waits.antt =====
-- `wait_for_execute_ready_gate` under a clock that runs forward.
use amr_warehouse_navigation.Common.{
  true, false, not, ◌≡◌, ◌⊎◌, inl, inr, refl, subst, Option, none, some, ℕ, zero, suc, ◌+◌, ◌-◌,
  ◌*◌, ◌≤◌, if◌then◌else◌, ltb, leb, arith, Bool-cases, if_cases,
}
use amr_warehouse_navigation.Common.Int.{ℤ, max_zero}
use amr_warehouse_navigation.Wms.Runtime.{
  ReadyGateResult, ReadyWaitResult, Runtime, nap, finished, wait_loop, wait_for_execute_ready_gate,
}

-- What is documented of `time.monotonic` and `time.sleep`: readings do not go back, and a sleep
-- lasts as long as it was asked to, or longer. A check of the ready gate does not turn time back.
pub record Ticks {W : Type 0} (runtime : Runtime W) : Type 0 where
  pub time : W → ℕ
  pub reads_time : (w : W) → time w ≤ (runtime.monotonic w).0
  pub time_goes_on : (w : W) → (runtime.monotonic w).0 ≤ time (runtime.monotonic w).1
  pub sleeps : (d : ℕ) (w : W) → time w + d ≤ time (runtime.sleep d w)
  pub checks : (w : W) → time w ≤ time (runtime.check_ready_gate w).1

-- What each round of the wait takes at least, unless it is the last one.
abbrev pub round_time : ℕ → ℕ → ℕ
round_time timeout poll = if ltb 0 poll then poll else timeout

-- The wait has ended after so many checks at most, by a gate that is ready or by its time.
abbrev pub Waited : ℕ → ℕ → {W : Type 0} → Option ReadyWaitResult × W → Type 0
Waited timeout most (none, w) = ⊥
Waited timeout most (some r, w) =
    (r.timed_out ≡ not r.ready_gate.ready)
    × (r.attempts ≤ most)
    × ((r.ready_gate.ready ≡ true) ⊎ (timeout ≤ r.elapsed))

nap_covers :
    (timeout poll remaining : ℕ)
    → remaining ≤ timeout
    → (round_time timeout poll ≤ nap poll remaining) ⊎ (nap poll remaining ≡ remaining)
nap_covers timeout poll remaining h = ground arith

module _ {W : Type 0} (runtime : Runtime W) (ticks : Ticks runtime) (timeout poll start : ℕ) where
  finished_waits :
      (gate : ReadyGateResult) (attempts most : ℕ) (w : W)
      → attempts ≤ most
      → (gate.ready ≡ true) ⊎ (start + timeout ≤ ticks.time w)
      → Waited timeout most (finished runtime gate attempts start w)
  unfolding finished
  finished_waits gate attempts most w few (inl ready) = (refl, few, inl ready)
  finished_waits gate attempts most w few (inr late) =
      (refl, few, inr (omega (arith, ticks.reads_time w)))

  -- The time after a nap that starts at a reading.
  nap_ends :
      (again : ℕ) (w : W)
      → again ≤ ticks.time w
      → start ≤ again
      → ltb again (start + timeout) ≡ true
      → (again + round_time timeout poll
          ≤ ticks.time
              (runtime.check_ready_gate (runtime.sleep (nap poll (start + timeout - again)) w)).1)
        ⊎ (start + timeout
            ≤ ticks.time
                (runtime.check_ready_gate (runtime.sleep (nap poll (start + timeout - again)) w)).1)
  nap_ends again w now s early =
      let d = nap poll (start + timeout - again) in
      let slept = ticks.sleeps d w in
      let checked = ticks.checks (runtime.sleep d w) in
      elim (nap_covers timeout poll (start + timeout - again) (omega arith)) [
        | inl long ↦ inl (omega arith)
        | inr whole ↦ inr (ground arith)
      ]

  more_attempts :
      (attempts n : ℕ) (result : Option ReadyWaitResult × W)
      → Waited timeout (attempts + 1 + n) result
      → Waited timeout (attempts + suc n) result
  more_attempts attempts n result h = subst (λ k. Waited timeout k result) (omega arith) h

  loop_waits :
      (n : ℕ) (gate : ReadyGateResult) (attempts : ℕ) (w : W)
      → start ≤ ticks.time w
      → start + timeout ≤ ticks.time w + n * round_time timeout poll
      → Waited timeout
          (attempts + n)
          (wait_loop runtime (suc n) start (start + timeout) poll gate attempts w)
  unfolding wait_loop
  loop_waits zero gate attempts w s h =
      let r = ticks.reads_time w in
      let g = ticks.time_goes_on w in
      let late : ltb (runtime.monotonic w).0 (start + timeout) ≡ false = ground arith in
      rw late (
        finished_waits gate attempts (attempts + 0) (runtime.monotonic w).1 (omega arith)
          (inr (omega arith)))
  loop_waits (suc n) gate attempts w s h =
      let w1 = (runtime.monotonic w).1 in
      let w2 = (runtime.monotonic w1).1 in
      let again = (runtime.monotonic w1).0 in
      let d = nap poll (start + timeout - again) in
      let gate' = (runtime.check_ready_gate (runtime.sleep d w2)).0 in
      let w3 = (runtime.check_ready_gate (runtime.sleep d w2)).1 in
      let r = ticks.reads_time w in
      let g = ticks.time_goes_on w in
      let r1 = ticks.reads_time w1 in
      let g1 = ticks.time_goes_on w1 in
      elim (Bool-cases (ltb (runtime.monotonic w).0 (start + timeout))) [
        | inr late ↦
            rw late (
              finished_waits gate attempts (attempts + suc n) w1 (omega arith) (inr (ground arith)))
        | inl early ↦ elim (Bool-cases (leb (start + timeout) again)) [
          | inl late ↦
              rw (early, late)
                (finished_waits gate attempts (attempts + suc n) w2 (omega arith)
                  (inr (ground arith)))
          | inr left ↦
              let ends = nap_ends again w2 g1 (omega arith) (ground arith) in
              let enough : start + timeout ≤ ticks.time w3 + n * round_time timeout poll =
                elim ends [ inl long ↦ omega arith | inr whole ↦ omega arith ] in
              rw (early, left)
                (if_cases (Waited timeout (attempts + suc n)) gate'.ready _ _
                  (λ ready.
                    finished_waits gate' (attempts + 1) (attempts + suc n) w3 (omega arith)
                      (inl ready))
                  (λ waiting. more_attempts attempts n _ (
                    loop_waits n gate' (attempts + 1) w3
                      (elim ends [ inl long ↦ omega arith | inr whole ↦ omega arith ]) enough)))
        ]
      ]

-- With rounds enough for the time to pass, the wait ends: the gate is ready, or the timeout has
-- passed and the result says so; the gate has been checked once more than the rounds at most.
pub wait_for_execute_ready_gate-Waited :
    {W : Type 0} (runtime : Runtime W) (ticks : Ticks runtime) (n : ℕ)
    (ready_timeout poll_interval : ℤ) (w : W)
    → max_zero ready_timeout ≤ n * round_time (max_zero ready_timeout) (max_zero poll_interval)
    → Waited
        (max_zero ready_timeout)
        (1 + n)
        (wait_for_execute_ready_gate runtime (suc n) ready_timeout poll_interval w)
unfolding wait_for_execute_ready_gate
wait_for_execute_ready_gate-Waited runtime ticks n ready_timeout poll_interval w enough =
    let start = (runtime.monotonic w).0 in
    let w1 = (runtime.monotonic w).1 in
    let gate = (runtime.check_ready_gate w1).0 in
    let w2 = (runtime.check_ready_gate w1).1 in
    let g = ticks.time_goes_on w in
    let c = ticks.checks w1 in
    if_cases (Waited (max_zero ready_timeout) (1 + n)) gate.ready _ _
      (λ ready.
        finished_waits runtime ticks (max_zero ready_timeout) (max_zero poll_interval) start gate 1
          (1 + n) w2 (omega arith) (inl ready))
      (λ waiting.
        loop_waits runtime ticks (max_zero ready_timeout) (max_zero poll_interval) start n gate 1 w2
          (omega arith) (omega arith))
