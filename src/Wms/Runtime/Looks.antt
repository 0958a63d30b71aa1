-- ===== src/Wms/Runtime/Looks.antt =====
-- What waiting for the ready gate does to the world: it looks, and sends nothing.
use amr_warehouse_navigation.Common.{
  Option, none, some, ℕ, zero, suc, ◌+◌, ◌-◌, ◌≡◌, refl, ltb, leb, not, if_cases,
}
use amr_warehouse_navigation.Common.Int.{ℤ, max_zero}
use amr_warehouse_navigation.Wms.Runtime.{
  ReadyGateResult, ReadyWaitResult, Runtime, nap, finished, wait_loop, wait_for_execute_ready_gate,
}

-- The worlds that checks of the ready gate, readings of the clock and sleeps lead to.
pub data Looks {W : Type 0} (runtime : Runtime W) (start : W) : W → Type 0 where
  still : Looks runtime start start
  checked : {w : W} → Looks runtime start w → Looks runtime start (runtime.check_ready_gate w).1
  timed : {w : W} → Looks runtime start w → Looks runtime start (runtime.monotonic w).1
  slept : (d : ℕ) {w : W} → Looks runtime start w → Looks runtime start (runtime.sleep d w)

-- The gate was found by a check between two worlds, and nothing but looking was done.
pub record Saw {W : Type 0} (runtime : Runtime W) (gate : ReadyGateResult) (start end : W)
    : Type 0 where
  pub at : W
  pub before : Looks runtime start at
  pub found : gate ≡ (runtime.check_ready_gate at).0
  pub after : Looks runtime (runtime.check_ready_gate at).1 end

-- What a wait that has come to an end has found.
abbrev pub WaitSaw : {W : Type 0} → Runtime W → W → Option ReadyWaitResult × W → Type 0
WaitSaw runtime start (none, w) = Unit
WaitSaw runtime start (some r, w) = Saw runtime r.ready_gate start w

module _ {W : Type 0} (runtime : Runtime W) (start : W) where
  -- A check of the gate after some looking.
  pub check_finds :
      (w : W)
      → Looks runtime start w
      → Saw runtime (runtime.check_ready_gate w).0 start (runtime.check_ready_gate w).1
  check_finds w h = record { at = w; before = h; found = refl; after = Looks.still }

  still_found :
      (gate : ReadyGateResult) (w : W)
      → Saw runtime gate start w
      → Saw runtime gate start (runtime.monotonic w).1
  still_found gate w s = record {
    at = s.at;
    before = s.before;
    found = s.found;
    after = Looks.timed s.after;
  }

  pub found_by_sight :
      (gate : ReadyGateResult) (w : W) → Saw runtime gate start w → Looks runtime start w
  found_by_sight gate w s = all s.after
    where
      all : {v : W} → Looks runtime (runtime.check_ready_gate s.at).1 v → Looks runtime start v
      all Looks.still = Looks.checked s.before
      all (Looks.checked h) = Looks.checked (all h)
      all (Looks.timed h) = Looks.timed (all h)
      all (Looks.slept d h) = Looks.slept d (all h)

  finished-WaitSaw :
      (gate : ReadyGateResult) (attempts begin : ℕ) (w : W)
      → Saw runtime gate start w
      → WaitSaw runtime start (finished runtime gate attempts begin w)
  unfolding finished
  finished-WaitSaw gate attempts begin w s = still_found gate w s

  wait_loop-WaitSaw :
      (rounds begin deadline poll : ℕ) (gate : ReadyGateResult) (attempts : ℕ) (w : W)
      → Saw runtime gate start w
      → WaitSaw runtime start (wait_loop runtime rounds begin deadline poll gate attempts w)
  unfolding wait_loop
  wait_loop-WaitSaw zero begin deadline poll gate attempts w s = tt
  wait_loop-WaitSaw (suc rounds) begin deadline poll gate attempts w s =
      let w1 = (runtime.monotonic w).1 in
      let again = (runtime.monotonic w1).0 in
      let w2 = (runtime.monotonic w1).1 in
      let w2' = runtime.sleep (nap poll (deadline - again)) w2 in
      let s1 = still_found gate w s in
      let s2 = still_found gate w1 s1 in
      let s3 = check_finds w2' (Looks.slept _ (found_by_sight gate w2 s2)) in
      let gate' = (runtime.check_ready_gate w2').0 in
      let w3 = (runtime.check_ready_gate w2').1 in
      if_cases (WaitSaw runtime start) (not (ltb (runtime.monotonic w).0 deadline)) _ _
        (λ late. finished-WaitSaw gate attempts begin w1 s1)
        (λ early.
          if_cases (WaitSaw runtime start) (leb deadline again) _ _
            (λ late. finished-WaitSaw gate attempts begin w2 s2)
            (λ left.
              if_cases (WaitSaw runtime start) gate'.ready _ _
                (λ ready. finished-WaitSaw gate' (attempts + 1) begin w3 s3)
                (λ waiting.
                  wait_loop-WaitSaw rounds begin deadline poll gate' (attempts + 1) w3 s3)))

-- The gate that a wait returns is one that a check has found, and the wait only looks.
pub wait_for_execute_ready_gate-WaitSaw :
    {W : Type 0} (runtime : Runtime W) (rounds : ℕ) (ready_timeout poll_interval : ℤ) (w : W)
    → WaitSaw runtime w (wait_for_execute_ready_gate runtime rounds ready_timeout poll_interval w)
unfolding wait_for_execute_ready_gate
wait_for_execute_ready_gate-WaitSaw runtime rounds ready_timeout poll_interval w =
    let begin = (runtime.monotonic w).0 in
    let w1 = (runtime.monotonic w).1 in
    let gate = (runtime.check_ready_gate w1).0 in
    let w2 = (runtime.check_ready_gate w1).1 in
    let s = check_finds runtime w w1 (Looks.timed Looks.still) in
    if_cases (WaitSaw runtime w) gate.ready _ _
      (λ ready. finished-WaitSaw runtime w gate 1 begin w2 s)
      (λ waiting.
        wait_loop-WaitSaw runtime w rounds begin (begin + max_zero ready_timeout)
          (max_zero poll_interval) gate 1 w2 s)
