-- ===== src/Inspection/Route/Runs.antt =====
-- amr_warehouse_sim/inspection/executor.py, `run_inspection_route`: the whole route. Of the report,
-- texts, times and the preflight's details are not kept.
use amr_warehouse_navigation.Common.{
  Bool, true, false, not, ◌&&◌, Option, none, some, List, [], ◌∷◌, ℕ, if◌then◌else◌, nat_eq, length,
  Outcome, returned, raised, Method, pure, ◌>>=◌, ◌>>◌,
}
use amr_warehouse_navigation.Wms.Runtime.{
  ReadyGateResult, ReadyWaitResult, wait_for_execute_ready_gate,
}
use amr_warehouse_navigation.Inspection.Route.{
  FaultCode, RouteError, no_points, no_store, PointSpec, PointResult, has_succeeded, all_of,
  Summary, summary_of, RunStatus, InspectionStore, start_run, finish_run, persist_point_result,
}
use amr_warehouse_navigation.Inspection.Route.Points.{RouteRuntime, RouteTerms, run_point}

pub record RouteReport : Type 0 where
  pub status : RunStatus
  pub goal_sent : Bool
  pub points : List PointResult
  pub summary : Summary
  pub execution_fault : Option FaultCode
  pub exit_code : ℕ

-- The store of an execute run, and the world.
pub record RouteBench (W : Type 0) : Type 0 where
  pub store : InspectionStore
  pub world : W

abbrev blank_report : List PointSpec → RouteReport
blank_report points = record {
  status = RunStatus.running;
  goal_sent = false;
  points = [];
  summary = summary_of [] (length points);
  execution_fault = none;
  exit_code = 0;
}

abbrev pub run_succeeded : List PointSpec → List PointResult → Bool
run_succeeded points rs = nat_eq (length rs) (length points) && all_of has_succeeded rs

abbrev pub route_report : List PointSpec → List PointResult → RouteReport
route_report points rs = record {
  status = if run_succeeded points rs then RunStatus.succeeded else RunStatus.failed;
  goal_sent = true;
  points = rs;
  summary = summary_of rs (length points);
  execution_fault = none;
  exit_code = if run_succeeded points rs then 0 else 1;
}

-- The report of a route that does not start.
abbrev pub unready_report : List PointSpec → Bool → RouteReport
unready_report points gate_ready = record (blank_report points) {
  status = RunStatus.failed;
  execution_fault =
      some (if not gate_ready then FaultCode.robot_not_ready else FaultCode.camera_unavailable);
  exit_code = 1;
}

abbrev dry_report : List PointSpec → Bool → RouteReport
dry_report points ready = record (blank_report points) {
  status = if ready then RunStatus.ready else RunStatus.not_ready;
  exit_code = if ready then 0 else 1;
}

abbrev pub persist_all : List PointResult → InspectionStore → InspectionStore
persist_all [] s = s
persist_all (r ∷ rs) s = persist_all rs (persist_point_result r s)

module _ {W : Type 0} (runtime : RouteRuntime W) (terms : RouteTerms) where
  -- The loop over the points, which a failed one ends.
  unfoldable pub run_points : List PointSpec → Method RouteError W (List PointResult)
  run_points [] = pure []
  run_points (point ∷ points) =
      let rest = run_points points in
      run_point runtime terms point >>= λ r.
      if has_succeeded r then (rest >>= λ rs. pure (r ∷ rs)) else pure (r ∷ [])

  -- The results of failed points are written at the end.
  abbrev pub write_failures : List PointResult → W → W
  write_failures [] w = w
  write_failures (r ∷ rs) w =
      write_failures rs (if has_succeeded r then w else runtime.write_result r w)

  abbrev Route : Type 0 → Type 0
  Route A = Method RouteError (RouteBench W) A

  abbrev pub in_store : {A : Type 0} → Method RouteError InspectionStore A → Route A
  in_store m b = let (r, s) = m b.store in (r, record b { store = s })

  abbrev pub in_world : {A : Type 0} → Method RouteError W A → Route A
  in_world m b = let (r, w) = m b.world in (r, record b { world = w })

  abbrev pub gate_after : Option ReadyWaitResult × W → Outcome RouteError ReadyGateResult × W
  gate_after (none, w) = (raised RouteError.out_of_rounds, w)
  gate_after (some waited, w) = (returned waited.ready_gate, w)

  abbrev pub wait_gate : Method RouteError W ReadyGateResult
  wait_gate w = gate_after (
      wait_for_execute_ready_gate runtime.navigation terms.rounds terms.ready_timeout
        terms.ready_poll_interval w)

  abbrev camera : Method RouteError W Bool
  camera w = let (ready, w') = runtime.check_camera w in (returned ready, w')

  -- The report is written, and the run is finished with its status and summary.
  abbrev pub close_run : RouteReport → Route RouteReport
  close_run report = do in_store (finish_run terms.run_id report.status report.summary); pure report

  abbrev pub store_points : List PointSpec → List PointResult → Route RouteReport
  store_points points rs = do
    in_world (λ w. (returned tt, write_failures rs w))
    in_store (λ s. (returned tt, persist_all rs s))
    close_run (route_report points rs)

  abbrev pub drive_route : List PointSpec → Route RouteReport
  drive_route points = in_world (run_points points) >>= store_points points

  abbrev pub start_route : List PointSpec → Bool → Bool → Route RouteReport
  start_route points gate_ready camera_ready =
      if gate_ready && camera_ready
      then drive_route points
      else close_run (unready_report points gate_ready)

  abbrev pub look_and_start : List PointSpec → ReadyGateResult → Route RouteReport
  look_and_start points gate = do
    camera_ready ← in_world camera
    start_route points gate.ready camera_ready

  abbrev pub prepare_route : List PointSpec → Route RouteReport
  prepare_route points = in_world wait_gate >>= look_and_start points

  abbrev pub execute_route : List PointSpec → Route RouteReport
  execute_route points =
      in_store (start_run terms.run_id terms.robot_id) >>= λ _. prepare_route points

  -- A dry run needs no store and sends no goal.
  abbrev check_route : List PointSpec → Method RouteError W RouteReport
  check_route points w =
      let (gate, w1) = runtime.navigation.check_ready_gate w in
      let (camera_ready, w2) = runtime.check_camera w1 in
      (returned (dry_report points (gate.ready && camera_ready)), w2)

  -- `run_inspection_route`, for a store or none.
  unfoldable pub run_inspection_route :
      List PointSpec
      → Option InspectionStore
      → W
      → Outcome RouteError RouteReport × (Option InspectionStore × W)
  run_inspection_route [] store w = (raised no_points, (store, w))
  run_inspection_route (point ∷ points) none w =
      if terms.execute
      then (raised no_store, (none, w))
      else (let (r, w') = check_route (point ∷ points) w in (r, (none, w')))
  run_inspection_route (point ∷ points) (some s) w =
      if terms.execute
      then (let (r, b) = execute_route (point ∷ points) (record { store = s; world = w }) in
          (r, (some b.store, b.world)))
      else (let (r, w') = check_route (point ∷ points) w in (r, (some s, w')))
