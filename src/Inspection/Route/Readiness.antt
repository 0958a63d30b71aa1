-- ===== src/Inspection/Route/Readiness.antt =====
-- What the run of a whole route may have done when it has ended.
use amr_warehouse_navigation.Common.{
  Bool, true, false, ◌&&◌, ◌≡◌, ◌⊎◌, some, List, [], ◌∷◌, ◌++◌, string_key, if◌then◌else◌, length,
  Outcome, returned, raised,
}
use amr_warehouse_navigation.Wms.Runtime.{ReadyGateResult}
use amr_warehouse_navigation.Wms.Runtime.Looks.{Saw}
use amr_warehouse_navigation.Inspection.Route.{
  FaultCode, RouteError, PointSpec, has_succeeded, all_of, Summary, summary_of, RunStatus, RunRow,
}
use amr_warehouse_navigation.Inspection.Route.Points.{RouteRuntime, RouteTerms}
use amr_warehouse_navigation.Inspection.Route.Runs.{
  RouteReport, RouteBench, run_points, write_failures,
}
use amr_warehouse_navigation.Inspection.Route.Prefix.{Ran}

-- The row of a run that has ended.
abbrev pub finished_row : RouteTerms → RunStatus → Summary → RunRow
finished_row terms status summary = record {
  run_id = terms.run_id;
  robot_id = terms.robot_id;
  status = status;
  summary = some summary;
}

-- What was found before a route: the ready gate by looking alone, and then the camera.
pub record Looked {W : Type 0} (runtime : RouteRuntime W) (start : W) : Type 0 where
  pub gate : ReadyGateResult
  pub at : W
  pub saw : Saw runtime.navigation gate start at
  pub camera_ready : Bool
  pub end : W
  pub checked : runtime.check_camera at ≡ (camera_ready, end)

module _ {W : Type 0} (runtime : RouteRuntime W) (terms : RouteTerms) (points : List PointSpec)
    (start : W) where
  -- The robot or the camera was found not ready: the fault says which, the report has no goal and
  -- no point, and nothing was done but looking.
  abbrev pub Unready : RouteReport → W → Type 0
  Unready report w =
      (l : Looked runtime start) × ((l.gate.ready && l.camera_ready) ≡ false)
      × (w ≡ l.end)
      × (report.goal_sent ≡ false)
      × (report.points ≡ [])
      × (report.status ≡ RunStatus.failed)
      × (report.exit_code ≡ 1)
      × (report.execution_fault
          ≡ some (if l.gate.ready then FaultCode.camera_unavailable else FaultCode.robot_not_ready))

  -- Both were found ready, and then the points were driven to in their order until one failed; the
  -- failed ones were written last. The run has succeeded where all points have.
  abbrev pub Driven : RouteReport → W → Type 0
  Driven report w =
      (l : Looked runtime start) × (l.gate.ready ≡ true)
      × (l.camera_ready ≡ true)
      × ((driven : W) × (run_points runtime terms points l.end ≡ (returned report.points, driven))
          × (w ≡ write_failures runtime terms report.points driven))
      × (report.goal_sent ≡ true)
      × Ran points report.points
      × (report.summary ≡ summary_of report.points (length points))
      × (report.status
          ≡ (if all_of has_succeeded report.points then RunStatus.succeeded else RunStatus.failed))
      × (report.exit_code ≡ (if all_of has_succeeded report.points then 0 else 1))

  -- The report of an executed route, and the one row that the store has gained.
  abbrev pub RouteEnds : List RunRow → Outcome RouteError RouteReport × RouteBench W → Type 0
  RouteEnds rows (raised e, b) = ⊥
  RouteEnds rows (returned report, b) =
      (b.store.runs ≡ rows ++ finished_row terms report.status report.summary ∷ [])
      × (Unready report b.world ⊎ Driven report b.world)
