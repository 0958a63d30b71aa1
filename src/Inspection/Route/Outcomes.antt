-- ===== src/Inspection/Route/Outcomes.antt =====
-- How the run of a whole route ends, in the report and in the store.
use amr_warehouse_navigation.Common.{Option, none, some, List, string_key, Outcome}
use amr_warehouse_navigation.Inspection.Route.{
  RouteError, PointSpec, RunStatus, RunRow, InspectionStore,
}
use amr_warehouse_navigation.Inspection.Route.Points.{RouteRuntime, RouteTerms}
use amr_warehouse_navigation.Inspection.Route.Runs.{RouteReport}
use amr_warehouse_navigation.Inspection.Route.Readiness.{RouteEnds}

-- The row of a run that has begun.
abbrev running_row : RouteTerms → RunRow
running_row terms = record {
  run_id = terms.run_id;
  robot_id = terms.robot_id;
  status = RunStatus.running;
  summary = none;
}

module _ {W : Type 0} (runtime : RouteRuntime W) (terms : RouteTerms) (points : List PointSpec)
    (rows : List RunRow) (start : W) where
  -- The end of an executed route, with the store that is handed back.
  abbrev pub ExecutedRoute : Outcome RouteError RouteReport × (Option InspectionStore × W) → Type 0
  ExecutedRoute (r, (none, w)) = ⊥
  ExecutedRoute (r, (some s, w)) =
      RouteEnds runtime terms points start rows (r, record { store = s; world = w })
