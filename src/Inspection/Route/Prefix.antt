-- ===== src/Inspection/Route/Prefix.antt =====
-- The results of a route's points: a prefix of them, up to the first that failed.
use amr_warehouse_navigation.Common.{
  Bool, true, false, ◌&&◌, ◌≡◌, refl, ap, ◌∙◌, List, [], ◌∷◌, string_key, suc, if◌then◌else◌,
  nat_eq, arith, if_cases, length, Outcome, returned, raised, Method, ◌>>=◌, >>=-returned, pure,
}
use amr_warehouse_navigation.Inspection.Route.{
  RouteError, PointSpec, PointResult, has_succeeded, all_of,
}
use amr_warehouse_navigation.Inspection.Route.Points.{RouteRuntime, RouteTerms, run_point}
use amr_warehouse_navigation.Inspection.Route.Ends.{IsResult, PointRan, run_point-PointRan}
use amr_warehouse_navigation.Inspection.Route.Runs.{run_succeeded, run_points}

-- Results for the points in their order, up to the first one that failed or to the last one.
abbrev pub Ran : List PointSpec → List PointResult → Type 0
Ran [] [] = Unit
Ran [] (r ∷ rs) = ⊥
Ran (p ∷ ps) [] = ⊥
Ran (p ∷ ps) (r ∷ rs) = IsResult p r × (if has_succeeded r then Ran ps rs else rs ≡ [])

abbrev pub PointsRan :
    List PointSpec → {W : Type 0} → Outcome RouteError (List PointResult) × W → Type 0
PointsRan points (raised e, w) = ⊥
PointsRan points (returned rs, w) = Ran points rs

succeeded_step :
    (b : Bool) (ps : List PointSpec) (rs : List PointResult)
    → (if b then Ran ps rs else rs ≡ [])
    → (Ran ps rs → run_succeeded ps rs ≡ all_of has_succeeded rs)
    → (nat_eq (suc (length rs)) (suc (length ps)) && (b && all_of has_succeeded rs))
      ≡ (b && all_of has_succeeded rs)
succeeded_step true ps rs h rest =
    let same : nat_eq (suc (length rs)) (suc (length ps)) ≡ nat_eq (length rs) (length ps) =
      ground arith in
    ap (λ b. b && all_of has_succeeded rs) same ∙ rest h
succeeded_step false ps rs h rest = ground arith

pub run_succeeded-Ran :
    (points : List PointSpec) (rs : List PointResult)
    → Ran points rs
    → run_succeeded points rs ≡ all_of has_succeeded rs
run_succeeded-Ran [] [] h = refl
run_succeeded-Ran [] (r ∷ rs) h = absurd h
run_succeeded-Ran (p ∷ ps) [] h = absurd h
run_succeeded-Ran (p ∷ ps) (r ∷ rs) h =
    succeeded_step (has_succeeded r) ps rs h.1 (run_succeeded-Ran ps rs)

module _ {W : Type 0} where
  more_ran :
      (point : PointSpec) (points : List PointSpec) (r : PointResult)
      (rest : Method RouteError W (List PointResult)) (w : W)
      (p : Outcome RouteError (List PointResult) × W)
      → rest w ≡ p
      → has_succeeded r ≡ true
      → IsResult point r
      → PointsRan points p
      → PointsRan (point ∷ points) ((rest >>= λ rs. pure (r ∷ rs)) w)
  more_ran point points r rest w (raised e, w') run good h ran = absurd ran
  more_ran point points r rest w (returned rs, w') run good h ran =
      rw (>>=-returned rest (λ rs. pure (r ∷ rs)) w run) (h, rw good ran)

  after_point :
      (point : PointSpec) (points : List PointSpec) (rest : Method RouteError W (List PointResult))
      (p : Outcome RouteError PointResult × W)
      → ((w : W) → PointsRan points (rest w))
      → PointRan point p
      → PointsRan (point ∷ points) (
          ((λ _. p) >>= λ r.
          if has_succeeded r then (rest >>= λ rs. pure (r ∷ rs)) else pure (r ∷ []))
            p.1)
  after_point point points rest (raised e, w) more h = absurd h
  after_point point points rest (returned r, w) more h =
      if_cases (λ (m : Method RouteError W (List PointResult)). PointsRan (point ∷ points) (m w))
        (has_succeeded r) _ _ (λ good. more_ran point points r rest w (rest w) refl good h (more w))
        (λ bad. (h, rw bad refl))

module _ {W : Type 0} (runtime : RouteRuntime W) (terms : RouteTerms) where
  pub run_points-Ran :
      (points : List PointSpec) (w : W) → PointsRan points (run_points runtime terms points w)
  unfolding run_points
  run_points-Ran [] w = tt
  run_points-Ran (point ∷ points) w =
      after_point point points (run_points runtime terms points) (run_point runtime terms point w)
        (run_points-Ran points) (run_point-PointRan runtime terms point w)
