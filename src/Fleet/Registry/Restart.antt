-- ===== src/Fleet/Registry/Restart.antt =====
-- A restart of the registry from its table: `load_robots_from_db` after any write-through.
use amr_warehouse_navigation.Common.{
  Bool, false, ◌||◌, ◌≡◌, refl, sym, ap, ◌∙◌, Option, none, some, List, [], ◌∷◌, String, ◌==◌,
  string_key, returned, arith, if◌then◌else◌, All, same_refl, is_some,
}
use text.Mathlib.TextEquality.{eq_iff}
use amr_warehouse_navigation.Common.Dict.{Dict, values, lookup, insert, lookup-insert}
use amr_warehouse_navigation.Common.Order.{sort, place, sort-All}
use amr_warehouse_navigation.Fleet.Robots.{
  RobotRecord, RobotRow, RobotTable, robot_to_row, row_to_robot, row_to_robot-robot_to_row, row_leb,
  robots_of_rows, load_robots_from_db, persist_robot_to_db,
}
use amr_warehouse_navigation.Fleet.Registry.Persistence.{Mirrors, row_of}

-- What `robot_id TEXT PRIMARY KEY` promises: each row stands once, under its own id.
abbrev pub IsKeyed : RobotTable → Type 0
IsKeyed [] = Unit
IsKeyed ((k, row) ∷ table) = (row.robot_id ≡ k) × (lookup k table ≡ none) × IsKeyed table

insert-IsKeyed :
    (i : String) (row : RobotRow) (table : RobotTable)
    → row.robot_id ≡ i
    → IsKeyed table
    → IsKeyed (insert i row table)
unfolding insert lookup
insert-IsKeyed i row [] own h = (own, refl, tt)
insert-IsKeyed i row ((k, old) ∷ table) own h =
    ground (
      arith,
      eq_iff k i,
      eq_iff i k,
      lookup-insert i k row table,
      insert-IsKeyed i row table own h.2,
    )

-- Writing a robot keeps the table keyed.
persist_robot_to_db-IsKeyed :
    (robot : RobotRecord) (table : RobotTable)
    → IsKeyed table
    → IsKeyed (persist_robot_to_db robot table)
unfolding persist_robot_to_db robot_to_row
persist_robot_to_db-IsKeyed robot table h =
    insert-IsKeyed robot.robot_id (robot_to_row robot) table refl h

abbrev has_id : String → List RobotRow → Bool
has_id i [] = false
has_id i (row ∷ rows) = (row.robot_id == i) || has_id i rows

has_id-place :
    (i : String) (row : RobotRow) (rows : List RobotRow)
    → has_id i (place row_leb row rows) ≡ (row.robot_id == i) || has_id i rows
unfolding place
has_id-place i row [] = refl
has_id-place i row (x ∷ rows) = ground (arith, has_id-place i row rows)

has_id-sort : (i : String) (rows : List RobotRow) → has_id i (sort row_leb rows) ≡ has_id i rows
unfolding sort
has_id-sort i [] = refl
has_id-sort i (row ∷ rows) =
    has_id-place i row (sort row_leb rows) ∙ ap (λ b. (row.robot_id == i) || b) (has_id-sort i rows)

has_id-values :
    (i : String) (table : RobotTable)
    → IsKeyed table
    → has_id i (values table) ≡ is_some (lookup i table)
unfolding lookup
has_id-values i [] h = refl
has_id-values i ((k, row) ∷ table) h = rw h.0 (ground (arith, has_id-values i table h.2))

module _ (robots : Dict String RobotRecord) where
  abbrev IsImage : RobotRow → Type 0
  IsImage row =
      (robot : RobotRecord) × (lookup row.robot_id robots ≡ some robot) × (row ≡ robot_to_row robot)

  -- Loading rows of known robots rebuilds exactly those robots over what was there.
  robots_of_rows_image :
      (rows : List RobotRow) (acc : Dict String RobotRecord)
      → All IsImage rows
      → (loaded : Dict String RobotRecord) × (robots_of_rows rows acc ≡ returned loaded)
        × ((i : String)
            → lookup i loaded ≡ (if has_id i rows then lookup i robots else lookup i acc))
  unfolding robots_of_rows
  robots_of_rows_image [] acc h = (acc, refl, λ i. refl)
  robots_of_rows_image (row ∷ rows) acc ((robot, known, e), h) =
      let (loaded, run, agrees) = robots_of_rows_image rows (insert row.robot_id robot acc) h in
      (
        loaded,
        rw (ap row_to_robot e ∙ row_to_robot-robot_to_row robot, robots_of_rows) run,
        λ i.
            ground (
              arith,
              agrees i,
              lookup-insert row.robot_id i robot acc,
              eq_iff row.robot_id i,
              known,
            ),
      )

  values-IsImage :
      (table : RobotTable)
      → IsKeyed table
      → ((i : String) (row : RobotRow)
          → lookup i table ≡ some row
          → row_of (lookup i robots) ≡ some row)
      → All IsImage (values table)
  unfolding lookup
  values-IsImage [] h m = tt
  values-IsImage ((k, row) ∷ table) h m = (
    image (lookup k robots) refl (m k row (rw (same_refl k))),
    values-IsImage table h.2 λ i r e. m i r (ground (arith, eq_iff k i, h.1)),
  )
    where
      image :
          (o : Option RobotRecord)
          → lookup k robots ≡ o
          → row_of (lookup k robots) ≡ some row
          → IsImage row
      image none found e = absurd (ground arith)
      image (some robot) found e = (robot, rw h.0 found, ground arith)

-- What is not in the table is not in the registry either.
has_id-mirror :
    (robots : Dict String RobotRecord) (table : RobotTable) (i : String)
    → IsKeyed table
    → Mirrors robots (some table)
    → has_id i (sort row_leb (values table)) ≡ is_some (lookup i robots)
has_id-mirror robots table i keyed m =
    has_id-sort i (values table)
    ∙ has_id-values i table keyed
    ∙ (ap is_some (m i) ∙ same_presence (lookup i robots))
  where
    same_presence : (o : Option RobotRecord) → is_some (row_of o) ≡ is_some o
    same_presence none = refl
    same_presence (some _) = refl

-- From a keyed table that mirrors the registry, a restart loads the same robots and raises nothing.
pub load_robots_from_db_restores :
    (robots : Dict String RobotRecord) (table : RobotTable)
    → IsKeyed table
    → Mirrors robots (some table)
    → (loaded : Dict String RobotRecord) × (load_robots_from_db table ≡ returned loaded)
      × ((i : String) → lookup i loaded ≡ lookup i robots)
unfolding load_robots_from_db lookup
load_robots_from_db_restores robots table keyed m =
    let rows = values table in
    let images =
      sort-All row_leb (IsImage robots) rows
        (values-IsImage robots table keyed (λ i row e. sym (m i) ∙ e)) in
    let (loaded, run, agrees) = robots_of_rows_image robots (sort row_leb rows) [] images in
    (loaded, run, λ i. ground (arith, agrees i, has_id-mirror robots table i keyed m))
