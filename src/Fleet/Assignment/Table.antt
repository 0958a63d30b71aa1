-- ===== src/Fleet/Assignment/Table.antt =====
-- The `assignments` table: what `persist_assignment` writes comes back.
use amr_warehouse_navigation.Common.{
  ◌≡◌, refl, ◌∙◌, Option, none, some, List, [], ◌∷◌, ◌++◌, ℕ, ◌+◌, ◌≤◌, ◌<◌, ◌==◌, nat_key,
  returned, arith, if◌then◌else◌, All, ◌≢◌,
}
use amr_warehouse_navigation.Fleet.Assignment.{
  AssignmentRecord, AssignmentRow, AssignmentTable, row_with_id, row_to_assignment, update_rows,
  fetch_assignment_by_id, persist_assignment, of_value-value, updated_row, assignment_with_status,
}

-- Ids start at 1, and none is above the last one given.
abbrev pub HasIds : ℕ → List AssignmentRow → Type 0
HasIds last = All (λ row. (0 < row.id) × (row.id ≤ last))

abbrev pub IsTable : AssignmentTable → Type 0
IsTable table = HasIds table.last_id table.rows

row_to_assignment-row_with_id :
    (id : ℕ) (a : AssignmentRecord)
    → row_to_assignment (row_with_id id a) ≡ returned (record a { id = id })
unfolding row_to_assignment row_with_id
row_to_assignment-row_with_id id a = rw (of_value-value a.status, assignment_with_status)

fetch_appended :
    (id : ℕ) (a : AssignmentRecord) (rows : List AssignmentRow)
    → All (λ row. row.id < id) rows
    → fetch_assignment_by_id id (rows ++ row_with_id id a ∷ []) ≡ returned (record a { id = id })
unfolding fetch_assignment_by_id row_with_id
fetch_appended id a [] h = ground (arith, row_to_assignment-row_with_id id a)
fetch_appended id a (row ∷ rows) h = ground (arith, fetch_appended id a rows h.1)

HasIds-step : (last : ℕ) (rows : List AssignmentRow) → HasIds last rows → HasIds (last + 1) rows
HasIds-step last [] h = tt
HasIds-step last (row ∷ rows) h = (omega arith, HasIds-step last rows h.1)

HasIds-below :
    (last : ℕ) (rows : List AssignmentRow) → HasIds last rows → All (λ row. row.id < last + 1) rows
HasIds-below last [] h = tt
HasIds-below last (row ∷ rows) h = (omega arith, HasIds-below last rows h.1)

HasIds-append :
    (last : ℕ) (rows more : List AssignmentRow)
    → HasIds last rows
    → HasIds last more
    → HasIds last (rows ++ more)
HasIds-append last [] more h k = k
HasIds-append last (row ∷ rows) more h k = (h.0, HasIds-append last rows more h.1 k)

-- The task of the row with an id.
abbrev pub task_of_id : ℕ → List AssignmentRow → Option ℕ
task_of_id id [] = none
task_of_id id (row ∷ rows) = if row.id == id then some row.task_id else task_of_id id rows

task_of_id-append :
    (id task : ℕ) (rows : List AssignmentRow) (x : AssignmentRow)
    → task_of_id id rows ≡ some task
    → task_of_id id (rows ++ x ∷ []) ≡ some task
task_of_id-append id task [] x e = cc
task_of_id-append id task (r ∷ rows) x e = ground (arith, task_of_id-append id task rows x)

task_of_id-appended :
    (rows : List AssignmentRow) (x : AssignmentRow)
    → All (λ row. row.id < x.id) rows
    → task_of_id x.id (rows ++ x ∷ []) ≡ some x.task_id
task_of_id-appended [] x h = ground arith
task_of_id-appended (r ∷ rows) x h = ground (arith, task_of_id-appended rows x h.1)

task_of_id-update :
    (id : ℕ) (a : AssignmentRecord) (rows : List AssignmentRow)
    → task_of_id id (update_rows a rows) ≡ task_of_id id rows
unfolding update_rows
task_of_id-update id a [] = refl
task_of_id-update id a (r ∷ rows) = ground (arith, task_of_id-update id a rows)

row_to_assignment-updated_row :
    (a : AssignmentRecord) (row : AssignmentRow)
    → row.id ≡ a.id
    → row.task_id ≡ a.task_id
    → row_to_assignment (updated_row a row) ≡ returned a
unfolding row_to_assignment
row_to_assignment-updated_row a row e f =
    rw (of_value-value a.status, assignment_with_status) (ground arith)

fetch_updated :
    (a : AssignmentRecord) (rows : List AssignmentRow)
    → task_of_id a.id rows ≡ some a.task_id
    → fetch_assignment_by_id a.id (update_rows a rows) ≡ returned a
unfolding fetch_assignment_by_id update_rows
fetch_updated a [] e = cc
fetch_updated a (r ∷ rows) e =
    ground (arith, row_to_assignment-updated_row a r, fetch_updated a rows)

HasIds-update :
    (last : ℕ) (a : AssignmentRecord) (rows : List AssignmentRow)
    → HasIds last rows
    → HasIds last (update_rows a rows)
unfolding update_rows
HasIds-update last a [] h = tt
HasIds-update last a (r ∷ rows) h = ground (arith, HasIds-update last a rows h.1)

-- The row with an id.
abbrev pub row_of_id : ℕ → List AssignmentRow → Option AssignmentRow
row_of_id id [] = none
row_of_id id (row ∷ rows) = if row.id == id then some row else row_of_id id rows

row_of_id-append :
    (id : ℕ) (rows : List AssignmentRow) (x : AssignmentRow)
    → id ≢ x.id
    → row_of_id id (rows ++ x ∷ []) ≡ row_of_id id rows
row_of_id-append id [] x other = ground arith
row_of_id-append id (r ∷ rows) x other = ground (arith, row_of_id-append id rows x other)

row_of_id-update :
    (id : ℕ) (a : AssignmentRecord) (rows : List AssignmentRow)
    → id ≢ a.id
    → row_of_id id (update_rows a rows) ≡ row_of_id id rows
unfolding update_rows
row_of_id-update id a [] other = refl
row_of_id-update id a (r ∷ rows) other = ground (arith, row_of_id-update id a rows other)

-- The rows of a table keep their tasks, and the row of `a` has its task; `a` can be read from its
-- row, and the row of every other id is what it was.
pub record Extends (before after : AssignmentTable) (a : AssignmentRecord) : Type 0 where
  pub is_table : IsTable after
  pub positive : a.id ≢ 0
  pub has_row : task_of_id a.id after.rows ≡ some a.task_id
  pub keeps :
      (id task : ℕ) → task_of_id id before.rows ≡ some task → task_of_id id after.rows ≡ some task
  pub stored : fetch_assignment_by_id a.id after.rows ≡ returned a
  pub others : (id : ℕ) → id ≢ a.id → row_of_id id after.rows ≡ row_of_id id before.rows

-- A new assignment (id 0) comes back from a well-formed table unchanged but for a fresh id, and the
-- table stays well-formed and keeps the rows of all other ids as they were.
pub persist_assignment_new :
    (a : AssignmentRecord) (table : AssignmentTable)
    → IsTable table
    → a.id ≡ 0
    → (table' : AssignmentTable) × (persist_assignment a table
        ≡ (returned (record a { id = table.last_id + 1 }), table'))
      × Extends table table' (record a { id = table.last_id + 1 })
unfolding persist_assignment row_with_id
persist_assignment_new a table h new = (
  record {
    rows = table.rows ++ row_with_id (table.last_id + 1) a ∷ [];
    last_id = table.last_id + 1;
  },
  ground (
    arith,
    fetch_appended (table.last_id + 1) a table.rows (HasIds-below table.last_id table.rows h),
  ),
  record {
    is_table =
        HasIds-append (table.last_id + 1) table.rows _ (HasIds-step table.last_id table.rows h)
          (omega arith);
    positive = omega arith;
    has_row =
        task_of_id-appended table.rows (row_with_id (table.last_id + 1) a)
          (HasIds-below table.last_id table.rows h);
    keeps = λ id task e. task_of_id-append id task table.rows _ e;
    stored =
        fetch_appended (table.last_id + 1) a table.rows (HasIds-below table.last_id table.rows h);
    others = λ id other. row_of_id-append id table.rows _ other;
  },
)

-- An assignment whose row exists in a well-formed table is stored over that row and comes back as
-- it is; the table stays well-formed and keeps the rows of all other ids as they were.
pub persist_assignment_known :
    (a : AssignmentRecord) (table : AssignmentTable)
    → IsTable table
    → a.id ≢ 0
    → task_of_id a.id table.rows ≡ some a.task_id
    → (table' : AssignmentTable) × (persist_assignment a table ≡ (returned a, table'))
      × Extends table table' a
unfolding persist_assignment
persist_assignment_known a table h old e = (
  record table { rows = update_rows a table.rows },
  ground (arith, fetch_updated a table.rows e),
  record {
    is_table = HasIds-update table.last_id a table.rows h;
    positive = old;
    has_row = task_of_id-update a.id a table.rows ∙ e;
    keeps = λ id task k. task_of_id-update id a table.rows ∙ k;
    stored = fetch_updated a table.rows e;
    others = λ id other. row_of_id-update id a table.rows other;
  },
)
