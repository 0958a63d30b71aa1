-- ===== src/Fleet/Assignment.antt =====
-- amr_warehouse_sim/fleet/assignment.py: assignment records and the `assignments` table.
-- Costs are signed thousandths.
pub mod Table
use amr_warehouse_navigation.Common.{
  Bool, true, false, Option, none, some, List, [], ◌∷◌, ◌++◌, String, ◌==◌, string_key, nat_key, ℕ,
  ◌+◌, ◌≡◌, refl, if◌then◌else◌, Outcome, returned, raised,
}
use amr_warehouse_navigation.Common.Int.{ℤ}
use amr_warehouse_navigation.Common.Dict.{Dict, insert}
use amr_warehouse_navigation.Fleet.Errors.{Error, key_error, value_error}
use amr_warehouse_navigation.Fleet.Events.{Reason}

pub data AssignmentStatus : Type 0 where
  assigned executing released canceled completed failed : AssignmentStatus

unfoldable pub value : AssignmentStatus → String
value AssignmentStatus.assigned = "assigned"
value AssignmentStatus.executing = "executing"
value AssignmentStatus.released = "released"
value AssignmentStatus.canceled = "canceled"
value AssignmentStatus.completed = "completed"
value AssignmentStatus.failed = "failed"

unfoldable pub of_value : String → Option AssignmentStatus
of_value s =
    if s == "assigned"
    then some AssignmentStatus.assigned
    else if s == "executing"
    then some AssignmentStatus.executing
    else if s == "released"
    then some AssignmentStatus.released
    else if s == "canceled"
    then some AssignmentStatus.canceled
    else if s == "completed"
    then some AssignmentStatus.completed
    else if s == "failed"
    then some AssignmentStatus.failed
    else none

-- `ACTIVE_ASSIGNMENT_STATUSES`
abbrev pub is_active_status : AssignmentStatus → Bool
is_active_status AssignmentStatus.assigned = true
is_active_status AssignmentStatus.executing = true
is_active_status _ = false

pub record AssignmentRecord : Type 0 where
  pub id : ℕ
  pub task_id : ℕ
  pub robot_id : String
  pub pickup_station : String
  pub cost : ℤ
  pub dispatch_reason : Reason
  pub status : AssignmentStatus
  pub assigned_at : ℕ
  pub updated_at : ℕ

abbrev pub is_active : AssignmentRecord → Bool
is_active assignment = is_active_status assignment.status

-- A row of the `assignments` table; `status` is text there.
pub record AssignmentRow : Type 0 where
  pub id : ℕ
  pub task_id : ℕ
  pub robot_id : String
  pub pickup_station : String
  pub cost : ℤ
  pub dispatch_reason : Reason
  pub status : String
  pub assigned_at : ℕ
  pub updated_at : ℕ

-- `INTEGER PRIMARY KEY AUTOINCREMENT` gives an id above every id given before.
pub record AssignmentTable : Type 0 where
  pub rows : List AssignmentRow
  pub last_id : ℕ

assignment_with_status : AssignmentRow → Option AssignmentStatus → Outcome Error AssignmentRecord
assignment_with_status row none = raised value_error
assignment_with_status row (some status) = returned (record {
  id = row.id;
  task_id = row.task_id;
  robot_id = row.robot_id;
  pickup_station = row.pickup_station;
  cost = row.cost;
  dispatch_reason = row.dispatch_reason;
  status = status;
  assigned_at = row.assigned_at;
  updated_at = row.updated_at;
})

unfoldable pub row_to_assignment : AssignmentRow → Outcome Error AssignmentRecord
unfolding assignment_with_status
row_to_assignment row = assignment_with_status row (of_value row.status)

row_with_id : ℕ → AssignmentRecord → AssignmentRow
row_with_id id assignment = record {
  id = id;
  task_id = assignment.task_id;
  robot_id = assignment.robot_id;
  pickup_station = assignment.pickup_station;
  cost = assignment.cost;
  dispatch_reason = assignment.dispatch_reason;
  status = value assignment.status;
  assigned_at = assignment.assigned_at;
  updated_at = assignment.updated_at;
}

-- The `UPDATE` sets every column but `id` and `task_id`.
abbrev updated_row : AssignmentRecord → AssignmentRow → AssignmentRow
updated_row assignment row = record row {
  robot_id = assignment.robot_id;
  pickup_station = assignment.pickup_station;
  cost = assignment.cost;
  dispatch_reason = assignment.dispatch_reason;
  status = value assignment.status;
  assigned_at = assignment.assigned_at;
  updated_at = assignment.updated_at;
}

unfoldable pub update_rows : AssignmentRecord → List AssignmentRow → List AssignmentRow
update_rows assignment [] = []
update_rows assignment (row ∷ rows) =
    (if row.id == assignment.id then updated_row assignment row else row)
    ∷ update_rows assignment rows

unfoldable pub fetch_assignment_by_id : ℕ → List AssignmentRow → Outcome Error AssignmentRecord
fetch_assignment_by_id id [] = raised key_error
fetch_assignment_by_id id (row ∷ rows) =
    if row.id == id then row_to_assignment row else fetch_assignment_by_id id rows

-- The table is written also where the fetch at the end raises.
unfoldable pub persist_assignment :
    AssignmentRecord → AssignmentTable → Outcome Error AssignmentRecord × AssignmentTable
unfolding row_with_id
persist_assignment assignment table =
    if assignment.id == 0
    then (let id = table.last_id + 1 in
        let rows = table.rows ++ row_with_id id assignment ∷ [] in
        (fetch_assignment_by_id id rows, record { rows = rows; last_id = id }))
    else (let rows = update_rows assignment table.rows in
        (fetch_assignment_by_id assignment.id rows, record table { rows = rows }))

assignments_of_rows :
    List AssignmentRow → Dict ℕ AssignmentRecord → Outcome Error (Dict ℕ AssignmentRecord)
assignments_of_rows [] assignments = returned assignments
assignments_of_rows (row ∷ rows) assignments = elim (row_to_assignment row) [
  | returned assignment ↦ assignments_of_rows rows (insert row.task_id assignment assignments)
  | raised e ↦ raised e
]

-- `ORDER BY id ASC`: rows are appended with growing ids and never deleted, so they stand in order.
unfoldable pub load_assignments_from_db : AssignmentTable → Outcome Error (Dict ℕ AssignmentRecord)
unfolding assignments_of_rows
load_assignments_from_db table = assignments_of_rows table.rows []

-- A status is found again by its own text.
pub of_value-value : (s : AssignmentStatus) → of_value (value s) ≡ some s
unfolding of_value value
of_value-value AssignmentStatus.assigned = refl
of_value-value AssignmentStatus.executing = refl
of_value-value AssignmentStatus.released = refl
of_value-value AssignmentStatus.canceled = refl
of_value-value AssignmentStatus.completed = refl
of_value-value AssignmentStatus.failed = refl
