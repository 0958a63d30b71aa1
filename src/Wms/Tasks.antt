-- ===== src/Wms/Tasks.antt =====
-- amr_warehouse_sim/mock_wms_db_common.py, the `tasks` table. A stored time is the whole second
-- that it denotes, and `clock` is what the system clock reads during a call.
pub mod Rows
pub mod Pending
pub mod Store
use amr_warehouse_navigation.Common.{
  Bool, true, false, not, Option, none, some, List, [], ◌∷◌, ◌++◌, String, ◌==◌, string_key,
  nat_key, ℕ, ◌+◌, contains, if◌then◌else◌, leb, ltb, ⊤, Outcome, returned, raised, Method, pure,
  raise, reads, update, ◌>>=◌, ◌>>◌, raise_if,
}
use amr_warehouse_navigation.Common.Int.{ℤ}
use amr_warehouse_navigation.Common.Order.{sort}
use amr_warehouse_navigation.Fleet.Robots.{whole_second}
use amr_warehouse_navigation.Wms.Reasons.{WmsError, missing_key, bad_value, missing_file, WmsReason}
use amr_warehouse_navigation.Wms.Targets.{Pose, TaskPoints, resolve_target_pose}

-- `TASK_STATUSES`
abbrev pub task_statuses : List String
task_statuses = "pending" ∷ "running" ∷ "succeeded" ∷ "failed" ∷ "canceled" ∷ []

-- A name that is given, or 'mock-task-…' with the target and the second.
pub data TaskName : Type 0 where
  given : String → TaskName
  built : String → ℕ → TaskName

pub record TaskRow : Type 0 where
  pub id : ℕ
  pub task_name : TaskName
  pub target_name : String
  pub pose : Pose
  pub status : String
  pub status_reason : Option WmsReason
  pub created_at : ℕ
  pub updated_at : ℕ

-- `INTEGER PRIMARY KEY AUTOINCREMENT` gives an id above every id given before.
pub record TaskTable : Type 0 where
  pub rows : List TaskRow
  pub last_id : ℕ
  pub clock : ℕ

abbrev Store : Type 0 → Type 0
Store A = Method WmsError TaskTable A

unfoldable pub fetch_task_row : ℕ → List TaskRow → Outcome WmsError TaskRow
fetch_task_row id [] = raised missing_key
fetch_task_row id (row ∷ rows) = if row.id == id then returned row else fetch_task_row id rows

-- `task_name or build_task_name(target_name)`: an empty name counts as none.
abbrev final_task_name : Option String → String → ℕ → TaskName
final_task_name none target now = TaskName.built target now
final_task_name (some name) target now =
    if name == "" then TaskName.built target now else TaskName.given name

abbrev pub new_row : TaskTable → String → Pose → Option String → TaskRow
new_row t target pose name = record {
  id = t.last_id + 1;
  task_name = final_task_name name target (whole_second t.clock);
  target_name = target;
  pose = pose;
  status = "pending";
  status_reason = none;
  created_at = whole_second t.clock;
  updated_at = whole_second t.clock;
}

abbrev insert_task : String → Pose → Option String → Store TaskRow
insert_task target pose name t =
    let rows = t.rows ++ new_row t target pose name ∷ [] in
    (fetch_task_row (t.last_id + 1) rows, record t { rows = rows; last_id = t.last_id + 1 })

abbrev pub create_resolved : Outcome WmsError (String × Pose) → Option String → Store TaskRow
create_resolved (raised e) name t = (raised e, t)
create_resolved (returned resolved) name t = insert_task (resolved.0) (resolved.1) name t

unfoldable pub create_task : String → Outcome WmsError TaskPoints → Option String → Store TaskRow
create_task target points name = create_resolved (resolve_target_pose target points) name

abbrev pub is_pending : TaskRow → Bool
is_pending row = row.status == "pending"

abbrev pub pending_rows : List TaskRow → List TaskRow
pending_rows [] = []
pending_rows (row ∷ rows) = if is_pending row then row ∷ pending_rows rows else pending_rows rows

-- `ORDER BY created_at ASC, id ASC`
abbrev pub row_leb : TaskRow → TaskRow → Bool
row_leb a b =
    if ltb a.created_at b.created_at
    then true
    else if ltb b.created_at a.created_at
    then false
    else leb a.id b.id

abbrev pub first_row : List TaskRow → Option TaskRow
first_row [] = none
first_row (row ∷ _) = some row

unfoldable pub get_next_pending_task : TaskTable → Option TaskRow
get_next_pending_task t = first_row (sort row_leb (pending_rows t.rows))

abbrev pub restatus : String → Option WmsReason → ℕ → TaskRow → TaskRow
restatus status reason now row = record row {
  status = status;
  status_reason = reason;
  updated_at = now;
}

-- The `UPDATE … WHERE id = ?`.
unfoldable pub update_rows : ℕ → (TaskRow → TaskRow) → List TaskRow → List TaskRow
update_rows id f [] = []
update_rows id f (row ∷ rows) = (if row.id == id then f row else row) ∷ update_rows id f rows

abbrev pub has_row : ℕ → List TaskRow → Bool
has_row id [] = false
has_row id (row ∷ rows) = if row.id == id then true else has_row id rows

unfoldable pub update_task_status : ℕ → String → Option WmsReason → Store TaskRow
update_task_status id status reason = do
  raise_if (not (contains task_statuses status)) bad_value
  found ← reads (λ t. has_row id t.rows)
  raise_if (not found) missing_key
  update (λ t. record t {
    rows = update_rows id (restatus status reason (whole_second t.clock)) t.rows;
  })
  rows ← reads (λ t. t.rows)
  λ t. (fetch_task_row id rows, t)

-- `list_tasks`, where the file may be missing; rows are appended with growing ids.
unfoldable list_tasks : Option TaskTable → Outcome WmsError (List TaskRow)
list_tasks none = raised missing_file
list_tasks (some t) = returned t.rows
