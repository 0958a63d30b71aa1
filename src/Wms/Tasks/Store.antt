-- ===== src/Wms/Tasks/Store.antt =====
-- Any sequence of calls on the task store keeps the table well formed.
use amr_warehouse_navigation.Common.{
  true, false, ◌≡◌, refl, sym, subst, ◌⊎◌, inl, inr, Option, List, [], ◌∷◌, ◌++◌, String, ◌==◌,
  nat_key, string_key, ℕ, ◌+◌, ◌≤◌, contains, arith, if_cases, Bool-cases, Outcome, returned,
  raised, All,
}
use amr_warehouse_navigation.Fleet.Robots.{whole_second}
use amr_warehouse_navigation.Wms.Reasons.{WmsError, WmsReason}
use amr_warehouse_navigation.Wms.Targets.{TaskPoints, Pose, resolve_target_pose}
use amr_warehouse_navigation.Wms.Tasks.{
  TaskRow, TaskTable, task_statuses, new_row, create_resolved, create_task, has_row, restatus,
  update_rows, update_task_status,
}
use amr_warehouse_navigation.Wms.Tasks.Rows.{HasUniqueIds, updated, update_rows-HasUniqueIds}

-- A stored row: an id that was given, and a status that the table's constraint admits.
abbrev IsStored : ℕ → TaskRow → Type 0
IsStored last_id row = (row.id ≤ last_id) × (contains task_statuses row.status ≡ true)

abbrev pub IsTable : TaskTable → Type 0
IsTable t = HasUniqueIds t.rows × All (IsStored t.last_id) t.rows

-- A call that changes the store, at a time.
pub data StoreCall : Type 0 where
  create : ℕ → String → Outcome WmsError TaskPoints → Option String → StoreCall
  set_status : ℕ → ℕ → String → Option WmsReason → StoreCall

abbrev run_store_call : StoreCall → TaskTable → TaskTable
run_store_call (StoreCall.create now target points name) t =
    (create_task target points name (record t { clock = now })).1
run_store_call (StoreCall.set_status now id status reason) t =
    (update_task_status id status reason (record t { clock = now })).1

unfoldable pub run_store_calls : List StoreCall → TaskTable → TaskTable
run_store_calls [] t = t
run_store_calls (call ∷ calls) t = run_store_calls calls (run_store_call call t)

abbrev pub empty_table : TaskTable
empty_table = record { rows = []; last_id = 0; clock = 0 }

has_row-snoc :
    (id : ℕ) (row : TaskRow) (rows : List TaskRow)
    → has_row id rows ≡ false
    → (row.id == id) ≡ false
    → has_row id (rows ++ row ∷ []) ≡ false
has_row-snoc id row [] h other = ground arith
has_row-snoc id row (r ∷ rows) h other = ground (arith, has_row-snoc id row rows)

snoc_table :
    (last_id : ℕ) (row : TaskRow) (rows : List TaskRow)
    → row.id ≡ last_id + 1
    → contains task_statuses row.status ≡ true
    → HasUniqueIds rows
    → All (IsStored last_id) rows
    → HasUniqueIds (rows ++ row ∷ []) × All (IsStored (last_id + 1)) (rows ++ row ∷ [])
snoc_table last_id row [] own known u h = ((refl, tt), ((omega arith, known), tt))
snoc_table last_id row (r ∷ rows) own known u h =
    let rest = snoc_table last_id row rows own known u.1 h.1 in
    let bound = h.0.0 in
    ((has_row-snoc r.id row rows u.0 (ground arith), rest.0), ((omega arith, h.0.1), rest.1))

update_rows-All :
    (last_id id now : ℕ) (status : String) (reason : Option WmsReason) (rows : List TaskRow)
    → contains task_statuses status ≡ true
    → All (IsStored last_id) rows
    → All (IsStored last_id) (update_rows id (restatus status reason now) rows)
unfolding update_rows
update_rows-All last_id id now status reason [] known h = tt
update_rows-All last_id id now status reason (row ∷ rows) known h = (
  if_cases (IsStored last_id) (row.id == id) (restatus status reason now row) row
      (λ own. (h.0.0, known)) (λ other. h.0),
  update_rows-All last_id id now status reason rows known h.1,
)

create_resolved-IsTable :
    (resolved : Outcome WmsError (String × Pose)) (name : Option String) (t : TaskTable)
    → IsTable t
    → IsTable (create_resolved resolved name t).1
create_resolved-IsTable (raised e) name t h = h
create_resolved-IsTable (returned (target, pose)) name t h =
    snoc_table t.last_id (new_row t target pose name) t.rows refl refl h.0 h.1

-- A status update that is refused, or that changes the rows of its id.
update_task_status-cases :
    (id : ℕ) (status : String) (reason : Option WmsReason) (t : TaskTable)
    → ((update_task_status id status reason t).1 ≡ t)
      ⊎ ((contains task_statuses status ≡ true)
          × ((update_task_status id status reason t).1 ≡ updated t id status reason))
unfolding update_task_status
update_task_status-cases id status reason t = elim (Bool-cases (contains task_statuses status)) [
  | inr unknown ↦ inl (rw unknown refl)
  | inl known ↦ elim (Bool-cases (has_row id t.rows)) [
    | inr missing ↦ inl (ground (arith, known, missing))
    | inl found ↦ inr (known, ground (arith, known, found))
  ]
]

update_task_status-IsTable :
    (id : ℕ) (status : String) (reason : Option WmsReason) (t : TaskTable)
    → IsTable t
    → IsTable (update_task_status id status reason t).1
update_task_status-IsTable id status reason t h =
    elim (update_task_status-cases id status reason t) [
      | inl same ↦ subst IsTable (sym same) h
      | inr (known, e) ↦ subst IsTable (sym e) (
        update_rows-HasUniqueIds id status reason (whole_second t.clock) t.rows h.0,
        update_rows-All t.last_id id (whole_second t.clock) status reason t.rows known h.1,
      )
    ]

run_store_call-IsTable :
    (call : StoreCall) (t : TaskTable) → IsTable t → IsTable (run_store_call call t)
unfolding create_task
run_store_call-IsTable (StoreCall.create now target points name) t h =
    create_resolved-IsTable (resolve_target_pose target points) name (record t { clock = now }) h
run_store_call-IsTable (StoreCall.set_status now id status reason) t h =
    update_task_status-IsTable id status reason (record t { clock = now }) h

keeps_IsTable :
    (calls : List StoreCall) (t : TaskTable) → IsTable t → IsTable (run_store_calls calls t)
unfolding run_store_calls
keeps_IsTable [] t h = h
keeps_IsTable (call ∷ calls) t h =
    keeps_IsTable calls (run_store_call call t) (run_store_call-IsTable call t h)

-- Whatever tasks are created and whatever statuses are set on a new table, at any times and with
-- any arguments, refused calls included: no two of its rows share an id, no id is above the last one
-- given, and every status is a known one.
pub run_store_calls-IsTable : (calls : List StoreCall) → IsTable (run_store_calls calls empty_table)
run_store_calls-IsTable calls = keeps_IsTable calls empty_table (tt, tt)
