-- ===== src/Wms/Tasks/Rows.antt =====
-- The rows of the `tasks` table by their ids, and what an update of one of them does.
use amr_warehouse_navigation.Common.{
  true, false, ◌≡◌, refl, ap, inl, inr, Option, List, [], ◌∷◌, String, nat_key, string_key, ℕ,
  contains, returned, arith, In,
}
use amr_warehouse_navigation.Fleet.Robots.{whole_second}
use amr_warehouse_navigation.Wms.Reasons.{WmsReason}
use amr_warehouse_navigation.Wms.Tasks.{
  TaskRow, TaskTable, task_statuses, fetch_task_row, has_row, restatus, update_rows,
  update_task_status,
}

-- No two rows share an id.
abbrev pub HasUniqueIds : List TaskRow → Type 0
HasUniqueIds [] = Unit
HasUniqueIds (row ∷ rows) = (has_row row.id rows ≡ false) × HasUniqueIds rows

pub has_row-In : (row : TaskRow) (rows : List TaskRow) → In row rows → has_row row.id rows ≡ true
has_row-In row [] m = absurd m
has_row-In row (r ∷ rows) (inl e) = ground (arith, ap (λ x. x.id) e)
has_row-In row (r ∷ rows) (inr m) = ground (arith, has_row-In row rows m)

pub fetch_task_row-In :
    (row : TaskRow) (rows : List TaskRow)
    → HasUniqueIds rows
    → In row rows
    → fetch_task_row row.id rows ≡ returned row
unfolding fetch_task_row
fetch_task_row-In row [] u m = absurd m
fetch_task_row-In row (r ∷ rows) u (inl e) = rw e (ground arith)
fetch_task_row-In row (r ∷ rows) u (inr m) =
    ground (arith, has_row-In row rows m, fetch_task_row-In row rows u.1 m)

has_row-fetch :
    (id : ℕ) (row : TaskRow) (rows : List TaskRow)
    → fetch_task_row id rows ≡ returned row
    → has_row id rows ≡ true
unfolding fetch_task_row
has_row-fetch id row [] e = cc
has_row-fetch id row (r ∷ rows) e = ground (arith, has_row-fetch id row rows)

pub fetch-update_rows :
    (id : ℕ) (f : TaskRow → TaskRow) (row : TaskRow) (rows : List TaskRow)
    → ((r : TaskRow) → (f r).id ≡ r.id)
    → fetch_task_row id rows ≡ returned row
    → fetch_task_row id (update_rows id f rows) ≡ returned (f row)
unfolding fetch_task_row update_rows
fetch-update_rows id f row [] same e = cc
fetch-update_rows id f row (r ∷ rows) same e =
    ground (arith, same r, fetch-update_rows id f row rows same)

-- The table after an update.
abbrev pub updated : TaskTable → ℕ → String → Option WmsReason → TaskTable
updated t id status reason = record t {
  rows = update_rows id (restatus status reason (whole_second t.clock)) t.rows;
}

-- A status that is known, and an id that is stored: the row is returned as it now stands.
pub update_task_status_runs :
    (t : TaskTable) (id : ℕ) (status : String) (reason : Option WmsReason) (row : TaskRow)
    → contains task_statuses status ≡ true
    → fetch_task_row id t.rows ≡ returned row
    → update_task_status id status reason t
      ≡ (returned (restatus status reason (whole_second t.clock) row), updated t id status reason)
unfolding update_task_status
update_task_status_runs t id status reason row known found = ground (
  arith,
  known,
  has_row-fetch id row t.rows found,
  fetch-update_rows id (restatus status reason (whole_second t.clock)) row t.rows (λ r. refl) found,
)

-- Of two updates of a row the last one counts.
pub update_rows_twice :
    (id : ℕ) (status status' : String) (reason reason' : Option WmsReason) (now now' : ℕ)
    (rows : List TaskRow)
    → update_rows id
        (restatus status' reason' now')
        (update_rows id (restatus status reason now) rows)
      ≡ update_rows id (restatus status' reason' now') rows
unfolding update_rows
update_rows_twice id status status' reason reason' now now' [] = refl
update_rows_twice id status status' reason reason' now now' (row ∷ rows) =
    ground (arith, update_rows_twice id status status' reason reason' now now' rows)

has_row-update_rows :
    (id j : ℕ) (status : String) (reason : Option WmsReason) (now : ℕ) (rows : List TaskRow)
    → has_row j (update_rows id (restatus status reason now) rows) ≡ has_row j rows
unfolding update_rows
has_row-update_rows id j status reason now [] = refl
has_row-update_rows id j status reason now (row ∷ rows) =
    ground (arith, has_row-update_rows id j status reason now rows)

pub update_rows-HasUniqueIds :
    (id : ℕ) (status : String) (reason : Option WmsReason) (now : ℕ) (rows : List TaskRow)
    → HasUniqueIds rows
    → HasUniqueIds (update_rows id (restatus status reason now) rows)
unfolding update_rows
update_rows-HasUniqueIds id status reason now [] u = tt
update_rows-HasUniqueIds id status reason now (row ∷ rows) u = ground (
  arith,
  has_row-update_rows id row.id status reason now rows,
  update_rows-HasUniqueIds id status reason now rows u.1,
)
