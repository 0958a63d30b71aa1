-- ===== src/Fleet/Dispatcher/Records.antt =====
-- Filing an assignment, in memory and in the table.
use amr_warehouse_navigation.Common.{
  ◌≡◌, refl, Option, none, some, ℕ, ◌+◌, nat_key, returned, arith, inl, inr, ◌⊎◌, ◌≢◌,
}
use amr_warehouse_navigation.Common.Dict.{Dict, lookup, insert, lookup-insert}
use amr_warehouse_navigation.Fleet.Assignment.{
  AssignmentRecord, AssignmentTable, fetch_assignment_by_id,
}
use amr_warehouse_navigation.Fleet.Assignment.Table.{
  IsTable, Extends, task_of_id, row_of_id, persist_assignment_new, persist_assignment_known,
}
use amr_warehouse_navigation.Fleet.Dispatcher.{Dispatcher, record_assignment}

-- A filed assignment stands under its own task, and its row is in the table.
pub record IsFiled (table : AssignmentTable) (task : ℕ) (a : AssignmentRecord) : Type 0 where
  pub own_task : a.task_id ≡ task
  pub positive : a.id ≢ 0
  pub has_row : task_of_id a.id table.rows ≡ some a.task_id

abbrev pub FiledIn : Option AssignmentTable → Dict ℕ AssignmentRecord → Type 0
FiledIn none assignments =
    (task : ℕ) (a : AssignmentRecord) → lookup task assignments ≡ some a → a.task_id ≡ task
FiledIn (some table) assignments =
    IsTable table
    × ((task : ℕ) (a : AssignmentRecord) → lookup task assignments ≡ some a → IsFiled table task a)

-- New, or a later version of what is filed.
abbrev pub MayFile : Dispatcher → ℕ → AssignmentRecord → Type 0
MayFile d task a =
    (a.task_id ≡ task)
    × ((a.id ≡ 0)
        ⊎ ((old : AssignmentRecord) × (lookup task d.assignments ≡ some old)
            × (old.id ≡ a.id)
            × (old.task_id ≡ a.task_id)))

-- The assignment can be read from its row in the table, if there is one, and the row of every other
-- id is what it was.
abbrev pub Saves : Option AssignmentTable → Option AssignmentTable → AssignmentRecord → Type 0
Saves none none a = Unit
Saves (some before) (some after) a =
    (fetch_assignment_by_id a.id after.rows ≡ returned a)
    × ((id : ℕ) → id ≢ a.id → row_of_id id after.rows ≡ row_of_id id before.rows)
Saves none (some after) a = ⊥
Saves (some before) none a = ⊥

-- Filed under its task with some id, the robots and the events untouched.
pub record Files (d : Dispatcher) (task : ℕ) (a : AssignmentRecord) : Type 0 where
  pub id : ℕ
  pub table : Option AssignmentTable
  pub runs : record_assignment task a d ≡ (
    returned (record a { id = id }),
    record d { assignments = insert task (record a { id = id }) d.assignments; table = table },
  )
  pub filed : FiledIn table (insert task (record a { id = id }) d.assignments)
  pub saved : Saves d.table table (record a { id = id })

Extends-FiledIn :
    (assignments : Dict ℕ AssignmentRecord) (before after : AssignmentTable) (task : ℕ)
    (a : AssignmentRecord)
    → FiledIn (some before) assignments
    → a.task_id ≡ task
    → Extends before after a
    → FiledIn (some after) (insert task a assignments)
Extends-FiledIn assignments before after task a h own ext = (
  ext.is_table,
  λ j b e. ground (
    arith,
    lookup-insert task j a assignments,
    h.1 j b,
    ext.has_row,
    ext.positive,
    ext.keeps b.id b.task_id,
  ),
)

record_in :
    (d : Dispatcher) (o : Option AssignmentTable) (task : ℕ) (a : AssignmentRecord)
    → d.table ≡ o
    → FiledIn o d.assignments
    → MayFile d task a
    → Files d task a
unfolding record_assignment
record_in d none task a e h (own, _) = record {
  id = a.id;
  table = none;
  runs = rw e refl;
  filed = λ j b k. ground (arith, lookup-insert task j a d.assignments, h j b);
  saved = rw e tt;
}
record_in d (some t) task a e h (own, inl new) =
    let (t', runs, ext) = persist_assignment_new a t h.0 new in
    record {
      id = t.last_id + 1;
      table = some t';
      runs = ground (arith, runs);
      filed = Extends-FiledIn d.assignments t t' task (record a { id = t.last_id + 1 }) h own ext;
      saved = rw e (ext.stored, ext.others);
    }
record_in d (some t) task a e h (own, inr (old, found, same, same_task)) =
    let filed = h.1 task old found in
    let (t', runs, ext) =
      persist_assignment_known a t h.0 (ground (arith, filed.positive))
        (ground (arith, filed.has_row)) in
    record {
      id = a.id;
      table = some t';
      runs = ground (arith, runs);
      filed = Extends-FiledIn d.assignments t t' task a h own ext;
      saved = rw e (ext.stored, ext.others);
    }

-- Where the assignments on file have their rows, an assignment that is new, or a later version of
-- the one on file, is always saved: the call returns it under its id and files it under its task,
-- changes nothing but the assignments and their table, and every assignment on file still has its
-- row. In a table the assignment can be read back from its row, and the row of every other id is
-- what it was.
pub record_assignment-Files :
    (d : Dispatcher) (task : ℕ) (a : AssignmentRecord)
    → FiledIn d.table d.assignments
    → MayFile d task a
    → Files d task a
record_assignment-Files d task a h may = record_in d d.table task a refl h may
