-- ===== src/Wms/Tasks/Pending.antt =====
-- The queue of pending tasks: which one is next, and how an update shortens it.
use amr_warehouse_navigation.Common.{
  Bool, true, false, ◌≡◌, refl, sym, subst, ◌⊎◌, ◌<◌, ◌≤◌, if_cases, Bool-cases, inl, inr, Option,
  none, some, List, [], ◌∷◌, String, ◌==◌, nat_key, string_key, ℕ, suc, if◌then◌else◌, arith, All,
  All-In, In-All, In, ap, length,
}
use amr_warehouse_navigation.Common.Order.{
  IsTotalOrder, Sorted, sort, sort-All, sort-Sorted, In-sort,
}
use amr_warehouse_navigation.Wms.Reasons.{WmsReason}
use amr_warehouse_navigation.Wms.Tasks.{
  TaskRow, TaskTable, is_pending, first_row, pending_rows, row_leb, get_next_pending_task, has_row,
  restatus, update_rows,
}
use amr_warehouse_navigation.Wms.Tasks.Rows.{HasUniqueIds, has_row-In}

-- A stored row that is pending.
abbrev pub IsWaiting : List TaskRow → TaskRow → Type 0
IsWaiting rows row = In row rows × (is_pending row ≡ true)

row_leb-IsTotalOrder : IsTotalOrder row_leb
row_leb-IsTotalOrder = record { total = λ a b. ground arith; trans = λ a b c p q. ground arith }

IsWaiting-cons :
    (row r : TaskRow) (rows : List TaskRow) (b : Bool)
    → is_pending r ≡ b
    → (In row (pending_rows rows) → IsWaiting rows row)
    → In row (if b then r ∷ pending_rows rows else pending_rows rows)
    → IsWaiting (r ∷ rows) row
IsWaiting-cons row r rows true p rest (inl e) = (inl e, subst (λ x. is_pending x ≡ true) (sym e) p)
IsWaiting-cons row r rows true p rest (inr m) = (inr (rest m).0, (rest m).1)
IsWaiting-cons row r rows false p rest m = (inr (rest m).0, (rest m).1)

pending_rows-IsWaiting :
    (row : TaskRow) (rows : List TaskRow) → In row (pending_rows rows) → IsWaiting rows row
pending_rows-IsWaiting row [] m = absurd m
pending_rows-IsWaiting row (r ∷ rows) m =
    IsWaiting-cons row r rows (is_pending r) refl (pending_rows-IsWaiting row rows) m

-- The order of the queue: created before, or in the same second with an id that is no larger.
abbrev pub Precedes : TaskRow → TaskRow → Type 0
Precedes a b = (a.created_at < b.created_at) ⊎ ((a.created_at ≡ b.created_at) × (a.id ≤ b.id))

-- `none` where no row has the status 'pending'; otherwise a row of the table that has it, and that
-- precedes every row of the table that has it.
abbrev pub IsNext : List TaskRow → Option TaskRow → Type 0
IsNext rows none = (row : TaskRow) → In row rows → (row.status == "pending") ≡ false
IsNext rows (some task) =
    (In task rows × ((task.status == "pending") ≡ true))
    × ((row : TaskRow) → In row rows → (row.status == "pending") ≡ true → Precedes task row)

row_leb-Precedes : (a b : TaskRow) → row_leb a b ≡ true → Precedes a b
row_leb-Precedes a b h = ground arith

In-pending_rows :
    (row : TaskRow) (rows : List TaskRow)
    → In row rows
    → is_pending row ≡ true
    → In row (pending_rows rows)
In-pending_rows row [] m p = absurd m
In-pending_rows row (r ∷ rows) (inl e) p =
    if_cases (In row) (is_pending r) _ _ (λ yes. inl e)
      (λ no.
        let clash : is_pending row ≡ false = subst (λ x. is_pending x ≡ false) (sym e) no in cc)
In-pending_rows row (r ∷ rows) (inr m) p =
    if_cases (In row) (is_pending r) _ _ (λ yes. inr (In-pending_rows row rows m p))
      (λ no. In-pending_rows row rows m p)

none_pending :
    (rows : List TaskRow)
    → pending_rows rows ≡ []
    → (row : TaskRow) → In row rows
    → is_pending row ≡ false
none_pending rows e row m = elim (Bool-cases (is_pending row)) [
  | inl held ↦ absurd (subst (In row) e (In-pending_rows row rows m held))
  | inr other ↦ other
]

-- Where no row is pending, none is waiting.
pub pending_rows-none :
    (rows : List TaskRow)
    → ((row : TaskRow) → In row rows → (row.status == "pending") ≡ false)
    → pending_rows rows ≡ []
pending_rows-none [] h = refl
pending_rows-none (r ∷ rows) h =
    rw (h r (inl refl)) (pending_rows-none rows (λ row m. h row (inr m)))

sort_nil : (rows : List TaskRow) → sort row_leb rows ≡ [] → rows ≡ []
sort_nil [] e = refl
sort_nil (row ∷ rows) e = absurd (subst (In row) e (In-sort row_leb row (row ∷ rows) (inl refl)))

row_leb_refl : (row : TaskRow) → row_leb row row ≡ true
row_leb_refl row = ground arith

first_row-IsNext :
    (rows sorted : List TaskRow)
    → sort row_leb (pending_rows rows) ≡ sorted
    → IsNext rows (first_row sorted)
first_row-IsNext rows [] e = none_pending rows (sort_nil (pending_rows rows) e)
first_row-IsNext rows (task ∷ later) e =
    let all = subst (All (λ r. In r (pending_rows rows))) e (
      sort-All row_leb (λ r. In r (pending_rows rows)) (pending_rows rows)
        (In-All (λ r. In r (pending_rows rows)) (pending_rows rows) (λ r m. m))) in
    let ordered =
      subst (Sorted row_leb) e (sort-Sorted row_leb row_leb-IsTotalOrder (pending_rows rows)) in
    (
      pending_rows-IsWaiting task rows all.0,
      λ row m p. row_leb-Precedes task row (
          before row ordered.0 (
            subst (In row) e
              (In-sort row_leb row (pending_rows rows) (In-pending_rows row rows m p)))),
    )
  where
    before :
        (row : TaskRow)
        → All (λ r. row_leb task r ≡ true) later
        → In row (task ∷ later)
        → row_leb task row ≡ true
    before row below (inl same) = subst (λ r. row_leb task r ≡ true) (sym same) (row_leb_refl task)
    before row below (inr m) = All-In (λ r. row_leb task r ≡ true) later below m

-- `get_next_pending_task` finds a row with the status 'pending' that was created no later than any
-- other such row, and that has the smallest id of those created in its second; it finds none only
-- where no row has that status.
pub get_next_pending_task-IsNext : (t : TaskTable) → IsNext t.rows (get_next_pending_task t)
unfolding get_next_pending_task
get_next_pending_task-IsNext t = first_row-IsNext t.rows (sort row_leb (pending_rows t.rows)) refl

-- How many tasks are pending.
abbrev pub waiting : List TaskRow → ℕ
waiting rows = length (pending_rows rows)

update_rows_absent :
    (id : ℕ) (f : TaskRow → TaskRow) (rows : List TaskRow)
    → has_row id rows ≡ false
    → update_rows id f rows ≡ rows
unfolding update_rows
update_rows_absent id f [] h = refl
update_rows_absent id f (row ∷ rows) h = ground (arith, update_rows_absent id f rows)

-- A pending task that gets another status leaves the queue.
pub waiting-consumed :
    (row : TaskRow) (status : String) (reason : Option WmsReason) (now : ℕ) (rows : List TaskRow)
    → HasUniqueIds rows
    → IsWaiting rows row
    → (status == "pending") ≡ false
    → suc (waiting (update_rows row.id (restatus status reason now) rows)) ≡ waiting rows
unfolding update_rows
waiting-consumed row status reason now [] u w other = absurd w.0
waiting-consumed row status reason now (r ∷ rows) u (inl same, p) other = ground (
  arith,
  ap (λ x. x.id) same,
  ap (λ x. x.status) same,
  update_rows_absent row.id (restatus status reason now) rows,
)
waiting-consumed row status reason now (r ∷ rows) u (inr m, p) other =
    ground
      (arith, has_row-In row rows m, waiting-consumed row status reason now rows u.1 (m, p) other)

length-front :
    (r : TaskRow) (b : Bool) (xs ys : List TaskRow)
    → length xs ≡ length ys
    → length (if b then r ∷ xs else xs) ≡ length (if b then r ∷ ys else ys)
length-front r true xs ys e = ap suc e
length-front r false xs ys e = e

-- A pending task that stays pending stays in the queue.
pub waiting_kept :
    (row : TaskRow) (reason : Option WmsReason) (now : ℕ) (rows : List TaskRow)
    → HasUniqueIds rows
    → IsWaiting rows row
    → waiting (update_rows row.id (restatus "pending" reason now) rows) ≡ waiting rows
unfolding update_rows
waiting_kept row reason now [] u w = refl
waiting_kept row reason now (r ∷ rows) u (inl same, p) =
    let own : (r.id == row.id) ≡ true = ground (arith, ap (λ x. x.id) same) in
    let pending : is_pending r ≡ true = subst (λ x. is_pending x ≡ true) same p in
    let absent : has_row row.id rows ≡ false =
      subst (λ x. has_row x.id rows ≡ false) (sym same) u.0 in
    rw (own, update_rows_absent row.id (restatus "pending" reason now) rows absent, pending) refl
waiting_kept row reason now (r ∷ rows) u (inr m, p) =
    let other : (r.id == row.id) ≡ false = ground (arith, has_row-In row rows m) in
    rw other (length-front r (is_pending r) _ _ (waiting_kept row reason now rows u.1 (m, p)))
