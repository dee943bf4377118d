-- ===== src/Storage/Repository/Sweep/Flags.antt =====
-- The overdue flags that `refresh_overdue_flags` leaves.
use lantern_task_manager.Base.{
  ◌≡◌, refl, ◌∙◌, ℕ, ◌+◌, String, Option, none, some, List, [], ◌∷◌, ◌==◌, if◌then◌else◌, arith,
  All, find, ok, Bool-cases, inl, inr,
}
use lantern_task_manager.Storage.Orm.{TaskOrm, Db, Clock}
use lantern_task_manager.Storage.Repository.Row.{task_key, find_task}
use lantern_task_manager.Storage.Repository.Sweep.{
  same_bool, overdue_on, refresh_row, refresh_rows, refresh_overdue_flags,
}

-- The flag tells whether the task is overdue today.
abbrev pub IsFresh : Clock → TaskOrm → Type 0
IsFresh clock row = row.is_overdue ≡ overdue_on clock row

refresh_row-IsFresh : (clock : Clock) (row : TaskOrm) → IsFresh clock (refresh_row clock row)
refresh_row-IsFresh clock row = ground arith

refresh_rows-IsFresh :
    (clock : Clock) (rows : List TaskOrm) → All (IsFresh clock) (refresh_rows clock rows).1
unfolding refresh_rows
refresh_rows-IsFresh clock [] = tt
refresh_rows-IsFresh clock (row ∷ rows) =
    (refresh_row-IsFresh clock row, refresh_rows-IsFresh clock rows)

refresh_rows_again :
    (clock : Clock) (rows : List TaskOrm)
    → All (IsFresh clock) rows
    → refresh_rows clock rows ≡ (0, rows)
unfolding refresh_rows
refresh_rows_again clock [] h = refl
refresh_rows_again clock (row ∷ rows) h = ground (arith, refresh_rows_again clock rows h.1)

-- A row's flag after the sweep tells whether it is overdue on that day: due before today, and
-- neither verified nor cancelled. A second sweep on the same day reports 0 and changes nothing.
refresh_overdue_flags_lem :
    (clock : Clock) (db : Db)
    → All (IsFresh clock) (refresh_overdue_flags clock db).1.tasks
      × (refresh_overdue_flags clock (refresh_overdue_flags clock db).1
          ≡ (ok 0, (refresh_overdue_flags clock db).1))
unfolding refresh_overdue_flags
refresh_overdue_flags_lem clock db =
    let fresh = refresh_rows-IsFresh clock db.tasks in
    (fresh, ground (arith, refresh_rows_again clock (refresh_rows clock db.tasks).1 fresh))

abbrev pub refreshed : Clock → Option TaskOrm → Option TaskOrm
refreshed clock none = none
refreshed clock (some row) = some (refresh_row clock row)

find-refresh_rows :
    (clock : Clock) (k : String) (rows : List TaskOrm)
    → find task_key k (refresh_rows clock rows).1 ≡ refreshed clock (find task_key k rows)
unfolding find refresh_rows
find-refresh_rows clock k [] = refl
find-refresh_rows clock k (row ∷ rows) = elim (Bool-cases (row.task_id == k)) [
  | inl e ↦ ground (arith, find-refresh_rows clock k rows)
  | inr e ↦ ground (arith, find-refresh_rows clock k rows)
]

-- The sweep finds each task under its id, with its status, its people and its audit trail as they
-- were: at most the flag and the update time change.
pub refresh_overdue_flags_keeps :
    (clock : Clock) (db : Db) (k : String) {row : TaskOrm}
    → find_task k db ≡ some row
    → find_task k (refresh_overdue_flags clock db).1
      ≡ some (record row {
        is_overdue = overdue_on clock row;
        updated_at =
            if same_bool row.is_overdue (overdue_on clock row) then row.updated_at else clock.now;
      })
unfolding refresh_overdue_flags
refresh_overdue_flags_keeps clock db k {row} found =
    find-refresh_rows clock k db.tasks ∙ rw found (ground arith)

-- How many rows have a wrong flag.
abbrev pub wrong_flags : Clock → List TaskOrm → ℕ
wrong_flags clock [] = 0
wrong_flags clock (row ∷ rows) =
    (if same_bool row.is_overdue (overdue_on clock row) then 0 else 1) + wrong_flags clock rows

refresh_rows-count :
    (clock : Clock) (rows : List TaskOrm) → (refresh_rows clock rows).0 ≡ wrong_flags clock rows
unfolding refresh_rows
refresh_rows-count clock [] = refl
refresh_rows-count clock (row ∷ rows) = ground (arith, refresh_rows-count clock rows)

-- The number that the sweep reports is the number of flags that were wrong.
pub refresh_overdue_flags_count :
    (clock : Clock) (db : Db) → (refresh_overdue_flags clock db).0 ≡ ok (wrong_flags clock db.tasks)
unfolding refresh_overdue_flags
refresh_overdue_flags_count clock db = rw (refresh_rows-count clock db.tasks)
