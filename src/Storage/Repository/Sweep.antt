-- ===== src/Storage/Repository/Sweep.antt =====
-- `refresh_overdue_flags` and `append_audit`.
pub mod Flags
use lantern_task_manager.Base.{
  ℕ, ◌+◌, String, Bool, true, false, not, ◌&&◌, Option, none, some, List, [], ◌∷◌, ltb,
  if◌then◌else◌, Session, ok, write,
}
use lantern_task_manager.Domain.Enums.{TaskStatus, AuditEvent}
use lantern_task_manager.Storage.Orm.{TaskOrm, Db, Clock}
use lantern_task_manager.Storage.Repository.Row.{find_task, task_key, with_audit}
use lantern_task_manager.Storage.Repository.Query.{is_terminal}

abbrev pub same_bool : Bool → Bool → Bool
same_bool true b = b
same_bool false b = not b

-- `overdue` in the loop.
abbrev pub overdue_on : Clock → TaskOrm → Bool
overdue_on clock row = ltb row.due_date clock.today && not (is_terminal row.status)

abbrev pub refresh_row : Clock → TaskOrm → TaskOrm
refresh_row clock row =
    if same_bool row.is_overdue (overdue_on clock row)
    then row
    else record row { is_overdue = overdue_on clock row; updated_at = clock.now }

-- The loop over all rows, with the number of rows that changed.
unfoldable pub refresh_rows : Clock → List TaskOrm → ℕ × List TaskOrm
refresh_rows clock [] = (0, [])
refresh_rows clock (row ∷ rows) =
    let (n, rest) = refresh_rows clock rows in
    (
      if same_bool row.is_overdue (overdue_on clock row) then n else n + 1,
      refresh_row clock row ∷ rest,
    )

unfoldable pub refresh_overdue_flags : Clock → Session Db ℕ
unfolding refresh_rows
refresh_overdue_flags clock db =
    let (n, rows) = refresh_rows clock db.tasks in (ok n, record db { tasks = rows })

abbrev audited : Clock → AuditEvent → String → String → Option TaskOrm → Db → Db
audited clock event actor details none db = db
audited clock event actor details (some row) db = record db {
  tasks =
      write task_key
        (record row {
          audit_trail = with_audit clock event actor details row.audit_trail;
          updated_at = clock.now;
        })
        db.tasks;
}

unfoldable pub append_audit : Clock → String → AuditEvent → String → String → Session Db (Unit {0})
append_audit clock task_id event actor details db =
    (ok tt, audited clock event actor details (find_task task_id db) db)
