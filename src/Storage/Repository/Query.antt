-- ===== src/Storage/Repository/Query.antt =====
-- `list_tasks`, `search` and the other queries of `TaskRepository`.
pub mod Answers
use lantern_task_manager.Base.{
  ℕ, String, Bool, true, false, not, ◌&&◌, ◌||◌, Option, none, some, List, [], ◌∷◌, ◌==◌, ltb,
  if◌then◌else◌, truthy, lower, ◌<>◌, keep, any_of, take, order_by, Session, ok,
}
use mathlib.Core.List.{map}
use lantern_task_manager.Domain.Enums.{TaskStatus, status_eq, in_progress, pending_closure}
use lantern_task_manager.Domain.Models.{
  TaskRecord, ListFilter, ListTasksParams, my_tasks, my_requests, department, all_overdue,
  my_overdue, my_pending_verification,
}
use lantern_task_manager.Storage.Orm.{TaskOrm, Db, Clock}
use lantern_task_manager.Storage.Repository.Row.{orm_to_record}

-- A department filter with no department, or an empty one, adds no condition.
abbrev department_where : Option String → TaskOrm → Bool
department_where none row = true
department_where (some name) row = if truthy name then row.department_display == name else true

-- The condition that the chosen filter adds.
unfoldable pub filter_where : ListFilter → Option String → String → TaskOrm → Bool
filter_where my_tasks dept viewer row = row.assigned_to_entra_id == viewer
filter_where my_requests dept viewer row = row.created_by_entra_id == viewer
filter_where department dept viewer row = department_where dept row
filter_where all_overdue dept viewer row = row.is_overdue
filter_where ListFilter.pending_verification dept viewer row =
    status_eq row.status TaskStatus.pending_verification
filter_where my_overdue dept viewer row = row.assigned_to_entra_id == viewer && row.is_overdue
filter_where my_pending_verification dept viewer row =
    row.created_by_entra_id == viewer && status_eq row.status TaskStatus.pending_verification

abbrev status_where : Option TaskStatus → TaskOrm → Bool
status_where none row = true
status_where (some status) row = status_eq row.status status

abbrev pub listed : ListTasksParams → String → TaskOrm → Bool
listed params viewer row =
    filter_where params.filter params.department viewer row && status_where params.status row

abbrev pub due : TaskOrm → ℕ
due row = row.due_date

unfoldable pub list_rows : ListTasksParams → String → Bool → List TaskOrm → List TaskOrm
list_rows params viewer apply_limit rows =
    let found = order_by due (keep (listed params viewer) rows) in
    if apply_limit then take params.limit found else found

unfoldable pub list_tasks : ListTasksParams → String → Bool → Session Db (List TaskRecord)
unfolding list_rows
list_tasks params viewer apply_limit db =
    (ok (map orm_to_record (list_rows params viewer apply_limit db.tasks)), db)

-- `search`; the database's ILIKE is a parameter.
module _ (ilike : String → String → Bool) where
  abbrev pub matched : String → TaskOrm → Bool
  matched query row =
      let like = "%" <> lower query <> "%" in
      ilike row.task_id like || ilike row.description like || ilike row.task_type like

  unfoldable pub search_rows : String → ℕ → List TaskOrm → List TaskOrm
  search_rows query limit rows = take limit (keep (matched query) rows)

  unfoldable pub search_tasks : String → ℕ → Session Db (List TaskRecord)
  unfolding search_rows
  search_tasks query limit db = (ok (map orm_to_record (search_rows query limit db.tasks)), db)

-- `list_overdue_in_progress`
unfoldable pub list_overdue_in_progress : Clock → Session Db (List TaskRecord)
list_overdue_in_progress clock db = (
  ok (
      map orm_to_record
        (keep (λ row. status_eq row.status in_progress && ltb row.due_date clock.today) db.tasks)),
  db,
)

abbrev pub open_statuses : TaskStatus → Bool
open_statuses TaskStatus.created = true
open_statuses TaskStatus.assigned = true
open_statuses in_progress = true
open_statuses pending_closure = true
open_statuses TaskStatus.pending_verification = true
open_statuses TaskStatus.reopened = true
open_statuses _ = false

abbrev pub open_for : String → TaskOrm → Bool
open_for assignee row = row.assigned_to_entra_id == assignee && open_statuses row.status

-- `list_open_for_assignee`
unfoldable pub list_open_for_assignee : String → Session Db (List TaskRecord)
list_open_for_assignee assignee db =
    (ok (map orm_to_record (order_by due (keep (open_for assignee) db.tasks))), db)

-- The `terminal` set of the sweeps.
abbrev pub is_terminal : TaskStatus → Bool
is_terminal TaskStatus.verified = true
is_terminal TaskStatus.cancelled = true
is_terminal _ = false

-- `SELECT DISTINCT assigned_to_entra_id` over the rows with a status outside the set.
unfoldable pub distinct_of : List String → List TaskOrm → List String
distinct_of seen [] = []
distinct_of seen (row ∷ rows) =
    let skip = is_terminal row.status || any_of (λ s. s == row.assigned_to_entra_id) seen in
    let rest = distinct_of (if skip then seen else row.assigned_to_entra_id ∷ seen) rows in
    if skip then rest else row.assigned_to_entra_id ∷ rest

unfoldable pub distinct_assignees_with_open_tasks : Session Db (List String)
unfolding distinct_of
distinct_assignees_with_open_tasks db = (ok (distinct_of [] db.tasks), db)
