-- ===== src/Bot/Commands.antt =====
-- bot/commands.py: the list commands and the table of a task list.
pub mod Table
use lantern_task_manager.Base.{
  ℕ, String, ◌<>◌, Bool, true, false, Option, none, some, List, [], ◌∷◌, ◌++◌, length, take, ltb,
  any_of, ◌==◌, strip, lower, clip, chars, truthy, text_or, join, replace_char, if◌then◌else◌,
  Session, session_scope,
}
use lantern_task_manager.Domain.Enums.{status_value}
use lantern_task_manager.Domain.Models.{
  TaskRecord, ListTasksParams, ListFilter, my_tasks, my_requests, department, all_overdue,
  pending_verification, my_overdue, my_pending_verification,
}
use lantern_task_manager.Storage.Orm.{Db}
use lantern_task_manager.Storage.Repository.PublicId.{decimal}
use lantern_task_manager.Storage.Repository.Query.{list_tasks}

pub data TaskListVariant : Type 0 where
  filtered : ListFilter → TaskListVariant
  daily_summary : TaskListVariant

abbrev pub task_list_title : TaskListVariant → String
task_list_title (filtered my_tasks) = "Tasks assigned to you"
task_list_title (filtered my_requests) = "Tasks you requested"
task_list_title (filtered my_overdue) = "Your overdue tasks"
task_list_title (filtered my_pending_verification) = "Your requests awaiting verification"
task_list_title daily_summary = "Your open tasks"
task_list_title (filtered department) = "Tasks"
task_list_title (filtered all_overdue) = "Overdue tasks"
task_list_title (filtered pending_verification) = "Tasks awaiting verification"

abbrev pub shows_assignee_in_list : TaskListVariant → Bool
shows_assignee_in_list (filtered my_requests) = true
shows_assignee_in_list (filtered my_pending_verification) = true
shows_assignee_in_list (filtered department) = true
shows_assignee_in_list (filtered all_overdue) = true
shows_assignee_in_list (filtered pending_verification) = true
shows_assignee_in_list (filtered my_tasks) = false
shows_assignee_in_list (filtered my_overdue) = false
shows_assignee_in_list daily_summary = false

abbrev pub shows_priority_in_list : TaskListVariant → Bool
shows_priority_in_list (filtered my_tasks) = true
shows_priority_in_list (filtered my_overdue) = true
shows_priority_in_list daily_summary = true
shows_priority_in_list (filtered my_requests) = false
shows_priority_in_list (filtered my_pending_verification) = false
shows_priority_in_list (filtered department) = false
shows_priority_in_list (filtered all_overdue) = false
shows_priority_in_list (filtered pending_verification) = false

unfoldable pub escape_md_cell : String → String
escape_md_cell text = strip (replace_char b'\n' " " (replace_char b'|' "/" text))

abbrev pub when : Bool → String → List String
when test cell = if test then cell ∷ [] else []

abbrev pub table_headers : TaskListVariant → List String
table_headers variant =
    "ID" ∷ "Task" ∷ when (shows_assignee_in_list variant) "Assignee"
    ++ "Status" ∷ "Due" ∷ when (shows_priority_in_list variant) "Priority"

abbrev pub cells : List String → String
cells texts = "| " <> join " | " texts <> " |"

abbrev pub dashes : List String → List String
dashes [] = []
dashes (h ∷ hs) = "---" ∷ dashes hs

abbrev pub lines_of : List (List String) → List String
lines_of [] = []
lines_of (row ∷ rows) = cells row ∷ lines_of rows

unfoldable pub markdown_table : List String → List (List String) → String
markdown_table headers rows = join "\n" (cells headers ∷ cells (dashes headers) ∷ lines_of rows)

abbrev command_filters : List (List String × ListFilter)
command_filters =
    ("my tasks" ∷ "list my tasks" ∷ "/my tasks" ∷ [], my_tasks)
    ∷ ("my requests" ∷ "list my requests" ∷ "/my requests" ∷ [], my_requests)
    ∷ ("overdue" ∷ "my overdue" ∷ "list overdue" ∷ "/overdue" ∷ [], my_overdue)
    ∷ (
      "pending verification" ∷ "my pending verification" ∷ "awaiting verification"
          ∷ "/pending verification" ∷ [],
      my_pending_verification,
    )
    ∷ []

abbrev filter_of : String → List (List String × ListFilter) → Option ListFilter
filter_of text [] = none
filter_of text ((names, f) ∷ rest) =
    if any_of (λ name. name == text) names then some f else filter_of text rest

unfoldable pub match_list_filter : String → Option ListFilter
match_list_filter text = filter_of (lower (strip text)) command_filters

module _ (iso_date : ℕ → String) where
  abbrev due_text : TaskRecord → String
  due_text task =
      if task.is_overdue then "**" <> iso_date task.due_date <> "***" else iso_date task.due_date

  abbrev snippet : String → String
  snippet desc = clip 80 desc <> (if ltb 80 (chars desc) then "…" else "")

  unfoldable pub task_cell_md : TaskRecord → String
  unfolding escape_md_cell
  task_cell_md task =
      let title = escape_md_cell task.task_type in
      let desc = strip task.description in
      if truthy desc
      then "**" <> title <> "**<br>_" <> escape_md_cell (snippet desc) <> "_"
      else "**" <> title <> "**"

  abbrev assignee_of : TaskRecord → String
  assignee_of task = text_or task.assigned_to.display_name task.assigned_to.entra_object_id

  unfoldable pub table_row : TaskRecord → TaskListVariant → List String
  unfolding task_cell_md
  table_row task variant =
      ("`" <> task.id <> "`")
        ∷ task_cell_md task
        ∷ when (shows_assignee_in_list variant) (escape_md_cell (assignee_of task))
      ++ escape_md_cell (status_value task.status)
        ∷ due_text task
        ∷ when (shows_priority_in_list variant) (escape_md_cell task.priority)

  abbrev pub table_rows : List TaskRecord → TaskListVariant → List (List String)
  table_rows [] variant = []
  table_rows (task ∷ tasks) variant = table_row task variant ∷ table_rows tasks variant

  abbrev more_than_shown : ℕ → List String
  more_than_shown n =
      if ltb 40 n then ("\nShowing first 40 of " <> decimal n <> " tasks.") ∷ [] else []

  unfoldable pub format_task_list_message : List TaskRecord → TaskListVariant → String
  unfolding table_row markdown_table
  format_task_list_message [] variant =
      "**" <> task_list_title variant <> "** — no matching open tasks."
  format_task_list_message (task ∷ tasks) variant =
      let count = length (task ∷ tasks) in
      join "\n" (
        ("**" <> task_list_title variant <> "** (" <> decimal count <> ")")
          ∷ ""
          ∷ markdown_table (table_headers variant) (table_rows (take 40 (task ∷ tasks)) variant)
          ∷ more_than_shown count
        ++ "\nAsk in natural language for details, or reference a task ID from the list." ∷ [])

-- Commands list at most 25 tasks where no limit is given.
unfoldable pub fetch_task_list : String → ListFilter → ℕ → Session Db (List TaskRecord)
unfolding session_scope
fetch_task_list viewer filter limit = session_scope (
    list_tasks (record { filter = filter; department = none; status = none; limit = limit }) viewer
      true)
