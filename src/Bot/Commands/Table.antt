-- ===== src/Bot/Commands/Table.antt =====
-- The table of bot/commands.py.
use lantern_task_manager.Base.{ℕ, String, ◌≡◌, refl, List, [], ◌∷◌, length, All}
use lantern_task_manager.Domain.Models.{
  TaskRecord, my_tasks, my_requests, department, all_overdue, pending_verification, my_overdue,
  my_pending_verification,
}
use lantern_task_manager.Bot.Commands.{
  TaskListVariant, filtered, daily_summary, table_headers, table_row, table_rows,
}

module _ (iso_date : ℕ → String) where
  length-table_row :
      (task : TaskRecord) (variant : TaskListVariant)
      → length (table_row iso_date task variant) ≡ length (table_headers variant)
  unfolding table_row
  length-table_row task daily_summary = refl
  length-table_row task (filtered my_tasks) = refl
  length-table_row task (filtered my_requests) = refl
  length-table_row task (filtered department) = refl
  length-table_row task (filtered all_overdue) = refl
  length-table_row task (filtered pending_verification) = refl
  length-table_row task (filtered my_overdue) = refl
  length-table_row task (filtered my_pending_verification) = refl

  -- Every row of a table has a cell under each header, whatever the tasks and the kind of list.
  table_rows_rectangular :
      (tasks : List TaskRecord) (variant : TaskListVariant)
      → All (λ row. length row ≡ length (table_headers variant)) (table_rows iso_date tasks variant)
  table_rows_rectangular [] variant = tt
  table_rows_rectangular (task ∷ tasks) variant =
      (length-table_row task variant, table_rows_rectangular tasks variant)
