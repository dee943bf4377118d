-- ===== src/Notifications/Jobs.antt =====
-- notifications/scheduled_jobs.py. The threshold of the escalation rules and the text of a task list
-- are arguments.
pub mod Once
use lantern_task_manager.Base.{
  ℕ, ◌+◌, ◌-◌, String, ◌<>◌, Bool, true, false, not, ◌&&◌, Option, none, some, List, [], ◌∷◌, ltb,
  if◌then◌else◌, truthy, length, Session, Outcome, ok, raised, value_error, pure, raise, ◌>>=◌,
  ◌>>◌, session_scope, catch_any,
}
use lantern_task_manager.Domain.Models.{UserRef, TaskRecord}
use lantern_task_manager.Config.{World}
use lantern_task_manager.Storage.Orm.{Db, Clock}
use lantern_task_manager.Storage.Repository.Query.{
  list_overdue_in_progress, list_open_for_assignee, distinct_assignees_with_open_tasks,
}
use lantern_task_manager.Storage.Repository.Sweep.{refresh_overdue_flags}
use lantern_task_manager.Notifications.Events.{NotificationResult}
use lantern_task_manager.Notifications.Service.{try_consume_idempotency}
use lantern_task_manager.Notifications.Service.Messages.{
  notify_overdue_assignee, notify_overdue_creator, notify_daily_summary,
}
use lantern_task_manager.Notifications.Retry.{retry_failed_deliveries}

pub record OverdueStats : Type 0 where
  pub flags_updated : ℕ
  pub overdue_tasks : ℕ
  pub notifications : ℕ
  pub skipped : ℕ

pub record SummaryStats : Type 0 where
  pub assignees : ℕ
  pub sent : ℕ
  pub skipped : ℕ
  pub test_mode : ℕ

-- `_days_overdue`
unfoldable pub days_overdue : ℕ → ℕ → ℕ
days_overdue due today = today - due

abbrev pub skipped_run : OverdueStats
skipped_run = record { flags_updated = 0; overdue_tasks = 0; notifications = 0; skipped = 1 }

module _ (world : World) (clock : Clock) where
  -- The body of the loop, with what it adds to `notifications`.
  unfoldable pub escalate_row : ℕ → TaskRecord → Session Db ℕ
  escalate_row threshold row =
      if ltb (days_overdue row.due_date clock.today) threshold
      then pure 0
      else catch_any
          (do
            notify_overdue_assignee world clock row clock.today
            notify_overdue_creator world clock row clock.today
            pure 2)
          (pure 0)

  unfoldable pub escalate_rows : ℕ → List TaskRecord → Session Db ℕ
  escalate_rows threshold [] = pure 0
  escalate_rows threshold (row ∷ rows) = do
    n ← escalate_row threshold row
    rest ← escalate_rows threshold rows
    pure (n + rest)

  unfoldable pub overdue_key : String
  overdue_key = "overdue_refresh:" <> world.iso_date clock.today

  abbrev pub escalate : ℕ → List TaskRecord → Bool → Session Db ℕ
  escalate threshold rows true = escalate_rows threshold rows
  escalate threshold rows false = pure 0

  unfoldable pub refresh_and_notify : ℕ → Bool → Session Db OverdueStats
  refresh_and_notify threshold false = pure skipped_run
  refresh_and_notify threshold true = do
    flags ← refresh_overdue_flags clock
    rows ← list_overdue_in_progress clock
    fresh ← try_consume_idempotency clock ("escalation_scan:" <> world.iso_date clock.today)
    n ← escalate threshold rows fresh
    pure (record {
      flags_updated = flags;
      overdue_tasks = length rows;
      notifications = n;
      skipped = 0;
    })

  unfoldable pub run_overdue_refresh_and_notify : ℕ → Session Db OverdueStats
  unfolding session_scope
  run_overdue_refresh_and_notify threshold =
      session_scope
        (do fresh ← try_consume_idempotency clock overdue_key; refresh_and_notify threshold fresh)

  abbrev counted : NotificationResult → ℕ × ℕ
  counted result = if result.skipped_duplicate then (0, 1) else (1, 0)

  abbrev summarise :
      (List TaskRecord → String) → Bool → String → List TaskRecord → Session Db (ℕ × ℕ)
  summarise list_text force target [] = pure (0, 0)
  summarise list_text force target (task ∷ tasks) =
      catch_any
        (do
          result ←
              notify_daily_summary world clock
                (record {
                  entra_object_id = target;
                  display_name = task.assigned_to.display_name;
                  department = "";
                })
                (length (task ∷ tasks)) (list_text (task ∷ tasks)) clock.today force
          pure (counted result))
        (pure (0, 0))

  -- The body of the loop, with what it adds to `sent` and to `skipped`.
  unfoldable pub summary_for : (List TaskRecord → String) → Bool → String → Session Db (ℕ × ℕ)
  summary_for list_text force target = do
    tasks ← list_open_for_assignee target
    summarise list_text force target tasks

  unfoldable pub summaries : (List TaskRecord → String) → Bool → List String → Session Db (ℕ × ℕ)
  summaries list_text force [] = pure (0, 0)
  summaries list_text force (target ∷ targets) = do
    first ← summary_for list_text force target
    rest ← summaries list_text force targets
    pure (first.0 + rest.0, first.1 + rest.1)

  -- The lock of the batch run; a run for one assignee takes none.
  abbrev batch_lock : Option String → Session Db Bool
  batch_lock none = try_consume_idempotency clock ("daily_summary:" <> world.iso_date clock.today)
  batch_lock (some assignee) = pure true

  -- The truth value of `assignee_entra_id`.
  abbrev pub named : Option String → Bool
  named none = false
  named (some assignee) = truthy assignee

  abbrev targets : Option String → Session Db (List String)
  targets none = distinct_assignees_with_open_tasks
  targets (some assignee) =
      if truthy assignee then pure (assignee ∷ []) else distinct_assignees_with_open_tasks

  abbrev test_mode_of : Option String → ℕ
  test_mode_of none = 0
  test_mode_of (some assignee) = 1

  abbrev summary_block :
      (List TaskRecord → String) → Option String → Bool → Bool → Session Db SummaryStats
  summary_block list_text assignee force false =
      pure (record { assignees = 0; sent = 0; skipped = 1; test_mode = test_mode_of assignee })
  summary_block list_text assignee force true = do
    ids ← targets assignee
    counts ← summaries list_text force ids
    pure (record {
      assignees = length ids;
      sent = counts.0;
      skipped = counts.1;
      test_mode = test_mode_of assignee;
    })

  unfoldable pub run_daily_summary :
      (List TaskRecord → String) → Option String → Bool → Session Db SummaryStats
  unfolding session_scope
  run_daily_summary list_text assignee force =
      if force && not (named assignee)
      then raise (value_error "force requires assignee_entra_id for a single-user test send")
      else session_scope
          (do fresh ← batch_lock assignee; summary_block list_text assignee force fresh)

  unfoldable pub run_notification_retry : ℕ → Session Db ℕ
  unfolding session_scope
  run_notification_retry limit = session_scope (retry_failed_deliveries world clock limit)
