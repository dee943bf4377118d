-- ===== src/Notifications/Service/Messages.antt =====
-- The `notify_` methods of notifications/service.py: who is told what, under which key.
use lantern_task_manager.Base.{
  ℕ, String, ◌<>◌, Bool, true, false, Option, none, if◌then◌else◌, text_or, clip, Session, pure,
  ◌>>=◌, ◌>>◌,
}
use lantern_task_manager.Domain.Enums.{AuditEvent}
use lantern_task_manager.Domain.Models.{TaskRecord, UserRef}
use lantern_task_manager.Config.{World}
use lantern_task_manager.Access.{assignee_ref, creator_ref, verifier_ref}
use lantern_task_manager.Storage.Orm.{Db, Clock}
use lantern_task_manager.Storage.Repository.PublicId.{decimal}
use lantern_task_manager.Storage.Repository.Sweep.{append_audit}
use lantern_task_manager.Notifications.Events.{
  welcome, task_assigned, verify_requested, task_reopened, task_verified, daily_summary,
  overdue_assignee, overdue_creator, NotificationResult, summary,
}
use lantern_task_manager.Notifications.Service.{Message, deliver_hybrid}

module _ (world : World) (clock : Clock) where
  unfoldable pub welcome_message : String → String → String → Message
  welcome_message user name bot_text = record {
    event = welcome;
    idempotency_key = "notify:welcome:" <> user;
    recipient = record { entra_object_id = user; display_name = name; department = "" };
    activity_type = "welcome";
    preview_text = "Welcome to Lantern Task Manager";
    bot_text = bot_text;
    send_activity = false;
    send_bot = true;
    skip_idempotency = false;
    origin = none;
  }

  -- The text of `welcome_bot_text()` is an argument.
  unfoldable pub notify_welcome : String → String → String → Session Db NotificationResult
  unfolding welcome_message
  notify_welcome user name bot_text =
      deliver_hybrid world clock (welcome_message user name bot_text)

  unfoldable pub assigned_message : TaskRecord → Option String → Message
  assigned_message task origin = record {
    event = task_assigned;
    idempotency_key = "notify:task_assigned:" <> task.id;
    recipient = assignee_ref task;
    activity_type = "taskAssigned";
    preview_text = "New task " <> task.id <> " assigned to you";
    bot_text =
        "You were assigned task `"
        <> task.id
        <> "` ("
        <> task.task_type
        <> "), due "
        <> world.iso_date task.due_date
        <> ".";
    send_activity = true;
    send_bot = true;
    skip_idempotency = false;
    origin = origin;
  }

  unfoldable pub notify_task_assigned : TaskRecord → Option String → Session Db NotificationResult
  unfolding assigned_message
  notify_task_assigned task origin = do
    result ← deliver_hybrid world clock (assigned_message task origin)
    append_audit clock task.id AuditEvent.notified "SYSTEM" ("assignee:" <> summary result)
    pure result

  unfoldable pub verify_message : TaskRecord → Option String → Message
  verify_message task origin =
      let verifier = verifier_ref world task in
      record {
        event = verify_requested;
        idempotency_key = "notify:verify_requested:" <> task.id;
        recipient = verifier;
        activity_type = "verifyRequested";
        preview_text =
            "Verify completion of "
            <> task.id
            <> " for "
            <> text_or task.assigned_to.display_name task.assigned_to.entra_object_id;
        bot_text = "Please verify completion of task `" <> task.id <> "`.";
        send_activity = true;
        send_bot = true;
        skip_idempotency = false;
        origin = origin;
      }

  unfoldable pub notify_verify_requested :
      TaskRecord → Option String → Session Db NotificationResult
  unfolding verify_message
  notify_verify_requested task origin = deliver_hybrid world clock (verify_message task origin)

  unfoldable pub reopened_message : TaskRecord → String → Message
  reopened_message task reason = record {
    event = task_reopened;
    idempotency_key = "notify:task_reopened:" <> task.id <> ":" <> world.iso_time task.updated_at;
    recipient = assignee_ref task;
    activity_type = "taskReopened";
    preview_text = "Task " <> task.id <> " was reopened";
    bot_text = "Task `" <> task.id <> "` was reopened: " <> clip 200 reason;
    send_activity = true;
    send_bot = true;
    skip_idempotency = false;
    origin = none;
  }

  unfoldable pub notify_task_reopened : TaskRecord → String → Session Db NotificationResult
  unfolding reopened_message
  notify_task_reopened task reason = deliver_hybrid world clock (reopened_message task reason)

  unfoldable pub verified_message : TaskRecord → Option String → Message
  verified_message task origin = record {
    event = task_verified;
    idempotency_key = "notify:task_verified:" <> task.id;
    recipient = assignee_ref task;
    activity_type = "taskVerified";
    preview_text = "Task " <> task.id <> " verified complete";
    bot_text = "Task `" <> task.id <> "` has been verified complete.";
    send_activity = true;
    send_bot = false;
    skip_idempotency = false;
    origin = origin;
  }

  unfoldable pub notify_task_verified : TaskRecord → Option String → Session Db NotificationResult
  unfolding verified_message
  notify_task_verified task origin = deliver_hybrid world clock (verified_message task origin)

  -- The text of the task list is an argument.
  unfoldable pub summary_message : UserRef → ℕ → String → ℕ → Bool → Message
  summary_message assignee count list_text day force = record {
    event = daily_summary;
    idempotency_key =
        if force
        then "notify:daily_summary:force:" <> world.iso_date day <> ":" <> assignee.entra_object_id
        else "notify:daily_summary:" <> world.iso_date day <> ":" <> assignee.entra_object_id;
    recipient = assignee;
    activity_type = "dailySummary";
    preview_text = "You have " <> decimal count <> " open task(s) in LTM";
    bot_text = list_text;
    send_activity = true;
    send_bot = true;
    skip_idempotency = force;
    origin = none;
  }

  unfoldable pub notify_daily_summary :
      UserRef → ℕ → String → ℕ → Bool → Session Db NotificationResult
  unfolding summary_message
  notify_daily_summary assignee count list_text day force =
      deliver_hybrid world clock (summary_message assignee count list_text day force)

  unfoldable pub overdue_assignee_message : TaskRecord → ℕ → Message
  overdue_assignee_message task day = record {
    event = overdue_assignee;
    idempotency_key = "notify:overdue_assignee:" <> world.iso_date day <> ":" <> task.id;
    recipient = assignee_ref task;
    activity_type = "taskOverdue";
    preview_text = "Task " <> task.id <> " is overdue";
    bot_text = "Task `" <> task.id <> "` is overdue (due " <> world.iso_date task.due_date <> ").";
    send_activity = true;
    send_bot = false;
    skip_idempotency = false;
    origin = none;
  }

  unfoldable pub notify_overdue_assignee : TaskRecord → ℕ → Session Db NotificationResult
  unfolding overdue_assignee_message
  notify_overdue_assignee task day = deliver_hybrid world clock (overdue_assignee_message task day)

  unfoldable pub overdue_creator_message : TaskRecord → ℕ → Message
  overdue_creator_message task day =
      let name = text_or task.assigned_to.display_name task.assigned_to.entra_object_id in
      record {
        event = overdue_creator;
        idempotency_key = "notify:overdue_creator:" <> world.iso_date day <> ":" <> task.id;
        recipient = creator_ref task;
        activity_type = "taskOverdueEscalation";
        preview_text = "Overdue: " <> task.id <> " for " <> name;
        bot_text = "LTM escalation: task `" <> task.id <> "` is overdue for " <> name <> ".";
        send_activity = true;
        send_bot = true;
        skip_idempotency = false;
        origin = none;
      }

  unfoldable pub notify_overdue_creator : TaskRecord → ℕ → Session Db NotificationResult
  unfolding overdue_creator_message
  notify_overdue_creator task day = deliver_hybrid world clock (overdue_creator_message task day)
