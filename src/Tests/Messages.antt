-- ===== src/Tests/Messages.antt =====
-- Messages, the daily jobs, the policy and the authentication modes at concrete inputs.
use lantern_task_manager.Domain.Enums.{dept_value}
use lantern_task_manager.Policy.Assignment.{ceo_code}
use lantern_task_manager.Policy.Assignment.{ceo_may_assign_direct_report}
use lantern_task_manager.Storage.Repository.PublicId.{decimal}
use lantern_task_manager.Base.{order_by}
use lantern_task_manager.Access.{assignee_ref}
use lantern_task_manager.Base.{
  ◌≡◌, refl, ◌≤◌, true, false, [], ◌∷◌, ok, All, strip, upper, find, lower,
}
use lantern_task_manager.Domain.Enums.{dept_eq, dept_of_value}
use lantern_task_manager.Policy.Profiles.{get_profile, parse_profile}
use lantern_task_manager.Policy.Assignment.{can_assign, assert_can_assign}
use lantern_task_manager.Auth.{graph_configured, bot_connector_configured, uses_managed_identity}
use lantern_task_manager.Storage.Repository.Row.{orm_to_record}
use lantern_task_manager.Notifications.Events.{NotificationResult, activity, bot_dm}
use lantern_task_manager.Notifications.Channels.{send_bot_dm, send_activity_notification}
use lantern_task_manager.Notifications.Service.{
  Message, deliver_hybrid, has_receipt, try_consume_idempotency, sends_bot,
}
use lantern_task_manager.Notifications.Service.Messages.{reopened_message}
use lantern_task_manager.Notifications.Service.Once.{deliver_hybrid_once}
use lantern_task_manager.Notifications.Retry.{
  retry_key, retry_row, to_retry, retry_failed_deliveries,
}
use lantern_task_manager.Base.{length, ◌+◌}
use lantern_task_manager.Storage.Orm.{Clock}
use lantern_task_manager.Notifications.Retry.Bounds.{unsent_count, retry_failed_deliveries_lem}
use lantern_task_manager.Notifications.Jobs.{
  OverdueStats, run_overdue_refresh_and_notify, skipped_run,
}
use lantern_task_manager.Notifications.Jobs.Once.{run_overdue_once}
use lantern_task_manager.Tests.Sample.{world, policy, settings, clock, db, fresh_task}

abbrev message : Message
message = reopened_message world clock (orm_to_record fresh_task) "Not paid yet"

abbrev delivered : NotificationResult
delivered = record {
  event = message.event;
  recipient_entra_id = "bob";
  idempotency_key = message.idempotency_key;
  skipped_duplicate = false;
  channels =
      record { channel = activity; ok = true; detail = "sent" }
      ∷ record { channel = bot_dm; ok = false; detail = "no_conversation_ref" }
      ∷ [];
}

sent : (deliver_hybrid world clock message db).0 ≡ ok delivered
unfolding deliver_hybrid reopened_message try_consume_idempotency sends_bot send_bot_dm
    send_activity_notification find orm_to_record bot_connector_configured uses_managed_identity
    lower strip assignee_ref graph_configured
sent = refl

deliver_hybrid_once_example :
    (again : NotificationResult) × (deliver_hybrid world clock message
        (deliver_hybrid world clock message db).1
      ≡ (ok again, (deliver_hybrid world clock message db).1))
    × (again.skipped_duplicate ≡ true)
    × (again.channels ≡ [])
unfolding reopened_message
deliver_hybrid_once_example =
    deliver_hybrid_once world clock message db {result = delivered} refl sent

retried : (retry_failed_deliveries world clock 25 db).0 ≡ ok 1
unfolding retry_failed_deliveries retry_row retry_key send_bot_dm order_by find decimal
    bot_connector_configured uses_managed_identity lower strip
retried = refl

retry_failed_deliveries_lem_example :
    (1 ≤ unsent_count world clock db (to_retry world clock 25 db))
    × (length (to_retry world clock 25 db) ≤ 25)
    × All
        (λ row. has_receipt (retry_key row) (retry_failed_deliveries world clock 25 db).1 ≡ true)
        (to_retry world clock 25 db)
retry_failed_deliveries_lem_example = retry_failed_deliveries_lem world clock 25 db retried

abbrev evening : Clock
evening = record clock { now = clock.now + 600 }

run_overdue_once_example :
    ((stats : OverdueStats) × ((run_overdue_refresh_and_notify world clock 1 db).0 ≡ ok stats))
    × (run_overdue_refresh_and_notify world evening 3
          (run_overdue_refresh_and_notify world clock 1 db).1
        ≡ (ok skipped_run, (run_overdue_refresh_and_notify world clock 1 db).1))
run_overdue_once_example = run_overdue_once world clock evening 1 3 db refl

-- The assignment is allowed in this directory.
assignment_passes : assert_can_assign policy world.employees "ann" "bob" ≡ ok tt
unfolding assert_can_assign get_profile strip parse_profile dept_of_value upper can_assign
    ceo_may_assign_direct_report ceo_code dept_value dept_eq
assignment_passes = refl

graph_ready : graph_configured settings ≡ true
unfolding graph_configured uses_managed_identity lower strip
graph_ready = refl
