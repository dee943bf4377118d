-- ===== src/Notifications/Retry.antt =====
-- `retry_failed_deliveries` of notifications/service.py.
pub mod Bounds
use lantern_task_manager.Base.{
  ℕ, ◌+◌, String, ◌<>◌, Bool, true, false, not, ◌&&◌, ◌||◌, List, [], ◌∷◌, ◌++◌, eqb, if◌then◌else◌,
  Session, Outcome, ok, pure, ◌>>=◌, ◌>>◌, keep, take, order_by, modify,
}
use lantern_task_manager.Config.{World}
use lantern_task_manager.Storage.Orm.{NotificationDeliveryOrm, Db, Clock}
use lantern_task_manager.Storage.Repository.PublicId.{decimal}
use lantern_task_manager.Notifications.Channels.{Sent, send_activity_notification, send_bot_dm}
use lantern_task_manager.Notifications.Service.{has_receipt, add_receipt}

-- A write to one row of the delivery log.
unfoldable pub write_delivery :
    NotificationDeliveryOrm → List NotificationDeliveryOrm → List NotificationDeliveryOrm
write_delivery row [] = []
write_delivery row (x ∷ rows) = if eqb x.id row.id then row ∷ rows else x ∷ write_delivery row rows

unfoldable pub retry_key : NotificationDeliveryOrm → String
retry_key row = row.idempotency_key <> ":retry:" <> decimal row.id

abbrev shown : Bool → String
shown true = "True"
shown false = "False"

abbrev pub retried_row : NotificationDeliveryOrm → Bool → Bool → NotificationDeliveryOrm
retried_row row ok_act ok_bot = record row {
  needs_retry = not (ok_act || ok_bot);
  summary = "retry:activity=" <> shown ok_act <> ",bot=" <> shown ok_bot;
}

abbrev pub put_delivery : NotificationDeliveryOrm → Db → Db
put_delivery row db = record db { deliveries = write_delivery row db.deliveries }

module _ (world : World) (clock : Clock) where
  abbrev resend : NotificationDeliveryOrm → Session Db ℕ
  resend row = do
    bot ← send_bot_dm world row.recipient_entra_id "" ("LTM reminder: " <> row.event)
    let act =
        send_activity_notification world row.recipient_entra_id row.event
          ("LTM reminder (" <> row.event <> ")")
    modify (λ db. put_delivery (retried_row row act.0 bot.0) (add_receipt clock (retry_key row) db))
    pure 1

  -- The body of the loop, with 1 for a row that was sent again.
  unfoldable pub retry_row : NotificationDeliveryOrm → Session Db ℕ
  retry_row row db =
      if has_receipt (retry_key row) db
      then (ok 0, put_delivery (record row { needs_retry = false }) db)
      else resend row db

  unfoldable pub retry_rows : List NotificationDeliveryOrm → Session Db ℕ
  retry_rows [] = pure 0
  retry_rows (row ∷ rows) = do n ← retry_row row; rest ← retry_rows rows; pure (n + rest)

  abbrev pub to_retry : ℕ → Db → List NotificationDeliveryOrm
  to_retry limit db = take limit (
      order_by (λ (r : NotificationDeliveryOrm). r.processed_at)
        (keep (λ (r : NotificationDeliveryOrm). r.needs_retry) db.deliveries))

  unfoldable pub retry_failed_deliveries : ℕ → Session Db ℕ
  unfolding retry_rows
  retry_failed_deliveries limit db = retry_rows (to_retry limit db) db
