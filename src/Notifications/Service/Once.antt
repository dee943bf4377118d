-- ===== src/Notifications/Service/Once.antt =====
-- `_deliver_hybrid` of notifications/service.py: receipts and the delivery log.
use lantern_task_manager.Base.{
  ◌≡◌, refl, ◌+◌, String, true, false, not, some, [], ◌∷◌, ◌++◌, arith, ok, find-append, length,
}
use text.Mathlib.TextPositions.{eq_refl}
use lantern_task_manager.Config.{World}
use lantern_task_manager.Storage.Orm.{IdempotencyRecord, NotificationDeliveryOrm, Db, Clock}
use lantern_task_manager.Notifications.Events.{NotificationResult, any_sent}
use lantern_task_manager.Notifications.Channels.Frame.{send_bot_dm_frame}
use lantern_task_manager.Notifications.Service.{
  Message, sends_bot, deliver_hybrid, has_receipt, add_receipt, receipt_key, delivery_row,
}

module _ (world : World) (clock : Clock) where
  -- A message whose key has a receipt is not sent: the result says so and nothing changes.
  pub deliver_hybrid_duplicate :
      (m : Message) (db : Db)
      → m.skip_idempotency ≡ false
      → has_receipt m.idempotency_key db ≡ true
      → ((result : NotificationResult) × (deliver_hybrid world clock m db ≡ (ok result, db))
          × (result.skipped_duplicate ≡ true)
          × (result.channels ≡ []))
  unfolding deliver_hybrid
  deliver_hybrid_duplicate m db idem seen = (
    record {
      event = m.event;
      recipient_entra_id = m.recipient.entra_object_id;
      idempotency_key = m.idempotency_key;
      skipped_duplicate = true;
      channels = [];
    },
    ground arith,
    refl,
    refl,
  )

  has_receipt-add : (key : String) (db : Db) → has_receipt key (add_receipt clock key db) ≡ true
  has_receipt-add key db =
      let row : IdempotencyRecord = record {
        key = key;
        processed_at = clock.now;
        payload = record { code = ""; text = "" };
      } in
      ground (arith, find-append receipt_key key row db.idempotency, eq_refl key)

  -- A delivery that returns leaves a receipt for its key.
  deliver_hybrid_receipt :
      (m : Message) (db : Db) {result : NotificationResult}
      → m.skip_idempotency ≡ false
      → (deliver_hybrid world clock m db).0 ≡ ok result
      → has_receipt m.idempotency_key (deliver_hybrid world clock m db).1 ≡ true
  unfolding deliver_hybrid
  deliver_hybrid_receipt m db idem h = ground (
    arith,
    has_receipt-add m.idempotency_key db,
    send_bot_dm_frame world m.recipient.entra_object_id m.recipient.display_name m.bot_text
        (add_receipt clock m.idempotency_key db),
  )

  -- A message that heeds receipts is sent once: after a delivery that returns, the same message
  -- again is skipped as a duplicate, on no channel, and changes nothing, whatever happened to the
  -- first.
  pub deliver_hybrid_once :
      (m : Message) (db : Db) {result : NotificationResult}
      → m.skip_idempotency ≡ false
      → (deliver_hybrid world clock m db).0 ≡ ok result
      → ((again : NotificationResult) × (deliver_hybrid world clock m
              (deliver_hybrid world clock m db).1
            ≡ (ok again, (deliver_hybrid world clock m db).1))
          × (again.skipped_duplicate ≡ true)
          × (again.channels ≡ []))
  deliver_hybrid_once m db idem h =
      deliver_hybrid_duplicate m (deliver_hybrid world clock m db).1 idem
        (deliver_hybrid_receipt m db idem h)

  logged :
      (m : Message) (db : Db) {result : NotificationResult}
      → (deliver_hybrid world clock m db).0 ≡ ok result
      → result.skipped_duplicate ≡ false
      → (result.idempotency_key ≡ m.idempotency_key)
        × (result.recipient_entra_id ≡ m.recipient.entra_object_id)
        × ((deliver_hybrid world clock m db).1.deliveries
            ≡ db.deliveries ++ delivery_row clock (length db.deliveries + 1) result ∷ [])
  unfolding deliver_hybrid
  logged m db h fresh =
      let sent =
        send_bot_dm_frame world m.recipient.entra_object_id m.recipient.display_name m.bot_text in
      ground (arith, sent db, sent (add_receipt clock m.idempotency_key db))

  -- A delivery that returns, and was no duplicate, has added one entry to the log. The entry is under
  -- its key, for its recipient, and asks for a retry exactly when no channel took the message.
  deliver_hybrid_logged :
      (m : Message) (db : Db) {result : NotificationResult}
      → (deliver_hybrid world clock m db).0 ≡ ok result
      → result.skipped_duplicate ≡ false
      → ((entry : NotificationDeliveryOrm) × ((deliver_hybrid world clock m db).1.deliveries
            ≡ db.deliveries ++ entry ∷ [])
          × (entry.idempotency_key ≡ m.idempotency_key)
          × (entry.recipient_entra_id ≡ m.recipient.entra_object_id)
          × (entry.needs_retry ≡ not (any_sent result.channels)))
  unfolding delivery_row
  deliver_hybrid_logged m db {result} h fresh =
      let l = logged m db h fresh in
      (delivery_row clock (length db.deliveries + 1) result, l.2, l.0, l.1, ground (arith, fresh))

  -- Nobody is messaged by the bot about what they did themselves, when the settings spare them.
  pub sends_bot_self :
      (m : Message)
      → m.origin ≡ some m.recipient.entra_object_id
      → world.settings.self_notification_activity_only_enabled ≡ true
      → sends_bot world clock m ≡ false
  unfolding sends_bot
  sends_bot_self m self spare = ground (arith, eq_refl m.recipient.entra_object_id)
