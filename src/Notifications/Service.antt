-- ===== src/Notifications/Service.antt =====
-- notifications/service.py: `NotificationService`. The Adaptive Cards that go with a message are
-- rendered elsewhere and are left out.
pub mod Messages
pub mod Once
pub mod Frame
use lantern_task_manager.Base.{
  ℕ, ◌+◌, String, ◌<>◌, Bool, true, false, not, ◌&&◌, ◌||◌, Option, none, some, List, [], ◌∷◌, ◌++◌,
  ◌==◌, if◌then◌else◌, truthy, text_or, strip, clip, Session, Outcome, ok, raised, pure, ◌>>=◌,
  ◌>>◌, find, any_of, length, modify,
}
use lantern_task_manager.Domain.Enums.{AuditEvent}
use lantern_task_manager.Domain.Models.{TaskRecord, UserRef}
use lantern_task_manager.Config.{World}
use lantern_task_manager.Access.{assignee_ref, creator_ref, verifier_ref}
use lantern_task_manager.Storage.Orm.{IdempotencyRecord, NotificationDeliveryOrm, Db, Clock}
use lantern_task_manager.Storage.Repository.PublicId.{decimal}
use lantern_task_manager.Storage.Repository.Sweep.{append_audit}
use lantern_task_manager.Notifications.Events.{
  NotificationEvent, welcome, task_assigned, verify_requested, task_reopened, task_verified,
  daily_summary, overdue_assignee, overdue_creator, event_value, activity, bot_dm, is_activity,
  ChannelResult, NotificationResult, any_sent, summary,
}
use lantern_task_manager.Notifications.Channels.{Sent, send_activity_notification, send_bot_dm}

abbrev pub receipt_key : IdempotencyRecord → String
receipt_key row = row.key

abbrev pub has_receipt : String → Db → Bool
has_receipt key db = elim (find receipt_key key db.idempotency) [ none ↦ false | some r ↦ true ]

-- `IdempotencyRecord(key=key, payload="{}")`, added and flushed.
abbrev pub add_receipt : Clock → String → Db → Db
add_receipt clock key db = record db {
  idempotency =
      db.idempotency
      ++ record { key = key; processed_at = clock.now; payload = record { code = ""; text = "" } }
        ∷ [];
}

-- `_try_consume_idempotency`, and `_consume_idempotency` of the jobs.
unfoldable pub try_consume_idempotency : Clock → String → Session Db Bool
try_consume_idempotency clock key db =
    if has_receipt key db then (ok false, db) else (ok true, add_receipt clock key db)

-- The row that `_log_delivery` adds.
unfoldable pub delivery_row : Clock → ℕ → NotificationResult → NotificationDeliveryOrm
delivery_row clock id result = record {
  id = id;
  idempotency_key = result.idempotency_key;
  event = event_value result.event;
  recipient_entra_id = result.recipient_entra_id;
  summary = clip 500 (summary result);
  activity_ok = any_of (λ (c : ChannelResult). is_activity c.channel && c.ok) result.channels;
  bot_dm_ok = any_of (λ (c : ChannelResult). not (is_activity c.channel) && c.ok) result.channels;
  needs_retry = not result.skipped_duplicate && not (any_sent result.channels);
  processed_at = clock.now;
}

-- `_log_delivery`
unfoldable pub log_delivery : Clock → NotificationResult → Session Db (Unit {0})
log_delivery clock result db = (
  ok tt,
  record db {
    deliveries = db.deliveries ++ delivery_row clock (length db.deliveries + 1) result ∷ [];
  },
)

-- The arguments of `_deliver_hybrid`. `origin` is the actor who caused the notification.
pub record Message : Type 0 where
  pub event : NotificationEvent
  pub idempotency_key : String
  pub recipient : UserRef
  pub activity_type : String
  pub preview_text : String
  pub bot_text : String
  pub send_activity : Bool
  pub send_bot : Bool
  pub skip_idempotency : Bool
  pub origin : Option String

module _ (world : World) (clock : Clock) where
  -- The bot channel, unless the recipient is the actor and the settings spare them.
  unfoldable pub sends_bot : Message → Bool
  sends_bot m = elim m.origin [
    | none ↦ m.send_bot
    | some actor ↦
        if world.settings.self_notification_activity_only_enabled
          && m.recipient.entra_object_id == actor
        then false
        else m.send_bot
  ]

  abbrev activity_part : Message → List ChannelResult
  activity_part m =
      let (sent, detail) =
        send_activity_notification world m.recipient.entra_object_id m.activity_type
          m.preview_text in
      if m.send_activity then record { channel = activity; ok = sent; detail = detail } ∷ [] else []

  abbrev bot_sent : Sent → List ChannelResult
  bot_sent (sent, detail) = record { channel = bot_dm; ok = sent; detail = detail } ∷ []

  abbrev bot_part : Message → Session Db (List ChannelResult)
  bot_part m =
      if sends_bot m
      then (do
        sent ← send_bot_dm world m.recipient.entra_object_id m.recipient.display_name m.bot_text
        pure (bot_sent sent))
      else pure []

  abbrev result_of : Message → Bool → List ChannelResult → NotificationResult
  result_of m skipped channels = record {
    event = m.event;
    recipient_entra_id = m.recipient.entra_object_id;
    idempotency_key = m.idempotency_key;
    skipped_duplicate = skipped;
    channels = channels;
  }

  abbrev send_and_log : Message → Session Db NotificationResult
  send_and_log m = do
    bot ← bot_part m
    let result = result_of m false (activity_part m ++ bot)
    log_delivery clock result
    pure result

  abbrev admitted : Message → Session Db Bool
  admitted m =
      if m.skip_idempotency then pure true else try_consume_idempotency clock m.idempotency_key

  -- `_deliver_hybrid`
  unfoldable pub deliver_hybrid : Message → Session Db NotificationResult
  unfolding try_consume_idempotency log_delivery
  deliver_hybrid m = do
    fresh ← admitted m
    if fresh then send_and_log m else pure (result_of m true [])
