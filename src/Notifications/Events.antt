-- ===== src/Notifications/Events.antt =====
-- notifications/events.py
use lantern_task_manager.Base.{
  String, ◌<>◌, Bool, true, false, List, [], ◌∷◌, any_of, if◌then◌else◌, clip,
}

pub data NotificationEvent : Type 0 where
  welcome task_assigned verify_requested task_reopened : NotificationEvent
  task_verified daily_summary overdue_assignee overdue_creator : NotificationEvent

unfoldable pub event_value : NotificationEvent → String
event_value welcome = "welcome"
event_value task_assigned = "task_assigned"
event_value verify_requested = "verify_requested"
event_value task_reopened = "task_reopened"
event_value task_verified = "task_verified"
event_value daily_summary = "daily_summary"
event_value overdue_assignee = "overdue_assignee"
event_value overdue_creator = "overdue_creator"

pub data DeliveryChannel : Type 0 where
  activity bot_dm : DeliveryChannel

abbrev channel_value : DeliveryChannel → String
channel_value activity = "activity"
channel_value bot_dm = "bot_dm"

abbrev pub is_activity : DeliveryChannel → Bool
is_activity activity = true
is_activity bot_dm = false

pub record ChannelResult : Type 0 where
  pub channel : DeliveryChannel
  pub ok : Bool
  pub detail : String

pub record NotificationResult : Type 0 where
  pub event : NotificationEvent
  pub recipient_entra_id : String
  pub idempotency_key : String
  pub skipped_duplicate : Bool
  pub channels : List ChannelResult

-- The property `any_sent`.
abbrev pub any_sent : List ChannelResult → Bool
any_sent channels = any_of (λ c. c.ok) channels

channel_part : ChannelResult → String
channel_part c =
    channel_value c.channel <> "=" <> (if c.ok then "ok" else "fail") <> ":" <> clip 80 c.detail

joined : List ChannelResult → String
joined [] = ""
joined (c ∷ []) = channel_part c
joined (c ∷ d ∷ channels) = channel_part c <> "; " <> joined (d ∷ channels)

unfoldable pub summary : NotificationResult → String
unfolding joined channel_part
summary result =
    if result.skipped_duplicate
    then "skipped_duplicate"
    else elim result.channels [ [] ↦ "no_channels" | c ∷ channels ↦ joined result.channels ]
