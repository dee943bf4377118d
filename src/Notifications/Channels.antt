-- ===== src/Notifications/Channels.antt =====
-- notifications/activity_feed.py, notifications/bot_delivery.py and
-- storage/conversation_bindings.py: the two ways to reach a user.
pub mod Frame
use lantern_task_manager.Base.{
  ℕ, String, ◌<>◌, Bool, true, false, not, Option, none, some, List, [], ◌∷◌, ◌++◌, ◌==◌, leb,
  if◌then◌else◌, truthy, text_or, strip, clip, Session, Outcome, ok, raised, pure, ◌>>=◌, find,
  write,
}
use lantern_task_manager.Config.{World, Reply, status, failed}
use lantern_task_manager.Auth.{graph_configured, bot_connector_configured}
use lantern_task_manager.Storage.Orm.{ConversationBinding, Db}
use lantern_task_manager.Storage.Repository.PublicId.{decimal}

-- What was sent, and a word on it.
abbrev pub Sent : Type 0
Sent = Bool × String

abbrev posted : Reply → Sent
posted (status code) = if leb 400 code then (false, "http_" <> decimal code) else (true, "sent")
posted (failed message) = (false, clip 120 message)

unfoldable pub send_activity_notification : World → String → String → String → Sent
unfolding decimal
send_activity_notification world user activity_type preview =
    if not world.settings.notification_activity_enabled
    then (false, "activity_disabled")
    else if not (graph_configured world.settings)
    then (false, "graph_not_configured")
    else if not (truthy (strip world.settings.teams_app_id))
    then (false, "teams_app_id_missing")
    else posted (world.post_activity user activity_type (clip 150 preview))

abbrev pub binding_key : ConversationBinding → String
binding_key row = row.user_entra_id

abbrev ref_of : Option ConversationBinding → Option String
ref_of none = none
ref_of (some row) = some row.ref_json

-- `ConversationBindingRepository.get_ref`
unfoldable pub get_ref : String → Session Db (Option String)
get_ref user db = (ok (ref_of (find binding_key user db.bindings)), db)

-- `ConversationBindingRepository.upsert`
unfoldable pub upsert : String → String → Session Db (Unit {0})
upsert user ref db =
    let row : ConversationBinding = record { user_entra_id = user; ref_json = ref } in
    (
      ok tt,
      record db {
        bindings = elim (find binding_key user db.bindings) [
          | none ↦ db.bindings ++ row ∷ []
          | some old ↦ write binding_key row db.bindings
        ];
      },
    )

-- `create_personal_conversation_ref`
unfoldable pub create_personal_conversation_ref :
    World → String → String → Session Db (Option String)
create_personal_conversation_ref world user name db =
    if not (bot_connector_configured world.settings)
    then (ok none, db)
    else if not
        (truthy (strip (text_or world.settings.teams_app_tenant_id world.settings.tenant_id)))
    then (ok none, db)
    else (world.create_conversation user name, db)

-- The message itself, and the binding of the user to the conversation that took it.
abbrev deliver : World → String → String → Bool → String → Session Db Sent
deliver world user text created ref db = elim (world.send_message ref text) [
  | some message ↦ (ok (false, clip 120 message), db)
  | none ↦ (ok (true, if created then "created_and_sent" else "sent"), (upsert user ref db).1)
]

abbrev with_ref : World → String → String → Bool → Option String → Session Db Sent
with_ref world user text created none db = (ok (false, "no_conversation_ref"), db)
with_ref world user text created (some ref) db = deliver world user text created ref db

abbrev known_or_new : World → String → String → String → Option String → Session Db Sent
known_or_new world user name text (some ref) = with_ref world user text false (some ref)
known_or_new world user name text none = do
  ref ← create_personal_conversation_ref world user name
  with_ref world user text true ref

unfoldable pub send_bot_dm : World → String → String → String → Session Db Sent
unfolding get_ref upsert create_personal_conversation_ref
send_bot_dm world user name text =
    if not world.settings.notification_bot_dm_enabled
    then pure (false, "bot_dm_disabled")
    else if not (bot_connector_configured world.settings)
    then pure (false, "bot_connector_not_configured")
    else do ref ← get_ref user; known_or_new world user name text ref
