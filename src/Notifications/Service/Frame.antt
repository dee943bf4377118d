-- ===== src/Notifications/Service/Frame.antt =====
-- The tables that the notifications of notifications/service.py write.
use lantern_task_manager.Base.{
  ◌≡◌, ◌∙◌, String, Option, some, ◌==◌, eq_iff, arith, find-write_self, find-write_ne, find-key,
  Option-cases, Bool-cases, Outcome-cases, inl, inr, ◌<>◌,
}
use lantern_task_manager.Domain.Enums.{AuditEvent}
use lantern_task_manager.Domain.Models.{TaskRecord}
use lantern_task_manager.Notifications.Events.{summary}
use lantern_task_manager.Config.{World}
use lantern_task_manager.Storage.Orm.{TaskOrm, Db, Clock}
use lantern_task_manager.Storage.Repository.Row.{find_task, task_key, with_audit}
use lantern_task_manager.Storage.Repository.Sweep.{append_audit}
use lantern_task_manager.Notifications.Channels.Frame.{send_bot_dm_frame}
use lantern_task_manager.Notifications.Service.{Message, deliver_hybrid, add_receipt}
use lantern_task_manager.Notifications.Service.Messages.{
  notify_task_verified, notify_verify_requested, notify_task_reopened, notify_task_assigned,
  assigned_message,
}

-- An audit entry leaves every task in its place.
audit_find :
    (clock : Clock) (task_id : String) (event : AuditEvent) (actor details k : String) (db : Db)
    {row : TaskOrm}
    → find_task k db ≡ some row
    → ((row' : TaskOrm) × (find_task k (append_audit clock task_id event actor details db).1
          ≡ some row'))
unfolding append_audit
audit_find clock task_id event actor details k db {row} h =
    elim (Option-cases (find_task task_id db)) [
      | inl absent ↦ (row, ground (arith, absent, h))
      | inr (old, found) ↦
          let same = find-key task_key task_id db.tasks found in
          let new : TaskOrm = record old {
            audit_trail = with_audit clock event actor details old.audit_trail;
            updated_at = clock.now;
          } in
          elim (Bool-cases (task_id == k)) [
            | inl e ↦
                let this = (eq_iff task_id k).0 e in
                (
                  new,
                  ground (arith, found, find-write_self task_key k new db.tasks h (same ∙ this)),
                )
            | inr e ↦ (row, grind (arith, found, find-write_ne, h))
          ]
    ]

module _ (world : World) (clock : Clock) where
  -- A delivery leaves the tasks, their counters and the drafts as they were.
  pub deliver_hybrid_frame :
      (m : Message) (db : Db)
      → ((deliver_hybrid world clock m db).1.tasks ≡ db.tasks)
        × ((deliver_hybrid world clock m db).1.counters ≡ db.counters)
        × ((deliver_hybrid world clock m db).1.drafts ≡ db.drafts)
  unfolding deliver_hybrid
  deliver_hybrid_frame m db =
      let sent =
        send_bot_dm_frame world m.recipient.entra_object_id m.recipient.display_name m.bot_text in
      let a = sent db in
      let b = sent (add_receipt clock m.idempotency_key db) in
      (ground (arith, a, b), ground (arith, a, b), ground (arith, a, b))

  module _ (db : Db) where
    pub verified_tasks :
        (task : TaskRecord) (origin : Option String)
        → (notify_task_verified world clock task origin db).1.tasks ≡ db.tasks
    unfolding notify_task_verified
    verified_tasks task origin = (deliver_hybrid_frame _ db).0

    pub verify_requested_tasks :
        (task : TaskRecord) (origin : Option String)
        → (notify_verify_requested world clock task origin db).1.tasks ≡ db.tasks
    unfolding notify_verify_requested
    verify_requested_tasks task origin = (deliver_hybrid_frame _ db).0

    pub reopened_tasks :
        (task : TaskRecord) (reason : String)
        → (notify_task_reopened world clock task reason db).1.tasks ≡ db.tasks
    unfolding notify_task_reopened
    reopened_tasks task reason = (deliver_hybrid_frame _ db).0

  -- The message to an assignee leaves the drafts and counters, keeps every task in its place, and
  -- takes no task away.
  module _ (db : Db) (task : TaskRecord) (origin : Option String) where
    pub assigned_drafts : (notify_task_assigned world clock task origin db).1.drafts ≡ db.drafts
    unfolding notify_task_assigned append_audit
    assigned_drafts = grind (arith, deliver_hybrid_frame _ db)

    pub assigned_find :
        (k : String) {row : TaskOrm}
        → find_task k db ≡ some row
        → ((row' : TaskOrm) × (find_task k (notify_task_assigned world clock task origin db).1
              ≡ some row'))
    unfolding notify_task_assigned
    assigned_find k {row} h =
        let m = assigned_message world clock task origin in
        let d = (deliver_hybrid world clock m db).1 in
        let still : find_task k d ≡ some row = rw (deliver_hybrid_frame m db).0 h in
        elim (Outcome-cases (deliver_hybrid world clock m db).0) [
          | inr (e, failed) ↦ (row, ground (arith, failed, still))
          | inl (result, sent) ↦
              let (row', there) =
                audit_find clock task.id AuditEvent.notified "SYSTEM"
                  ("assignee:" <> summary result) k d still in
              (row', ground (arith, sent, there))
        ]
