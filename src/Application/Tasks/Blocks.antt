-- ===== src/Application/Tasks/Blocks.antt =====
-- For `TaskUseCases`: its sessions, and the repository methods that they call.
use lantern_task_manager.Base.{
  ◌≡◌, ◌∙◌, String, Bool, true, false, some, ◌==◌, arith, if◌then◌else◌, ok, Session, inl, inr,
}
use lantern_task_manager.Domain.Enums.{TaskStatus}
use lantern_task_manager.Domain.Models.{UserRef, TaskRecord, CloseTaskParams}
use lantern_task_manager.Config.{World}
use lantern_task_manager.Access.{is_verifier}
use lantern_task_manager.Storage.Orm.{TaskOrm, Db, Clock}
use lantern_task_manager.Storage.Repository.Row.{orm_to_record, find_task}
use lantern_task_manager.Storage.Repository.Lifecycle.{get, manager_confirm, manager_reject}
use lantern_task_manager.Storage.Repository.Lifecycle.Behaviour.{
  close as closing, self_close, perform,
}
use lantern_task_manager.Notifications.Events.{NotificationResult}
use lantern_task_manager.Application.Results.{UseCaseResult, returned, reached}
use lantern_task_manager.Application.Tasks.{
  close_block, verify_block, reopen_block, auto_verify, notify,
}
use lantern_task_manager.Application.Tasks.Outcomes.{notify_lem}

-- The task that a later read finds is the one in the result.
abbrev pub Holds : String → UseCaseResult TaskRecord → TaskStatus → Db → Type 0
Holds task_id r status db =
    (rec : TaskRecord) × (r.value ≡ some rec)
    × ((get task_id db).0 ≡ ok (some rec))
    × (rec.status ≡ status)

get-tasks :
    (task_id : String) (d e : Db) → d.tasks ≡ e.tasks → (get task_id d).0 ≡ (get task_id e).0
unfolding get
get-tasks task_id d e h = ground (arith, h)

-- A notification changes neither the result's task nor the tables of tasks.
pub notify_keeps :
    (task_id : String) (result : UseCaseResult TaskRecord) (send : Session Db NotificationResult)
    (d : Db) (rec : TaskRecord) {r : UseCaseResult TaskRecord}
    → (send d).1.tasks ≡ d.tasks
    → result.value ≡ some rec
    → (get task_id d).0 ≡ ok (some rec)
    → (notify result send d).0 ≡ ok r
    → (r.value ≡ some rec) × ((get task_id (notify result send d).1).0 ≡ ok (some rec))
notify_keeps task_id result send d rec same value read h = elim (notify_lem result send d) [
  | inl (n, sent, e) ↦
      (ground (arith, e, h, value), rw e (get-tasks task_id (send d).1 d same ∙ read))
  | inr (n, failed, e) ↦ (ground (arith, e, h, value), rw e read)
]

module _ (world : World) (clock : Clock) (actor : UserRef) (db : Db) where
  pub verify_reached :
      (task_id : String) {rec : TaskRecord}
      → (verify_block world clock task_id actor db).0 ≡ ok (reached rec)
      → ((manager_confirm clock task_id actor.entra_object_id db).0 ≡ ok rec)
        × ((verify_block world clock task_id actor db).1
            ≡ (manager_confirm clock task_id actor.entra_object_id db).1)
  unfolding verify_block
  verify_reached task_id h = (ground (arith, h), ground (arith, h))

  pub reopen_reached :
      (task_id reason : String) {rec : TaskRecord}
      → (reopen_block world clock task_id reason actor db).0 ≡ ok (reached rec)
      → ((manager_reject clock task_id actor.entra_object_id reason db).0 ≡ ok rec)
        × ((reopen_block world clock task_id reason actor db).1
            ≡ (manager_reject clock task_id actor.entra_object_id reason db).1)
  unfolding reopen_block
  reopen_reached task_id reason h = (ground (arith, h), ground (arith, h))

  pub close_reached :
      (params : CloseTaskParams) {auto : Bool} {rec : TaskRecord}
      → (close_block world clock params actor db).0 ≡ ok (reached (auto, rec))
      → ((perform clock
            (if auto
              then self_close params actor.entra_object_id
              else closing params actor.entra_object_id)
            db).0
          ≡ ok rec)
        × ((close_block world clock params actor db).1
            ≡ (perform clock
                (if auto
                  then self_close params actor.entra_object_id
                  else closing params actor.entra_object_id)
                db).1)
  unfolding close_block perform
  close_reached params h = (ground (arith, h), ground (arith, h))

  pub verify_returned :
      (task_id : String) {r : UseCaseResult TaskRecord}
      → (verify_block world clock task_id actor db).0 ≡ ok (returned r)
      → r.ok ≡ false
  unfolding verify_block
  verify_returned task_id h = ground (arith, h)

  pub reopen_returned :
      (task_id reason : String) {r : UseCaseResult TaskRecord}
      → (reopen_block world clock task_id reason actor db).0 ≡ ok (returned r)
      → r.ok ≡ false
  unfolding reopen_block
  reopen_returned task_id reason h = ground (arith, h)

  pub close_returned :
      (params : CloseTaskParams) {r : UseCaseResult TaskRecord}
      → (close_block world clock params actor db).0 ≡ ok (returned r)
      → r.ok ≡ false
  unfolding close_block
  close_returned params h = ground (arith, h)

  pub verify_guarded :
      (task_id : String) (row : TaskOrm) {rec : TaskRecord}
      → find_task task_id db ≡ some row
      → (verify_block world clock task_id actor db).0 ≡ ok (reached rec)
      → is_verifier world actor.entra_object_id (orm_to_record row) ≡ true
  unfolding verify_block
  verify_guarded task_id row found h = ground (arith, found, h)

  pub reopen_guarded :
      (task_id reason : String) (row : TaskOrm) {rec : TaskRecord}
      → find_task task_id db ≡ some row
      → (reopen_block world clock task_id reason actor db).0 ≡ ok (reached rec)
      → is_verifier world actor.entra_object_id (orm_to_record row) ≡ true
  unfolding reopen_block
  reopen_guarded task_id reason row found h = ground (arith, found, h)

  pub close_guarded :
      (params : CloseTaskParams) (row : TaskOrm) {auto : Bool} {rec : TaskRecord}
      → find_task params.task_id db ≡ some row
      → (close_block world clock params actor db).0 ≡ ok (reached (auto, rec))
      → ((row.assigned_to_entra_id == actor.entra_object_id) ≡ true)
        × (auto ≡ auto_verify world clock (orm_to_record row) actor)
  unfolding close_block orm_to_record
  close_guarded params row found h = (ground (arith, found, h), ground (arith, found, h))
