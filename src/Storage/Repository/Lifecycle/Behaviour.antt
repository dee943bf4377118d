-- ===== src/Storage/Repository/Lifecycle/Behaviour.antt =====
-- The lifecycle methods of `TaskRepository` as one function, and the statuses before and after.
use lantern_task_manager.Base.{◌≡◌, ◌⊎◌, String, true, false, some, arith, ok, Session}
use lantern_task_manager.Domain.Enums.{
  assigned, in_progress, pending_verification, verified, reopened,
}
use lantern_task_manager.Domain.Models.{TaskRecord, CloseTaskParams}
use lantern_task_manager.Domain.StateMachine.{can_transition}
use lantern_task_manager.Storage.Orm.{TaskOrm, Db, Clock}
use lantern_task_manager.Storage.Repository.Row.{orm_to_record, find_task}
use lantern_task_manager.Storage.Repository.Lifecycle.{
  assignee_acknowledge, assignee_resume, mark_pending_closure_from_assignee, close_and_verify_self,
  manager_confirm, manager_reject,
}

-- The lifecycle methods with their arguments.
pub data Operation : Type 0 where
  acknowledge resume confirm : String → String → Operation
  close self_close : CloseTaskParams → String → Operation
  reject : String → String → String → Operation

abbrev pub target : Operation → String
target (acknowledge task_id actor) = task_id
target (resume task_id actor) = task_id
target (confirm task_id actor) = task_id
target (close params actor) = params.task_id
target (self_close params actor) = params.task_id
target (reject task_id actor reason) = task_id

unfoldable pub perform : Clock → Operation → Session Db TaskRecord
perform clock (acknowledge task_id actor) = assignee_acknowledge clock task_id actor
perform clock (resume task_id actor) = assignee_resume clock task_id actor
perform clock (confirm task_id actor) = manager_confirm clock task_id actor
perform clock (close params actor) = mark_pending_closure_from_assignee clock params actor
perform clock (self_close params actor) = close_and_verify_self clock params actor
perform clock (reject task_id actor reason) = manager_reject clock task_id actor reason

module _ (clock : Clock) (db : Db) {row : TaskOrm} {rec : TaskRecord} where
  pub acknowledge_status :
      (task_id actor : String)
      → find_task task_id db ≡ some row
      → (assignee_acknowledge clock task_id actor db).0 ≡ ok rec
      → (row.status ≡ assigned) × (rec.status ≡ in_progress)
  unfolding assignee_acknowledge orm_to_record
  acknowledge_status task_id actor found h = ground arith

  pub resume_status :
      (task_id actor : String)
      → find_task task_id db ≡ some row
      → (assignee_resume clock task_id actor db).0 ≡ ok rec
      → (row.status ≡ reopened) × (rec.status ≡ in_progress)
  unfolding assignee_resume orm_to_record
  resume_status task_id actor found h = ground arith

  pub close_status :
      (params : CloseTaskParams) (actor : String)
      → find_task params.task_id db ≡ some row
      → (mark_pending_closure_from_assignee clock params actor db).0 ≡ ok rec
      → (rec.status ≡ pending_verification)
        × ((row.status ≡ assigned) ⊎ (can_transition row.status pending_verification false ≡ true))
  unfolding mark_pending_closure_from_assignee orm_to_record
  close_status params actor found h = ground arith

  pub self_close_status :
      (params : CloseTaskParams) (actor : String)
      → find_task params.task_id db ≡ some row
      → (close_and_verify_self clock params actor db).0 ≡ ok rec
      → (rec.status ≡ verified)
        × ((row.status ≡ assigned) ⊎ (row.status ≡ in_progress) ⊎ (row.status ≡ reopened))
  unfolding close_and_verify_self orm_to_record
  self_close_status params actor found h = ground arith

  pub confirm_status :
      (task_id actor : String)
      → find_task task_id db ≡ some row
      → (manager_confirm clock task_id actor db).0 ≡ ok rec
      → (row.status ≡ pending_verification) × (rec.status ≡ verified)
  unfolding manager_confirm orm_to_record
  confirm_status task_id actor found h = ground arith

  pub reject_status :
      (task_id actor reason : String)
      → find_task task_id db ≡ some row
      → (manager_reject clock task_id actor reason db).0 ≡ ok rec
      → (row.status ≡ pending_verification) × (rec.status ≡ reopened)
  unfolding manager_reject orm_to_record
  reject_status task_id actor reason found h = ground arith
