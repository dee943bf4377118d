-- ===== src/Storage/Repository/Lifecycle.antt =====
-- The lifecycle methods of `TaskRepository`. Where the source assigns attributes without setting
-- `updated_at`, the column's `onupdate` sets it as the row is flushed.
pub mod Behaviour
pub mod Moving
pub mod Trail
pub mod Invariant
use lantern_task_manager.Base.{
  String, ◌<>◌, Bool, true, false, not, ◌&&◌, ◌||◌, some, ◌==◌, if◌then◌else◌, Session, pure, raise,
  ensure, ok, raised, value_error, ◌>>=◌, ◌>>◌, gets, Option, none,
}
use lantern_task_manager.Domain.Enums.{
  TaskStatus, AuditEvent, status_eq, status_value, in_progress, pending_verification,
}
use lantern_task_manager.Domain.Models.{TaskRecord, CloseTaskParams}
use lantern_task_manager.Domain.StateMachine.{can_transition}
use lantern_task_manager.Storage.Orm.{TaskOrm, Db, Clock}
use lantern_task_manager.Storage.Repository.Row.{
  orm_to_record, find_task, save, require_row, with_audit,
}

-- `get`
unfoldable pub get : String → Session Db (Option TaskRecord)
get task_id db =
    (ok (elim (find_task task_id db) [ none ↦ none | some row ↦ some (orm_to_record row) ]), db)

-- `_transition`
unfoldable pub transition :
    Clock → TaskOrm → TaskStatus → String → AuditEvent → String → Session Db TaskOrm
transition clock row target actor event details =
    if can_transition row.status target false
    then save (record row {
      status = target;
      updated_at = clock.now;
      audit_trail = with_audit clock event actor details row.audit_trail;
    })
    else raise (
        value_error
          ("Cannot move task from " <> status_value row.status <> " to " <> status_value target))

module _ (clock : Clock) where
  unfoldable pub assignee_acknowledge : String → String → Session Db TaskRecord
  unfolding transition
  assignee_acknowledge task_id assignee = do
    row ← require_row task_id
    ensure (row.assigned_to_entra_id == assignee)
        (value_error "Only the assignee can acknowledge this task")
    ensure (status_eq row.status TaskStatus.assigned)
        (value_error "Task is not awaiting acknowledgement")
    row' ← transition clock row in_progress assignee AuditEvent.acknowledged ""
    pure (orm_to_record row')

  unfoldable pub assignee_resume : String → String → Session Db TaskRecord
  unfolding transition
  assignee_resume task_id assignee = do
    row ← require_row task_id
    ensure (row.assigned_to_entra_id == assignee)
        (value_error "Only the assignee can resume this task")
    ensure (status_eq row.status TaskStatus.reopened) (value_error "Task is not reopened")
    row' ← transition clock row in_progress assignee AuditEvent.resumed ""
    pure (orm_to_record row')

  -- The acknowledgement that a close implies, when the task was never acknowledged.
  unfoldable pub implicit_acknowledgement : TaskOrm → String → Session Db TaskOrm
  unfolding transition
  implicit_acknowledgement row actor =
      if status_eq row.status TaskStatus.assigned
      then transition clock row in_progress actor AuditEvent.acknowledged
          "Implicit acknowledgement on close"
      else pure row

  unfoldable pub mark_pending_closure_from_assignee :
      CloseTaskParams → String → Session Db TaskRecord
  unfolding implicit_acknowledgement
  mark_pending_closure_from_assignee params assignee = do
    row ← require_row params.task_id
    ensure (row.assigned_to_entra_id == assignee)
        (value_error "Only the assignee can close this task")
    started ← implicit_acknowledgement row assignee
    noted ← save (record started {
      closure_notes = params.completion_notes;
      closed_at = some clock.now;
      updated_at = clock.now;
    })
    row' ←
        transition clock noted pending_verification assignee AuditEvent.closure_requested
          params.completion_notes
    pure (orm_to_record row')

  unfoldable pub close_and_verify_self : CloseTaskParams → String → Session Db TaskRecord
  unfolding implicit_acknowledgement with_audit
  close_and_verify_self params actor = do
    row ← require_row params.task_id
    ensure (row.assigned_to_entra_id == actor && row.created_by_entra_id == actor)
        (value_error "Self-verification requires the creator and assignee to be the actor")
    started ← implicit_acknowledgement row actor
    ensure (status_eq started.status in_progress || status_eq started.status TaskStatus.reopened)
        (value_error ("Cannot close task from " <> status_value started.status))
    row' ← save (record started {
      closure_notes = params.completion_notes;
      closed_at = some clock.now;
      audit_trail =
          with_audit clock AuditEvent.verified actor "Automatic triple-role verification" (
            with_audit clock AuditEvent.closure_requested actor params.completion_notes
              started.audit_trail);
      status = TaskStatus.verified;
      verified_at = some clock.now;
      updated_at = clock.now;
    })
    pure (orm_to_record row')

  unfoldable pub manager_confirm : String → String → Session Db TaskRecord
  unfolding with_audit
  manager_confirm task_id manager = do
    row ← require_row task_id
    ensure (status_eq row.status pending_verification)
        (value_error "Task is not pending verification")
    row' ← save (record row {
      status = TaskStatus.verified;
      verified_at = some clock.now;
      updated_at = clock.now;
      audit_trail = with_audit clock AuditEvent.verified manager "" row.audit_trail;
    })
    pure (orm_to_record row')

  unfoldable pub manager_reject : String → String → String → Session Db TaskRecord
  unfolding with_audit
  manager_reject task_id manager reason = do
    row ← require_row task_id
    ensure (status_eq row.status pending_verification)
        (value_error "Task is not pending verification")
    row' ← save (record row {
      status = TaskStatus.reopened;
      rejection_reason = reason;
      updated_at = clock.now;
      audit_trail = with_audit clock AuditEvent.reopened manager reason row.audit_trail;
    })
    pure (orm_to_record row')
