-- ===== src/Application/Tasks/Effects.antt =====
-- The results of `TaskUseCases.close`, `verify` and `reopen`, and the rows that they leave.
use lantern_task_manager.Base.{
  ◌≡◌, refl, sym, String, ◌<>◌, Bool, true, false, Option, none, some, ◌==◌, arith, if◌then◌else◌,
  Outcome, ok, raised, write,
}
use lantern_task_manager.Domain.Enums.{
  TaskStatus, status_eq, status_value, pending_verification, verified, reopened,
}
use lantern_task_manager.Domain.Models.{UserRef, TaskRecord, CloseTaskParams}
use lantern_task_manager.Domain.StateMachine.{can_transition}
use lantern_task_manager.Config.{World}
use lantern_task_manager.Access.{is_verifier}
use lantern_task_manager.Storage.Orm.{TaskOrm, Db, Clock}
use lantern_task_manager.Storage.Repository.Row.{orm_to_record, find_task, task_key}
use lantern_task_manager.Storage.Repository.Lifecycle.{get}
use lantern_task_manager.Storage.Repository.Lifecycle.Behaviour.{
  confirm, close as closing, self_close, reject, perform, confirm_status, reject_status,
  close_status, self_close_status,
}
use lantern_task_manager.Storage.Repository.Lifecycle.Trail.{with_notes, close_refused, perform-get}
use lantern_task_manager.Notifications.Service.Messages.{
  notify_task_verified, notify_verify_requested, notify_task_reopened,
}
use lantern_task_manager.Notifications.Service.Frame.{
  verified_tasks, verify_requested_tasks, reopened_tasks,
}
use lantern_task_manager.Application.Results.{
  UseCaseResult, success, failure, Progress, returned, reached,
}
use lantern_task_manager.Application.Tasks.{
  close, verify, reopen, close_block, verify_block, reopen_block, auto_verify,
}
use lantern_task_manager.Application.Tasks.Blocks.{
  Holds, notify_keeps, verify_reached, reopen_reached, close_reached, verify_returned,
  reopen_returned, close_returned, verify_guarded, reopen_guarded, close_guarded,
}

module _ (world : World) (clock : Clock) (actor : UserRef) (db : Db) where
  -- A verification that succeeds was asked for by the task's verifier while the task was pending
  -- verification. The task is now VERIFIED: so says the result, and so a later read.
  pub verify_lem :
      (task_id : String) (row : TaskOrm) {r : UseCaseResult TaskRecord}
      → find_task task_id db ≡ some row
      → (verify world clock task_id actor db).0 ≡ ok r
      → r.ok ≡ true
      → (row.status ≡ pending_verification)
        × (is_verifier world actor.entra_object_id (orm_to_record row) ≡ true)
        × Holds task_id r verified (verify world clock task_id actor db).1
  unfolding verify perform
  verify_lem task_id row {r} found h fine = go (verify_block world clock task_id actor db).0 refl
    where
      d : Db
      d = (verify_block world clock task_id actor db).1

      go :
          (o : Outcome (Progress TaskRecord))
          → (verify_block world clock task_id actor db).0 ≡ o
          → (row.status ≡ pending_verification)
            × (is_verifier world actor.entra_object_id (orm_to_record row) ≡ true)
            × Holds task_id r verified (verify world clock task_id actor db).1
      go (raised e) b = ground (arith, b, h)
      go (ok (returned x)) b =
          let bad = verify_returned world clock actor db task_id b in
          ground (arith, b, h, bad, fine)
      go (ok (reached rec)) b =
          let did = verify_reached world clock actor db task_id b in
          let status = confirm_status clock db task_id actor.entra_object_id found did.0 in
          let read : (get task_id d).0 ≡ ok (some rec) =
            rw did.1 (perform-get clock (confirm task_id actor.entra_object_id) db did.0) in
          let kept =
            notify_keeps task_id (success rec "TASK_VERIFIED" (task_id <> " verified."))
              (notify_task_verified world clock rec none) d rec
              (verified_tasks world clock d rec none) refl read (rw b at h) in
          (
            status.0,
            verify_guarded world clock actor db task_id row found b,
            (rec, kept.0, rw b kept.1, status.1),
          )

  -- A reopening that succeeds was asked for by the task's verifier while the task was pending
  -- verification. The task is now REOPENED: so says the result, and so a later read.
  pub reopen_lem :
      (task_id reason : String) (row : TaskOrm) {r : UseCaseResult TaskRecord}
      → find_task task_id db ≡ some row
      → (reopen world clock task_id reason actor db).0 ≡ ok r
      → r.ok ≡ true
      → (row.status ≡ pending_verification)
        × (is_verifier world actor.entra_object_id (orm_to_record row) ≡ true)
        × Holds task_id r reopened (reopen world clock task_id reason actor db).1
  unfolding reopen perform
  reopen_lem task_id reason row {r} found h fine =
      go (reopen_block world clock task_id reason actor db).0 refl
    where
      d : Db
      d = (reopen_block world clock task_id reason actor db).1

      go :
          (o : Outcome (Progress TaskRecord))
          → (reopen_block world clock task_id reason actor db).0 ≡ o
          → (row.status ≡ pending_verification)
            × (is_verifier world actor.entra_object_id (orm_to_record row) ≡ true)
            × Holds task_id r reopened (reopen world clock task_id reason actor db).1
      go (raised e) b = ground (arith, b, h)
      go (ok (returned x)) b =
          let bad = reopen_returned world clock actor db task_id reason b in
          ground (arith, b, h, bad, fine)
      go (ok (reached rec)) b =
          let did = reopen_reached world clock actor db task_id reason b in
          let status = reject_status clock db task_id actor.entra_object_id reason found did.0 in
          let read : (get task_id d).0 ≡ ok (some rec) =
            rw did.1 (perform-get clock (reject task_id actor.entra_object_id reason) db did.0) in
          let kept =
            notify_keeps task_id (success rec "TASK_REOPENED" (task_id <> " reopened."))
              (notify_task_reopened world clock rec reason) d rec
              (reopened_tasks world clock d rec reason) refl read (rw b at h) in
          (
            status.0,
            reopen_guarded world clock actor db task_id reason row found b,
            (rec, kept.0, rw b kept.1, status.1),
          )

  -- A close that succeeds was asked for by the task's assignee. The task now is VERIFIED if it could be
  -- verified at once, for a creator who is also assignee and verifier, and else is pending
  -- verification: so says the result, and so a later read.
  pub close_lem :
      (params : CloseTaskParams) (origin : Option String) (row : TaskOrm)
      {r : UseCaseResult TaskRecord}
      → find_task params.task_id db ≡ some row
      → (close world clock params actor origin db).0 ≡ ok r
      → r.ok ≡ true
      → ((row.assigned_to_entra_id == actor.entra_object_id) ≡ true)
        × Holds params.task_id r
            (if auto_verify world clock (orm_to_record row) actor
              then verified
              else pending_verification)
            (close world clock params actor origin db).1
  unfolding close perform
  close_lem params origin row {r} found h fine = go (close_block world clock params actor db).0 refl
    where
      d : Db
      d = (close_block world clock params actor db).1

      go :
          (o : Outcome (Progress (Bool × TaskRecord)))
          → (close_block world clock params actor db).0 ≡ o
          → ((row.assigned_to_entra_id == actor.entra_object_id) ≡ true)
            × Holds params.task_id r
                (if auto_verify world clock (orm_to_record row) actor
                  then verified
                  else pending_verification)
                (close world clock params actor origin db).1
      go (raised e) b = ground (arith, b, h)
      go (ok (returned x)) b =
          let bad = close_returned world clock actor db params b in ground (arith, b, h, bad, fine)
      go (ok (reached (true, rec))) b =
          let did = close_reached world clock actor db params b in
          let status = self_close_status clock db params actor.entra_object_id found did.0 in
          let read : (get params.task_id d).0 ≡ ok (some rec) =
            rw did.1 (perform-get clock (self_close params actor.entra_object_id) db did.0) in
          let kept =
            notify_keeps params.task_id
              (success rec "TASK_VERIFIED_SELF" (params.task_id <> " closed and verified."))
              (notify_task_verified world clock rec origin) d rec
              (verified_tasks world clock d rec origin) refl read (rw b at h) in
          let guard = close_guarded world clock actor db params row found b in
          (guard.0, (rec, kept.0, rw b kept.1, rw (sym guard.1) status.0))
      go (ok (reached (false, rec))) b =
          let did = close_reached world clock actor db params b in
          let status = close_status clock db params actor.entra_object_id found did.0 in
          let read : (get params.task_id d).0 ≡ ok (some rec) =
            rw did.1 (perform-get clock (closing params actor.entra_object_id) db did.0) in
          let kept =
            notify_keeps params.task_id
              (success rec "TASK_CLOSED" ("Submitted " <> params.task_id <> " for verification."))
              (notify_verify_requested world clock rec origin) d rec
              (verify_requested_tasks world clock d rec origin) refl read (rw b at h) in
          let guard = close_guarded world clock actor db params row found b in
          (guard.0, (rec, kept.0, rw b kept.1, rw (sym guard.1) status.0))

  -- A close of the assignee that the lifecycle forbids, because the task is CREATED, VERIFIED or
  -- CANCELLED and is not self-verified, returns INVALID_STATUS. What it commits all the same are the
  -- new closure notes, closing date and update time of the row.
  pub close_refused_commits :
      (params : CloseTaskParams) (origin : Option String) (row : TaskOrm)
      → find_task params.task_id db ≡ some row
      → (row.assigned_to_entra_id == actor.entra_object_id) ≡ true
      → auto_verify world clock (orm_to_record row) actor ≡ false
      → (status_eq row.status TaskStatus.assigned) ≡ false
      → can_transition row.status pending_verification false ≡ false
      → close world clock params actor origin db ≡ (
        ok (
            failure "INVALID_STATUS"
              ("Cannot move task from " <> status_value row.status <> " to PENDING_VERIFICATION")),
        record db { tasks = write task_key (with_notes clock params row) db.tasks },
      )
  unfolding close close_block orm_to_record
  close_refused_commits params origin row found mine apart fresh refused =
      let stop = close_refused clock params actor.entra_object_id db row found mine fresh refused in
      ground (arith, found, mine, apart, stop)
