-- ===== src/Storage/Repository/Lifecycle/Trail.antt =====
-- The task table before and after a lifecycle method of `TaskRepository`.
use lantern_task_manager.Base.{
  ◌≡◌, String, Bool, true, false, some, ◌==◌, arith, ok, raised, Raised, value_error, ◌<>◌, write,
  find-write_self, find-write_ne, find-key, write-write, Option-cases, Bool-cases, inl, inr,
}
use lantern_task_manager.Domain.Enums.{TaskStatus, status_eq, status_value, pending_verification}
use lantern_task_manager.Domain.Models.{TaskRecord, CloseTaskParams}
use lantern_task_manager.Domain.StateMachine.{can_transition}
use lantern_task_manager.Storage.Orm.{TaskOrm, Db, Clock}
use lantern_task_manager.Storage.Repository.Row.{find_task, task_key}
use lantern_task_manager.Storage.Repository.Lifecycle.{
  get, assignee_acknowledge, assignee_resume, mark_pending_closure_from_assignee,
  close_and_verify_self, manager_confirm, manager_reject,
}
use lantern_task_manager.Storage.Repository.Lifecycle.Behaviour.{
  Operation, acknowledge, resume, confirm, close, self_close, reject, target, perform,
}

module _ (clock : Clock) (db : Db) where
  acknowledge_frame :
      (task_id actor k : String)
      → (task_id == k) ≡ false
      → find_task k (assignee_acknowledge clock task_id actor db).1 ≡ find_task k db
  unfolding assignee_acknowledge
  acknowledge_frame task_id actor k ne =
      grind (arith, find-key task_key task_id db.tasks, find-write_ne)

  resume_frame :
      (task_id actor k : String)
      → (task_id == k) ≡ false
      → find_task k (assignee_resume clock task_id actor db).1 ≡ find_task k db
  unfolding assignee_resume
  resume_frame task_id actor k ne = grind (arith, find-key task_key task_id db.tasks, find-write_ne)

  confirm_frame :
      (task_id actor k : String)
      → (task_id == k) ≡ false
      → find_task k (manager_confirm clock task_id actor db).1 ≡ find_task k db
  unfolding manager_confirm
  confirm_frame task_id actor k ne =
      grind (arith, find-key task_key task_id db.tasks, find-write_ne)

  close_frame :
      (params : CloseTaskParams) (actor k : String)
      → (params.task_id == k) ≡ false
      → find_task k (mark_pending_closure_from_assignee clock params actor db).1 ≡ find_task k db
  unfolding mark_pending_closure_from_assignee
  close_frame params actor k ne =
      grind (arith, find-key task_key params.task_id db.tasks, find-write_ne)

  self_close_frame :
      (params : CloseTaskParams) (actor k : String)
      → (params.task_id == k) ≡ false
      → find_task k (close_and_verify_self clock params actor db).1 ≡ find_task k db
  unfolding close_and_verify_self
  self_close_frame params actor k ne =
      grind (arith, find-key task_key params.task_id db.tasks, find-write_ne)

  reject_frame :
      (task_id actor reason k : String)
      → (task_id == k) ≡ false
      → find_task k (manager_reject clock task_id actor reason db).1 ≡ find_task k db
  unfolding manager_reject
  reject_frame task_id actor reason k ne =
      grind (arith, find-key task_key task_id db.tasks, find-write_ne)

  acknowledge_get :
      (task_id actor : String) {rec : TaskRecord}
      → (assignee_acknowledge clock task_id actor db).0 ≡ ok rec
      → (get task_id (assignee_acknowledge clock task_id actor db).1).0 ≡ ok (some rec)
  unfolding assignee_acknowledge get
  acknowledge_get task_id actor h =
      grind (arith, find-key task_key task_id db.tasks, find-write_self)

  resume_get :
      (task_id actor : String) {rec : TaskRecord}
      → (assignee_resume clock task_id actor db).0 ≡ ok rec
      → (get task_id (assignee_resume clock task_id actor db).1).0 ≡ ok (some rec)
  unfolding assignee_resume get
  resume_get task_id actor h = grind (arith, find-key task_key task_id db.tasks, find-write_self)

  confirm_get :
      (task_id actor : String) {rec : TaskRecord}
      → (manager_confirm clock task_id actor db).0 ≡ ok rec
      → (get task_id (manager_confirm clock task_id actor db).1).0 ≡ ok (some rec)
  unfolding manager_confirm get
  confirm_get task_id actor h = grind (arith, find-key task_key task_id db.tasks, find-write_self)

  close_get :
      (params : CloseTaskParams) (actor : String) {rec : TaskRecord}
      → (mark_pending_closure_from_assignee clock params actor db).0 ≡ ok rec
      → (get params.task_id (mark_pending_closure_from_assignee clock params actor db).1).0
        ≡ ok (some rec)
  unfolding mark_pending_closure_from_assignee get
  close_get params actor h = elim (Option-cases (find_task params.task_id db)) [
    | inl absent ↦ ground (arith, absent)
    | inr (row, found) ↦
        let same = find-key task_key params.task_id db.tasks found in
        elim (Bool-cases (status_eq row.status TaskStatus.assigned)) [
          | inl e ↦ grind (arith, find-write_self, write-write)
          | inr e ↦ grind (arith, find-write_self, write-write)
        ]
  ]

  self_close_get :
      (params : CloseTaskParams) (actor : String) {rec : TaskRecord}
      → (close_and_verify_self clock params actor db).0 ≡ ok rec
      → (get params.task_id (close_and_verify_self clock params actor db).1).0 ≡ ok (some rec)
  unfolding close_and_verify_self get
  self_close_get params actor h =
      grind (arith, find-key task_key params.task_id db.tasks, find-write_self, write-write)

  reject_get :
      (task_id actor reason : String) {rec : TaskRecord}
      → (manager_reject clock task_id actor reason db).0 ≡ ok rec
      → (get task_id (manager_reject clock task_id actor reason db).1).0 ≡ ok (some rec)
  unfolding manager_reject get
  reject_get task_id actor reason h =
      grind (arith, find-key task_key task_id db.tasks, find-write_self)

  acknowledge_raised :
      (task_id actor : String) {e : Raised}
      → (assignee_acknowledge clock task_id actor db).0 ≡ raised e
      → (assignee_acknowledge clock task_id actor db).1 ≡ db
  unfolding assignee_acknowledge
  acknowledge_raised task_id actor h = ground arith

  resume_raised :
      (task_id actor : String) {e : Raised}
      → (assignee_resume clock task_id actor db).0 ≡ raised e
      → (assignee_resume clock task_id actor db).1 ≡ db
  unfolding assignee_resume
  resume_raised task_id actor h = ground arith

  confirm_raised :
      (task_id actor : String) {e : Raised}
      → (manager_confirm clock task_id actor db).0 ≡ raised e
      → (manager_confirm clock task_id actor db).1 ≡ db
  unfolding manager_confirm
  confirm_raised task_id actor h = ground arith

  self_close_raised :
      (params : CloseTaskParams) (actor : String) {e : Raised}
      → (close_and_verify_self clock params actor db).0 ≡ raised e
      → (close_and_verify_self clock params actor db).1 ≡ db
  unfolding close_and_verify_self
  self_close_raised params actor h = ground arith

  reject_raised :
      (task_id actor reason : String) {e : Raised}
      → (manager_reject clock task_id actor reason db).0 ≡ raised e
      → (manager_reject clock task_id actor reason db).1 ≡ db
  unfolding manager_reject
  reject_raised task_id actor reason h = ground arith

-- What a lifecycle method returns is what `get` reads afterwards.
pub perform-get :
    (clock : Clock) (o : Operation) (db : Db) {rec : TaskRecord}
    → (perform clock o db).0 ≡ ok rec
    → (get (target o) (perform clock o db).1).0 ≡ ok (some rec)
unfolding perform
perform-get clock (acknowledge task_id actor) db h = acknowledge_get clock db task_id actor h
perform-get clock (resume task_id actor) db h = resume_get clock db task_id actor h
perform-get clock (confirm task_id actor) db h = confirm_get clock db task_id actor h
perform-get clock (close params actor) db h = close_get clock db params actor h
perform-get clock (self_close params actor) db h = self_close_get clock db params actor h
perform-get clock (reject task_id actor reason) db h = reject_get clock db task_id actor reason h

-- Whether it returns or raises, a lifecycle method leaves the rows of all other tasks as they were.
perform_frame :
    (clock : Clock) (o : Operation) (db : Db) (k : String)
    → (target o == k) ≡ false
    → find_task k (perform clock o db).1 ≡ find_task k db
unfolding perform
perform_frame clock (acknowledge task_id actor) db k ne =
    acknowledge_frame clock db task_id actor k ne
perform_frame clock (resume task_id actor) db k ne = resume_frame clock db task_id actor k ne
perform_frame clock (confirm task_id actor) db k ne = confirm_frame clock db task_id actor k ne
perform_frame clock (close params actor) db k ne = close_frame clock db params actor k ne
perform_frame clock (self_close params actor) db k ne = self_close_frame clock db params actor k ne
perform_frame clock (reject task_id actor reason) db k ne =
    reject_frame clock db task_id actor reason k ne

-- `true` for the one method that writes before its last check.
abbrev pub writes_early : Operation → Bool
writes_early (close params actor) = true
writes_early _ = false

-- Each lifecycle method but `mark_pending_closure_from_assignee` leaves the database as it was
-- when it raises.
pub perform_raised :
    (clock : Clock) (o : Operation) (db : Db) {e : Raised}
    → writes_early o ≡ false
    → (perform clock o db).0 ≡ raised e
    → (perform clock o db).1 ≡ db
unfolding perform
perform_raised clock (acknowledge task_id actor) db w h =
    acknowledge_raised clock db task_id actor h
perform_raised clock (resume task_id actor) db w h = resume_raised clock db task_id actor h
perform_raised clock (confirm task_id actor) db w h = confirm_raised clock db task_id actor h
perform_raised clock (close params actor) db w h = cc
perform_raised clock (self_close params actor) db w h = self_close_raised clock db params actor h
perform_raised clock (reject task_id actor reason) db w h =
    reject_raised clock db task_id actor reason h

-- The row that a refused close leaves behind.
abbrev pub with_notes : Clock → CloseTaskParams → TaskOrm → TaskOrm
with_notes clock params row = record row {
  closure_notes = params.completion_notes;
  closed_at = some clock.now;
  updated_at = clock.now;
}

-- The close of a task that is CREATED, VERIFIED or CANCELLED raises, and has by then overwritten
-- the closure notes, the closing date and the update time of the row.
pub close_refused :
    (clock : Clock) (params : CloseTaskParams) (actor : String) (db : Db) (row : TaskOrm)
    → find_task params.task_id db ≡ some row
    → (row.assigned_to_entra_id == actor) ≡ true
    → (status_eq row.status TaskStatus.assigned) ≡ false
    → can_transition row.status pending_verification false ≡ false
    → mark_pending_closure_from_assignee clock params actor db ≡ (
      raised (
          value_error
            ("Cannot move task from " <> status_value row.status <> " to PENDING_VERIFICATION")),
      record db { tasks = write task_key (with_notes clock params row) db.tasks },
    )
unfolding mark_pending_closure_from_assignee
close_refused clock params actor db row found mine fresh refused = ground arith
