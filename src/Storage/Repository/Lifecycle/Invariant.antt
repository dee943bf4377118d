-- ===== src/Storage/Repository/Lifecycle/Invariant.antt =====
-- The audit trail that the lifecycle methods of `TaskRepository` keep.
use lantern_task_manager.Base.{
  not, ◌||◌, ◌≡◌, refl, inl, inr, ℕ, String, Bool, true, false, Option, none, some, arith, List, [],
  ◌∷◌, ◌++◌, Option-cases, Bool-cases, ok, All, find-All, write-All, Begins, Begins-append,
  Begins-refl, Begins-trans,
}
use lantern_task_manager.Domain.Enums.{
  AuditEvent, TaskStatus, status_eq, in_progress, pending_verification,
}
use lantern_task_manager.Domain.Models.{TaskRecord, CloseTaskParams, AuditEntry}
use lantern_task_manager.Storage.Orm.{TaskOrm, Db, Clock}
use lantern_task_manager.Storage.Repository.Row.{
  orm_to_record, find_task, task_key, with_audit, row_or_raise,
}
use lantern_task_manager.Storage.Repository.Lifecycle.{
  assignee_acknowledge, assignee_resume, mark_pending_closure_from_assignee, close_and_verify_self,
  manager_confirm, manager_reject,
}
use lantern_task_manager.Storage.Repository.Lifecycle.Behaviour.{
  Operation, acknowledge, resume, confirm, close, self_close, reject, target, perform,
}

-- The status after an event of the trail.
abbrev pub after_event : TaskStatus → AuditEvent → TaskStatus
after_event s AuditEvent.created = TaskStatus.created
after_event s AuditEvent.assigned = TaskStatus.assigned
after_event s AuditEvent.acknowledged = in_progress
after_event s AuditEvent.resumed = in_progress
after_event s AuditEvent.closure_requested = pending_verification
after_event s AuditEvent.verified = TaskStatus.verified
after_event s AuditEvent.reopened = TaskStatus.reopened
after_event s AuditEvent.cancelled = TaskStatus.cancelled
after_event s _ = s

unfoldable pub replay : TaskStatus → List AuditEntry → TaskStatus
replay s [] = s
replay s (entry ∷ trail) = replay (after_event s entry.event) trail

pub replay-append :
    (s : TaskStatus) (trail : List AuditEntry) (entry : AuditEntry)
    → replay s (trail ++ entry ∷ []) ≡ after_event (replay s trail) entry.event
unfolding replay
replay-append s [] entry = refl
replay-append s (x ∷ trail) entry = replay-append (after_event s x.event) trail entry

pub replay-with_audit :
    (clock : Clock) (event : AuditEvent) (actor details : String) (trail : List AuditEntry)
    → replay TaskStatus.created (with_audit clock event actor details trail)
      ≡ after_event (replay TaskStatus.created trail) event
unfolding with_audit
replay-with_audit clock event actor details trail = replay-append TaskStatus.created trail _

abbrev pub is_set : Option ℕ → Bool
is_set none = false
is_set (some t) = true

pub record IsConsistent (row : TaskOrm) : Type 0 where
  pub replayed : replay TaskStatus.created row.audit_trail ≡ row.status
  pub pending_closed :
      (not (status_eq row.status pending_verification) || is_set row.closed_at) ≡ true
  pub verified_closed :
      (not (status_eq row.status TaskStatus.verified) || is_set row.closed_at) ≡ true
  pub verified_dated :
      (not (status_eq row.status TaskStatus.verified) || is_set row.verified_at) ≡ true

abbrev pub AllConsistent : Db → Type 0
AllConsistent db = All IsConsistent db.tasks

module _ (clock : Clock) (db : Db) (all : AllConsistent db) where
  acknowledge-AllConsistent :
      (task_id actor : String) → AllConsistent (assignee_acknowledge clock task_id actor db).1
  unfolding assignee_acknowledge
  acknowledge-AllConsistent task_id actor = elim (Option-cases (find_task task_id db)) [
    | inl absent ↦ rw (absent, row_or_raise) all
    | inr (row, found) ↦
        let h = find-All task_key IsConsistent task_id db.tasks all found in
        grind (arith, write-All, replay-with_audit)
  ]

  resume-AllConsistent :
      (task_id actor : String) → AllConsistent (assignee_resume clock task_id actor db).1
  unfolding assignee_resume
  resume-AllConsistent task_id actor = elim (Option-cases (find_task task_id db)) [
    | inl absent ↦ rw (absent, row_or_raise) all
    | inr (row, found) ↦
        let h = find-All task_key IsConsistent task_id db.tasks all found in
        grind (arith, write-All, replay-with_audit)
  ]

  confirm-AllConsistent :
      (task_id actor : String) → AllConsistent (manager_confirm clock task_id actor db).1
  unfolding manager_confirm
  confirm-AllConsistent task_id actor = elim (Option-cases (find_task task_id db)) [
    | inl absent ↦ rw (absent, row_or_raise) all
    | inr (row, found) ↦
        let h = find-All task_key IsConsistent task_id db.tasks all found in
        grind (arith, write-All, replay-with_audit)
  ]

  close-AllConsistent :
      (params : CloseTaskParams) (actor : String)
      → AllConsistent (mark_pending_closure_from_assignee clock params actor db).1
  unfolding mark_pending_closure_from_assignee
  close-AllConsistent params actor = elim (Option-cases (find_task params.task_id db)) [
    | inl absent ↦ rw (absent, row_or_raise) all
    | inr (row, found) ↦
        let h = find-All task_key IsConsistent params.task_id db.tasks all found in
        elim (Bool-cases (status_eq row.status TaskStatus.assigned)) [
          | inl e ↦ grind (arith, write-All, replay-with_audit)
          | inr e ↦ grind (arith, write-All, replay-with_audit)
        ]
  ]

  self_close-AllConsistent :
      (params : CloseTaskParams) (actor : String)
      → AllConsistent (close_and_verify_self clock params actor db).1
  unfolding close_and_verify_self
  self_close-AllConsistent params actor = elim (Option-cases (find_task params.task_id db)) [
    | inl absent ↦ rw (absent, row_or_raise) all
    | inr (row, found) ↦
        let h = find-All task_key IsConsistent params.task_id db.tasks all found in
        elim (Bool-cases (status_eq row.status TaskStatus.assigned)) [
          | inl e ↦ grind (arith, write-All, replay-with_audit)
          | inr e ↦ grind (arith, write-All, replay-with_audit)
        ]
  ]

  reject-AllConsistent :
      (task_id actor reason : String)
      → AllConsistent (manager_reject clock task_id actor reason db).1
  unfolding manager_reject
  reject-AllConsistent task_id actor reason = elim (Option-cases (find_task task_id db)) [
    | inl absent ↦ rw (absent, row_or_raise) all
    | inr (row, found) ↦
        let h = find-All task_key IsConsistent task_id db.tasks all found in
        grind (arith, write-All, replay-with_audit)
  ]

-- Every lifecycle method, whether it returns or raises, keeps the whole task table consistent: the
-- replayed audit trail of each task gives its status, and its closing and verification dates are
-- set where the status calls for them.
pub perform-AllConsistent :
    (clock : Clock) (o : Operation) (db : Db)
    → AllConsistent db
    → AllConsistent (perform clock o db).1
unfolding perform
perform-AllConsistent clock (acknowledge task_id actor) db all =
    acknowledge-AllConsistent clock db all task_id actor
perform-AllConsistent clock (resume task_id actor) db all =
    resume-AllConsistent clock db all task_id actor
perform-AllConsistent clock (confirm task_id actor) db all =
    confirm-AllConsistent clock db all task_id actor
perform-AllConsistent clock (close params actor) db all =
    close-AllConsistent clock db all params actor
perform-AllConsistent clock (self_close params actor) db all =
    self_close-AllConsistent clock db all params actor
perform-AllConsistent clock (reject task_id actor reason) db all =
    reject-AllConsistent clock db all task_id actor reason

Begins-with_audit :
    (clock : Clock) (event : AuditEvent) (actor details : String) (old trail : List AuditEntry)
    → Begins old trail
    → Begins old (with_audit clock event actor details trail)
unfolding with_audit
Begins-with_audit clock event actor details old trail h =
    Begins-trans old trail _ h (Begins-append trail _)

module _ (clock : Clock) (db : Db) {row : TaskOrm} {rec : TaskRecord} where
  acknowledge_trail :
      (task_id actor : String)
      → find_task task_id db ≡ some row
      → (assignee_acknowledge clock task_id actor db).0 ≡ ok rec
      → Begins row.audit_trail rec.audit_trail
  unfolding assignee_acknowledge orm_to_record
  acknowledge_trail task_id actor found h = grind (arith, Begins-with_audit, Begins-refl)

  resume_trail :
      (task_id actor : String)
      → find_task task_id db ≡ some row
      → (assignee_resume clock task_id actor db).0 ≡ ok rec
      → Begins row.audit_trail rec.audit_trail
  unfolding assignee_resume orm_to_record
  resume_trail task_id actor found h = grind (arith, Begins-with_audit, Begins-refl)

  confirm_trail :
      (task_id actor : String)
      → find_task task_id db ≡ some row
      → (manager_confirm clock task_id actor db).0 ≡ ok rec
      → Begins row.audit_trail rec.audit_trail
  unfolding manager_confirm orm_to_record
  confirm_trail task_id actor found h = grind (arith, Begins-with_audit, Begins-refl)

  close_trail :
      (params : CloseTaskParams) (actor : String)
      → find_task params.task_id db ≡ some row
      → (mark_pending_closure_from_assignee clock params actor db).0 ≡ ok rec
      → Begins row.audit_trail rec.audit_trail
  unfolding mark_pending_closure_from_assignee orm_to_record
  close_trail params actor found h = grind (arith, Begins-with_audit, Begins-refl)

  self_close_trail :
      (params : CloseTaskParams) (actor : String)
      → find_task params.task_id db ≡ some row
      → (close_and_verify_self clock params actor db).0 ≡ ok rec
      → Begins row.audit_trail rec.audit_trail
  unfolding close_and_verify_self orm_to_record
  self_close_trail params actor found h = grind (arith, Begins-with_audit, Begins-refl)

  reject_trail :
      (task_id actor reason : String)
      → find_task task_id db ≡ some row
      → (manager_reject clock task_id actor reason db).0 ≡ ok rec
      → Begins row.audit_trail rec.audit_trail
  unfolding manager_reject orm_to_record
  reject_trail task_id actor reason found h = grind (arith, Begins-with_audit, Begins-refl)

-- A lifecycle method that returns has only added entries at the end of its task's audit trail.
pub perform_trail :
    (clock : Clock) (o : Operation) (db : Db) {row : TaskOrm} {rec : TaskRecord}
    → find_task (target o) db ≡ some row
    → (perform clock o db).0 ≡ ok rec
    → Begins row.audit_trail rec.audit_trail
unfolding perform
perform_trail clock (acknowledge task_id actor) db found h =
    acknowledge_trail clock db task_id actor found h
perform_trail clock (resume task_id actor) db found h = resume_trail clock db task_id actor found h
perform_trail clock (confirm task_id actor) db found h =
    confirm_trail clock db task_id actor found h
perform_trail clock (close params actor) db found h = close_trail clock db params actor found h
perform_trail clock (self_close params actor) db found h =
    self_close_trail clock db params actor found h
perform_trail clock (reject task_id actor reason) db found h =
    reject_trail clock db task_id actor reason found h
