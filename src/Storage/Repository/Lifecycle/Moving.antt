-- ===== src/Storage/Repository/Lifecycle/Moving.antt =====
-- When the lifecycle methods of `TaskRepository` return, and from which status to which they move a
-- task.
use lantern_task_manager.Base.{
  ◌≡◌, refl, ◌⊎◌, ◌↔◌, inl, inr, String, Bool, true, false, ◌&&◌, ◌==◌, some, arith, ok, raised,
  Raised, Outcome-cases,
}
use lantern_task_manager.Domain.Enums.{
  TaskStatus, assigned, in_progress, pending_closure, pending_verification, verified, reopened,
  status_eq,
}
use lantern_task_manager.Domain.Models.{TaskRecord, CloseTaskParams}
use lantern_task_manager.Domain.StateMachine.{can_transition}
use lantern_task_manager.Storage.Orm.{TaskOrm, Db, Clock}
use lantern_task_manager.Storage.Repository.Row.{find_task}
use lantern_task_manager.Storage.Repository.Lifecycle.{
  assignee_acknowledge, assignee_resume, mark_pending_closure_from_assignee, close_and_verify_self,
  manager_confirm, manager_reject,
}
use lantern_task_manager.Domain.StateMachine.Lifecycle.{Reach, here, next, Step}
use lantern_task_manager.Storage.Repository.Lifecycle.Behaviour.{
  Operation, acknowledge, resume, confirm, close, self_close, reject, target, perform,
  acknowledge_status, resume_status, close_status, self_close_status, confirm_status, reject_status,
}

-- Who may perform an operation, by the row of its task.
abbrev pub may : Operation → TaskOrm → Bool
may (acknowledge task_id actor) row = row.assigned_to_entra_id == actor
may (resume task_id actor) row = row.assigned_to_entra_id == actor
may (confirm task_id actor) row = true
may (close params actor) row = row.assigned_to_entra_id == actor
may (self_close params actor) row =
    row.assigned_to_entra_id == actor && row.created_by_entra_id == actor
may (reject task_id actor reason) row = true

abbrev starts : Operation → TaskStatus → Bool
starts (acknowledge task_id actor) s = status_eq s assigned
starts (resume task_id actor) s = status_eq s reopened
starts (confirm task_id actor) s = status_eq s pending_verification
starts (reject task_id actor reason) s = status_eq s pending_verification
starts (close params actor) assigned = true
starts (close params actor) in_progress = true
starts (close params actor) pending_closure = true
starts (close params actor) reopened = true
starts (close params actor) pending_verification = true
starts (close params actor) _ = false
starts (self_close params actor) assigned = true
starts (self_close params actor) in_progress = true
starts (self_close params actor) reopened = true
starts (self_close params actor) _ = false

-- The statuses from which each operation moves a task, and the status to which it does.
pub data Moves : Operation → TaskStatus → TaskStatus → Type 0 where
  acknowledged : {task_id actor : String} → Moves (acknowledge task_id actor) assigned in_progress
  resumed : {task_id actor : String} → Moves (resume task_id actor) reopened in_progress
  confirmed : {task_id actor : String} → Moves (confirm task_id actor) pending_verification verified
  rejected :
      {task_id actor reason : String}
      → Moves (reject task_id actor reason) pending_verification reopened
  closed_unstarted :
      {params : CloseTaskParams} {actor : String}
      → Moves (close params actor) assigned pending_verification
  closed_started :
      {params : CloseTaskParams} {actor : String}
      → Moves (close params actor) in_progress pending_verification
  closed_asked :
      {params : CloseTaskParams} {actor : String}
      → Moves (close params actor) pending_closure pending_verification
  closed_reopened :
      {params : CloseTaskParams} {actor : String}
      → Moves (close params actor) reopened pending_verification
  closed_again :
      {params : CloseTaskParams} {actor : String}
      → Moves (close params actor) pending_verification pending_verification
  settled_unstarted :
      {params : CloseTaskParams} {actor : String}
      → Moves (self_close params actor) assigned verified
  settled_started :
      {params : CloseTaskParams} {actor : String}
      → Moves (self_close params actor) in_progress verified
  settled_reopened :
      {params : CloseTaskParams} {actor : String}
      → Moves (self_close params actor) reopened verified

close-Moves :
    {params : CloseTaskParams} {actor : String} (s : TaskStatus)
    → (s ≡ assigned) ⊎ (can_transition s pending_verification false ≡ true)
    → Moves (close params actor) s pending_verification
unfolding can_transition
close-Moves assigned h = closed_unstarted
close-Moves in_progress h = closed_started
close-Moves pending_closure h = closed_asked
close-Moves reopened h = closed_reopened
close-Moves pending_verification h = closed_again
close-Moves _ h = ground (arith, h)

module _ (clock : Clock) (db : Db) {row : TaskOrm} {rec : TaskRecord} where
  performed_may :
      (o : Operation)
      → find_task (target o) db ≡ some row
      → (perform clock o db).0 ≡ ok rec
      → may o row ≡ true
  unfolding perform assignee_acknowledge assignee_resume mark_pending_closure_from_assignee
      close_and_verify_self
  performed_may (acknowledge task_id actor) found h = ground arith
  performed_may (resume task_id actor) found h = ground arith
  performed_may (confirm task_id actor) found h = refl
  performed_may (reject task_id actor reason) found h = refl
  performed_may (close params actor) found h = ground arith
  performed_may (self_close params actor) found h = ground arith

  performed-Moves :
      (o : Operation)
      → find_task (target o) db ≡ some row
      → (perform clock o db).0 ≡ ok rec
      → Moves o row.status rec.status
  unfolding perform
  performed-Moves (acknowledge task_id actor) found h =
      let s = acknowledge_status clock db task_id actor found h in rw (s.0, s.1) acknowledged
  performed-Moves (resume task_id actor) found h =
      let s = resume_status clock db task_id actor found h in rw (s.0, s.1) resumed
  performed-Moves (confirm task_id actor) found h =
      let s = confirm_status clock db task_id actor found h in rw (s.0, s.1) confirmed
  performed-Moves (reject task_id actor reason) found h =
      let s = reject_status clock db task_id actor reason found h in rw (s.0, s.1) rejected
  performed-Moves (close params actor) found h =
      let s = close_status clock db params actor found h in rw s.0 (close-Moves row.status s.1)
  performed-Moves (self_close params actor) found h =
      let s = self_close_status clock db params actor found h in
      rw s.0 (elim s.1 [
        | inl e ↦ rw e settled_unstarted
        | inr (inl e) ↦ rw e settled_started
        | inr (inr e) ↦ rw e settled_reopened
      ])

Moves-starts : (o : Operation) {a b : TaskStatus} → Moves o a b → starts o a ≡ true
Moves-starts o acknowledged = refl
Moves-starts o resumed = refl
Moves-starts o confirmed = refl
Moves-starts o rejected = refl
Moves-starts o closed_unstarted = refl
Moves-starts o closed_started = refl
Moves-starts o closed_asked = refl
Moves-starts o closed_reopened = refl
Moves-starts o closed_again = refl
Moves-starts o settled_unstarted = refl
Moves-starts o settled_started = refl
Moves-starts o settled_reopened = refl

module _ (clock : Clock) (db : Db) {row : TaskOrm} where
  performs :
      (o : Operation)
      → find_task (target o) db ≡ some row
      → may o row ≡ true
      → starts o row.status ≡ true
      → ((rec : TaskRecord) × ((perform clock o db).0 ≡ ok rec))
  unfolding perform assignee_acknowledge assignee_resume mark_pending_closure_from_assignee
      close_and_verify_self manager_confirm manager_reject can_transition
  performs o found mine fits = elim (Outcome-cases (perform clock o db).0) [
    | inl done ↦ done
    | inr (e, h) ↦ absurd (fails o found mine fits h)
  ]
    where
      fails :
          (o : Operation) {e : Raised}
          → find_task (target o) db ≡ some row
          → may o row ≡ true
          → starts o row.status ≡ true
          → (perform clock o db).0 ≡ raised e
          → ⊥
      fails (acknowledge task_id actor) found mine fits h = ground arith
      fails (resume task_id actor) found mine fits h = ground arith
      fails (confirm task_id actor) found mine fits h = ground arith
      fails (reject task_id actor reason) found mine fits h = ground arith
      fails (close params actor) found mine fits h = ground arith
      fails (self_close params actor) found mine fits h = ground arith

-- A lifecycle method returns exactly when its actor may call it and the status of its task is one from
-- which it moves a task, and then the status that it returns is the one to which it does.
pub perform_exact :
    (clock : Clock) (o : Operation) (db : Db) {row : TaskOrm}
    → find_task (target o) db ≡ some row
    → (((rec : TaskRecord) × ((perform clock o db).0 ≡ ok rec))
        ↔ ((may o row ≡ true) × (b : TaskStatus) × Moves o row.status b))
      × ((rec : TaskRecord) → (perform clock o db).0 ≡ ok rec → Moves o row.status rec.status)
perform_exact clock o db {row} found = (
  (
    (λ (rec, h).
        (performed_may clock db o found h, rec.status, performed-Moves clock db o found h)),
    (λ (mine, b, moves). performs clock db o found mine (Moves-starts o moves)),
  ),
  (λ rec h. performed-Moves clock db o found h),
)

-- Every move follows the arrows of the lifecycle; a second close stays where it is.
Moves-Reach : (o : Operation) {a b : TaskStatus} → Moves o a b → Reach a b
Moves-Reach o acknowledged = next here Step.start
Moves-Reach o resumed = next here Step.resume
Moves-Reach o confirmed = next here Step.confirm
Moves-Reach o rejected = next here Step.reject
Moves-Reach o closed_unstarted = next (next here Step.start) Step.submit
Moves-Reach o closed_started = next here Step.submit
Moves-Reach o closed_asked = next here Step.forward
Moves-Reach o closed_reopened = next here Step.resubmit
Moves-Reach o closed_again = here
Moves-Reach o settled_unstarted = next (next (next here Step.start) Step.submit) Step.confirm
Moves-Reach o settled_started = next (next here Step.submit) Step.confirm
Moves-Reach o settled_reopened = next (next here Step.resubmit) Step.confirm
