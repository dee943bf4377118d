-- ===== src/Tests/Repository.antt =====
-- The repository, the lifecycle, the policy and the authentication modes at concrete inputs.
use lantern_task_manager.Domain.Models.{TaskRecord}
use lantern_task_manager.Domain.Enums.{TaskStatus}
use lantern_task_manager.Base.{
  ◌≡◌, refl, ℕ, Bool, none, some, [], ◌∷◌, ◌++◌, value_error, ok, raised, Begins, arith, find, clip,
}
use lantern_task_manager.Domain.Enums.{fin, dept_eq, TaskStatus, AuditEvent, in_progress, status_eq}
use lantern_task_manager.Domain.Models.{ListTasksParams, my_tasks}
use lantern_task_manager.Domain.StateMachine.{can_transition}
use lantern_task_manager.Storage.Orm.{TaskOrm}
use lantern_task_manager.Storage.Repository.Row.{orm_to_record, find_task, with_audit}
use lantern_task_manager.Storage.Repository.Lifecycle.{assignee_acknowledge, manager_confirm}
use lantern_task_manager.Base.{◌↔◌, true}
use lantern_task_manager.Storage.Repository.Lifecycle.Behaviour.{
  Operation, acknowledge, confirm, perform,
}
use lantern_task_manager.Storage.Repository.Lifecycle.Moving.{perform_exact, may, Moves}
use lantern_task_manager.Storage.Repository.Lifecycle.Trail.{perform_raised}
use lantern_task_manager.Storage.Repository.Lifecycle.Invariant.{
  AllConsistent, IsConsistent, replay, perform-AllConsistent, perform_trail,
}
use lantern_task_manager.Storage.Repository.PublicId.{public_id}
use lantern_task_manager.Storage.Repository.PublicId.Unique.{public_id-injective}
use lantern_task_manager.Storage.Repository.Create.{create_from_draft, new_row, find_counter}
use lantern_task_manager.Storage.Repository.Create.Counters.{last_sequence}
use lantern_task_manager.Storage.Repository.Create.Fresh.{
  AllIssued, IsIssued, new_id, create_from_draft_fresh,
}
use lantern_task_manager.Tests.Sample.{
  clock, db, fresh_task, pending_task, verified_task, new_draft, ann,
}

abbrev start : Operation
start = acknowledge "LTM-FIN-2026-0001" "bob"

fresh-IsConsistent : IsConsistent fresh_task
unfolding replay
fresh-IsConsistent = record {
  replayed = refl;
  pending_closed = refl;
  verified_closed = refl;
  verified_dated = refl;
}

pending-IsConsistent : IsConsistent pending_task
unfolding replay
pending-IsConsistent = record {
  replayed = refl;
  pending_closed = refl;
  verified_closed = refl;
  verified_dated = refl;
}

verified-IsConsistent : IsConsistent verified_task
unfolding replay
verified-IsConsistent = record {
  replayed = refl;
  pending_closed = refl;
  verified_closed = refl;
  verified_dated = refl;
}

perform-AllConsistent_example : AllConsistent (perform clock start db).1
perform-AllConsistent_example =
    perform-AllConsistent clock start db
      (fresh-IsConsistent, (pending-IsConsistent, (verified-IsConsistent, tt)))

abbrev started : TaskOrm
started = record fresh_task {
  status = in_progress;
  updated_at = 1000;
  audit_trail =
      fresh_task.audit_trail
      ++ record { event = AuditEvent.acknowledged; actor_entra_id = "bob"; at = 1000; details = "" }
        ∷ [];
}

found_fresh : find_task "LTM-FIN-2026-0001" db ≡ some fresh_task
unfolding find
found_fresh = refl

performed : (perform clock start db).0 ≡ ok (orm_to_record started)
unfolding perform assignee_acknowledge find can_transition with_audit clip
performed = refl

perform_exact_example :
    (((rec : TaskRecord) × ((perform clock start db).0 ≡ ok rec))
      ↔ ((may start fresh_task ≡ true) × (b : TaskStatus) × Moves start fresh_task.status b))
    × ((rec : TaskRecord)
        → (perform clock start db).0 ≡ ok rec
        → Moves start fresh_task.status rec.status)
perform_exact_example = perform_exact clock start db found_fresh

-- The confirmation of a task that waits for nobody.
abbrev too_early : Operation
too_early = confirm "LTM-FIN-2026-0001" "ann"

refused : (perform clock too_early db).0 ≡ raised (value_error "Task is not pending verification")
unfolding perform manager_confirm find
refused = refl

perform_raised_example : (perform clock too_early db).1 ≡ db
perform_raised_example = perform_raised clock too_early db refl refused

perform_trail_example : Begins fresh_task.audit_trail (orm_to_record started).audit_trail
perform_trail_example =
    perform_trail clock start db {row = fresh_task} {rec = orm_to_record started} found_fresh
      performed

fresh-IsIssued : IsIssued db.counters fresh_task
unfolding public_id last_sequence find_counter dept_eq
fresh-IsIssued = record {
  dept = fin;
  year = 2026;
  seq = 1;
  id_made = refl;
  given_out = omega arith;
}

pending-IsIssued : IsIssued db.counters pending_task
unfolding public_id last_sequence find_counter dept_eq
pending-IsIssued = record {
  dept = fin;
  year = 2026;
  seq = 2;
  id_made = refl;
  given_out = omega arith;
}

verified-IsIssued : IsIssued db.counters verified_task
unfolding public_id last_sequence find_counter dept_eq
verified-IsIssued = record {
  dept = fin;
  year = 2026;
  seq = 3;
  id_made = refl;
  given_out = omega arith;
}

pub db-AllIssued : AllIssued db
db-AllIssued = (fresh-IsIssued, (pending-IsIssued, (verified-IsIssued, tt)))

create_from_draft_fresh_example :
    (find_task (new_id clock new_draft ann db) db ≡ none)
    × ((create_from_draft clock new_draft ann db).0
        ≡ ok (orm_to_record (new_row clock new_draft ann (new_id clock new_draft ann db))))
    × (find_task (new_id clock new_draft ann db) (create_from_draft clock new_draft ann db).1
        ≡ some (new_row clock new_draft ann (new_id clock new_draft ann db)))
    × AllIssued (create_from_draft clock new_draft ann db).1
create_from_draft_fresh_example = create_from_draft_fresh clock new_draft ann db db-AllIssued

-- The next task of the department is number 4 of the year.
fourth_id : new_id clock new_draft ann db ≡ "LTM-FIN-2026-0004"
unfolding public_id last_sequence find_counter dept_eq
fourth_id = refl

abbrev this_year : ℕ
this_year = 2026

abbrev first : ℕ
first = 1

public_id-injective_example : (fin ≡ fin) × (this_year ≡ this_year) × (first ≡ first)
public_id-injective_example = public_id-injective fin fin this_year this_year first first refl

abbrev bobs : ListTasksParams
bobs = record { filter = my_tasks; department = none; status = none; limit = 2 }

abbrev is_assigned : TaskOrm → Bool
is_assigned row = status_eq row.status TaskStatus.assigned
