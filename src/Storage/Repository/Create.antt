-- ===== src/Storage/Repository/Create.antt =====
-- `next_sequence` and `create_from_draft`.
pub mod Counters
pub mod Fresh
use lantern_task_manager.Base.{
  ℕ, ◌+◌, String, Bool, false, ◌&&◌, Option, none, some, List, [], ◌∷◌, ◌++◌, eqb, if◌then◌else◌,
  Session, pure, raise, Outcome, ok, integrity_error, raised, ◌>>=◌, ◌>>◌, ensure,
}
use lantern_task_manager.Domain.Enums.{
  DeptCode, dept_eq, dept_value, dept_display, TaskStatus, AuditEvent,
}
use lantern_task_manager.Domain.Models.{UserRef, TaskCreateDraft, TaskRecord, AuditEntry}
use lantern_task_manager.Storage.Orm.{TaskCounter, TaskOrm, Db, Clock}
use lantern_task_manager.Storage.Repository.Row.{orm_to_record, find_task}
use lantern_task_manager.Storage.Repository.PublicId.{public_id}

abbrev pub counter_is : DeptCode → ℕ → TaskCounter → Bool
counter_is dept year c = dept_eq c.department_code dept && eqb c.year year

-- The query on `TaskCounter` for a department and a year.
unfoldable pub find_counter : DeptCode → ℕ → List TaskCounter → Option TaskCounter
find_counter dept year [] = none
find_counter dept year (c ∷ counters) =
    if counter_is dept year c then some c else find_counter dept year counters

unfoldable pub write_counter : TaskCounter → List TaskCounter → List TaskCounter
write_counter c [] = []
write_counter c (x ∷ counters) =
    if counter_is c.department_code c.year x then c ∷ counters else x ∷ write_counter c counters

-- `row.last_sequence += 1`, flushed, and returned.
abbrev increment : TaskCounter → Session Db ℕ
increment row db = (
  ok (row.last_sequence + 1),
  record db {
    counters = write_counter (record row { last_sequence = row.last_sequence + 1 }) db.counters;
  },
)

-- The counter that was found, or a new one at 0.
abbrev next_of : DeptCode → ℕ → Option TaskCounter → Session Db ℕ
next_of dept year none db =
    let row : TaskCounter = record { department_code = dept; year = year; last_sequence = 0 } in
    increment row (record db { counters = db.counters ++ row ∷ [] })
next_of dept year (some row) db = increment row db

unfoldable pub next_sequence : DeptCode → ℕ → Session Db ℕ
next_sequence dept year db = next_of dept year (find_counter dept year db.counters) db

-- `self.s.add(row)` and the flush, which refuses a primary key that is taken.
abbrev add_task : TaskOrm → Session Db TaskOrm
add_task row db = elim (find_task row.task_id db) [
  | none ↦ (ok row, record db { tasks = db.tasks ++ row ∷ [] })
  | some taken ↦ (raised integrity_error, db)
]

-- The row of a new task.
abbrev pub new_row : Clock → TaskCreateDraft → UserRef → String → TaskOrm
new_row clock draft requester task_id = record {
  task_id = task_id;
  task_type = draft.task_type;
  department_display = dept_display draft.assignee_department_code;
  department_code = draft.assignee_department_code;
  description = draft.description;
  status = TaskStatus.assigned;
  priority = draft.priority;
  created_by_entra_id = requester.entra_object_id;
  created_by_display_name = requester.display_name;
  created_by_department = requester.department;
  assigned_to_entra_id = draft.assignee_entra_id;
  assigned_to_display_name = draft.assignee_display_name;
  assigned_to_department = draft.assignee_department;
  due_date = draft.due_date;
  created_at = clock.now;
  updated_at = clock.now;
  closed_at = none;
  verified_at = none;
  closure_notes = "";
  rejection_reason = "";
  is_overdue = false;
  escalation_count = 0;
  last_escalated_at = none;
  d365_references = draft.d365;
  audit_trail =
      record {
        event = AuditEvent.created;
        actor_entra_id = requester.entra_object_id;
        at = clock.now;
        details = "";
      }
      ∷ record {
        event = AuditEvent.assigned;
        actor_entra_id = requester.entra_object_id;
        at = clock.now;
        details = draft.assignee_entra_id;
      }
      ∷ [];
}

unfoldable pub create_from_draft : Clock → TaskCreateDraft → UserRef → Session Db TaskRecord
create_from_draft clock draft requester = do
  seq ← next_sequence draft.assignee_department_code clock.year
  row ←
      add_task
        (new_row clock draft requester (public_id draft.assignee_department_code clock.year seq))
  pure (orm_to_record row)
