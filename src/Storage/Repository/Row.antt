-- ===== src/Storage/Repository/Row.antt =====
-- Reading and writing one row of the task table.
use lantern_task_manager.Base.{String, Option, none, some, List, [], ◌∷◌, ◌++◌, find, write, clip}
use lantern_task_manager.Base.{Session, ok, raised, value_error}
use lantern_task_manager.Domain.Enums.{AuditEvent}
use lantern_task_manager.Domain.Models.{AuditEntry, TaskRecord}
use lantern_task_manager.Storage.Orm.{TaskOrm, Db, Clock}

-- `_orm_to_record`
unfoldable pub orm_to_record : TaskOrm → TaskRecord
orm_to_record row = record {
  id = row.task_id;
  task_type = row.task_type;
  department = row.department_display;
  description = row.description;
  status = row.status;
  priority = row.priority;
  created_by = record {
    entra_object_id = row.created_by_entra_id;
    display_name = row.created_by_display_name;
    department = row.created_by_department;
  };
  assigned_to = record {
    entra_object_id = row.assigned_to_entra_id;
    display_name = row.assigned_to_display_name;
    department = row.assigned_to_department;
  };
  due_date = row.due_date;
  created_at = row.created_at;
  updated_at = row.updated_at;
  closed_at = row.closed_at;
  verified_at = row.verified_at;
  closure_notes = row.closure_notes;
  rejection_reason = row.rejection_reason;
  is_overdue = row.is_overdue;
  escalation_count = row.escalation_count;
  last_escalated_at = row.last_escalated_at;
  d365_references = row.d365_references;
  audit_trail = row.audit_trail;
}

abbrev pub task_key : TaskOrm → String
task_key row = row.task_id

-- `self.s.get(TaskOrm, task_id)`
abbrev pub find_task : String → Db → Option TaskOrm
find_task task_id db = find task_key task_id db.tasks

-- Assignments to the attributes of a row that the session holds.
abbrev pub save : TaskOrm → Session Db TaskOrm
save row db = (ok row, record db { tasks = write task_key row db.tasks })

abbrev pub row_or_raise : Option TaskOrm → Session Db TaskOrm
row_or_raise none db = (raised (value_error "Task not found"), db)
row_or_raise (some row) db = (ok row, db)

-- `row = self.s.get(TaskOrm, task_id)`, then `if not row: raise ValueError("Task not found")`
abbrev pub require_row : String → Session Db TaskOrm
require_row task_id db = row_or_raise (find_task task_id db) db

-- One more entry at the end of `audit_trail`, its details cut to 1000 characters.
unfoldable pub with_audit : Clock → AuditEvent → String → String → List AuditEntry → List AuditEntry
with_audit clock event actor details trail =
    trail
    ++ record { event = event; actor_entra_id = actor; at = clock.now; details = clip 1000 details }
      ∷ []
