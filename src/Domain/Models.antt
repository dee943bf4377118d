-- ===== src/Domain/Models.antt =====
-- domain/models.py. Dates and times are numbers: days and instants on the program's one clock.
use lantern_task_manager.Base.{ℕ, String, Bool, Option, List}
use lantern_task_manager.Domain.Enums.{DeptCode, TaskStatus, AuditEvent}

pub record UserRef : Type 0 where
  pub entra_object_id : String
  pub display_name : String
  pub department : String

pub record D365References : Type 0 where
  pub purchase_order_number : Option String
  pub vendor_account : Option String
  pub vendor_name : Option String
  pub invoice_number : Option String
  pub customer_account : Option String
  pub project_id : Option String

pub record AuditEntry : Type 0 where
  pub event : AuditEvent
  pub actor_entra_id : String
  pub at : ℕ
  pub details : String

pub record TaskRecord : Type 0 where
  pub id : String
  pub task_type : String
  pub department : String
  pub description : String
  pub status : TaskStatus
  pub priority : String
  pub created_by : UserRef
  pub assigned_to : UserRef
  pub due_date : ℕ
  pub created_at : ℕ
  pub updated_at : ℕ
  pub closed_at : Option ℕ
  pub verified_at : Option ℕ
  pub closure_notes : String
  pub rejection_reason : String
  pub is_overdue : Bool
  pub escalation_count : ℕ
  pub last_escalated_at : Option ℕ
  pub d365_references : D365References
  pub audit_trail : List AuditEntry

-- `priority` is the text that the draft carries, a `Priority` value or any other.
pub record TaskCreateDraft : Type 0 where
  pub task_type : String
  pub description : String
  pub assignee_entra_id : String
  pub assignee_display_name : String
  pub assignee_department : String
  pub assignee_department_code : DeptCode
  pub priority : String
  pub due_date : ℕ
  pub d365 : D365References

pub record CloseTaskParams : Type 0 where
  pub task_id : String
  pub completion_notes : String

pub data ListFilter : Type 0 where
  my_tasks my_requests department all_overdue pending_verification : ListFilter
  my_overdue my_pending_verification : ListFilter

pub record ListTasksParams : Type 0 where
  pub filter : ListFilter
  pub department : Option String
  pub status : Option TaskStatus
  pub limit : ℕ
