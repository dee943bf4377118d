-- ===== src/Storage/Orm.antt =====
-- storage/orm.py: the tables. JSON columns hold the values that they encode, an enumeration stands
-- for its text, and a row's `id` is its number in the order of insertion.
use lantern_task_manager.Base.{ℕ, String, Bool, Option, List}
use lantern_task_manager.Domain.Enums.{DeptCode, TaskStatus}
use lantern_task_manager.Domain.Models.{D365References, AuditEntry, TaskCreateDraft}

pub record TaskCounter : Type 0 where
  pub department_code : DeptCode
  pub year : ℕ
  pub last_sequence : ℕ

pub record TaskOrm : Type 0 where
  pub task_id : String
  pub task_type : String
  pub department_display : String
  pub department_code : DeptCode
  pub description : String
  pub status : TaskStatus
  pub priority : String
  pub created_by_entra_id : String
  pub created_by_display_name : String
  pub created_by_department : String
  pub assigned_to_entra_id : String
  pub assigned_to_display_name : String
  pub assigned_to_department : String
  pub due_date : ℕ
  pub created_at : ℕ
  pub updated_at : ℕ
  pub closed_at : Option ℕ
  pub verified_at : Option ℕ
  pub closure_notes : String
  pub rejection_reason : String
  pub is_overdue : Bool
  pub escalation_count : ℕ
  pub last_escalated_at : Option ℕ
  pub d365_references : D365References
  pub audit_trail : List AuditEntry

-- `payload` of a response receipt: the JSON object `{"code": ..., "text": ...}`, whose keys may be
-- missing.
pub record Payload : Type 0 where
  pub code : String
  pub text : String

pub record IdempotencyRecord : Type 0 where
  pub key : String
  pub processed_at : ℕ
  pub payload : Payload

pub data DraftState : Type 0 where
  active consumed cancelled : DraftState

-- `payload` is the draft, and beside it the key `_task_id` once the draft has become a task.
pub record TaskDraftOrm : Type 0 where
  pub draft_id : String
  pub requester_entra_id : String
  pub payload : TaskCreateDraft
  pub payload_task_id : String
  pub revision : ℕ
  pub state : DraftState
  pub expires_at : ℕ
  pub created_at : ℕ
  pub updated_at : ℕ

pub record NotificationDeliveryOrm : Type 0 where
  pub id : ℕ
  pub idempotency_key : String
  pub event : String
  pub recipient_entra_id : String
  pub summary : String
  pub activity_ok : Bool
  pub bot_dm_ok : Bool
  pub needs_retry : Bool
  pub processed_at : ℕ

pub record ConversationBinding : Type 0 where
  pub user_entra_id : String
  pub ref_json : String

-- The tables that one session reaches.
pub record Db : Type 0 where
  pub tasks : List TaskOrm
  pub counters : List TaskCounter
  pub drafts : List TaskDraftOrm
  pub idempotency : List IdempotencyRecord
  pub deliveries : List NotificationDeliveryOrm
  pub bindings : List ConversationBinding

-- What `business_now()` and `business_today()` return while one operation runs.
pub record Clock : Type 0 where
  pub now : ℕ
  pub today : ℕ
  pub year : ℕ
