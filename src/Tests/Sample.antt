-- ===== src/Tests/Sample.antt =====
-- Two people of one department, their manager map, and a database with some tasks and drafts.
use lantern_task_manager.Base.{ℕ, String, true, false, Option, none, some, List, [], ◌∷◌, ok}
use lantern_task_manager.Domain.Enums.{fin, TaskStatus, AuditEvent}
use lantern_task_manager.Domain.Models.{
  UserRef, D365References, AuditEntry, TaskCreateDraft, CloseTaskParams,
}
use lantern_task_manager.Policy.Profiles.{RawEmployee}
use lantern_task_manager.Policy.Assignment.{Policy}
use lantern_task_manager.Config.{Settings, World, created_by, status}
use lantern_task_manager.Storage.Orm.{
  TaskOrm, IdempotencyRecord, DraftState, active, TaskDraftOrm, NotificationDeliveryOrm, Db, Clock,
}

abbrev pub settings : Settings
settings = record {
  self_close_auto_verification_enabled = true;
  self_notification_activity_only_enabled = true;
  interaction_coordinator_enabled = true;
  verifier_mode = created_by;
  client_id = "app";
  client_secret = "secret";
  tenant_id = "tenant";
  bot_type = "MultiTenant";
  teams_app_id = "teams";
  teams_app_tenant_id = "tenant";
  notification_activity_enabled = true;
  notification_bot_dm_enabled = true;
}

abbrev pub worker : RawEmployee
worker = record {
  department_code = some "FIN";
  manager_entra_id = none;
  display_name = some "Someone";
  employee_code = none;
  active = none;
}

abbrev pub policy : Policy
policy = record {
  deny_edges = [];
  edges = [];
  allow_same_department = some true;
  allow_cross_department = none;
  allow_ceo_to_direct_reports = none;
  ceo_department_codes = [];
}

-- Everyone is in the directory, the activity feed answers 204, and no conversation can be made.
abbrev pub world : World
world = record {
  settings = settings;
  employees = ("ann", worker) ∷ ("bob", worker) ∷ [];
  policy = policy;
  manager_for_assignee = λ _. none;
  graph_manager = λ _. none;
  post_activity = λ _ _ _. status 204;
  create_conversation = λ _ _. ok none;
  send_message = λ _ _. none;
  iso_date = λ _. "2026-01-05";
  iso_time = λ _. "2026-01-05T09:00:00";
}

abbrev pub clock : Clock
clock = record { now = 1000; today = 20; year = 2026 }

abbrev pub later : Clock
later = record { now = 1600; today = 20; year = 2026 }

abbrev pub ann : UserRef
ann = record { entra_object_id = "ann"; display_name = "Ann"; department = "FIN" }

abbrev pub bob : UserRef
bob = record { entra_object_id = "bob"; display_name = "Bob"; department = "FIN" }

abbrev pub no_references : D365References
no_references = record {
  purchase_order_number = none;
  vendor_account = none;
  vendor_name = none;
  invoice_number = none;
  customer_account = none;
  project_id = none;
}

abbrev entry : AuditEvent → String → AuditEntry
entry event actor = record { event = event; actor_entra_id = actor; at = 900; details = "" }

-- A task of bob's, given to him by ann.
abbrev pub task : String → TaskStatus → Option ℕ → Option ℕ → List AuditEntry → TaskOrm
task id state closed verified trail = record {
  task_id = id;
  task_type = "Payment";
  department_display = "Finance";
  department_code = fin;
  description = "Pay the invoice";
  status = state;
  priority = "Normal";
  created_by_entra_id = "ann";
  created_by_display_name = "Ann";
  created_by_department = "FIN";
  assigned_to_entra_id = "bob";
  assigned_to_display_name = "Bob";
  assigned_to_department = "FIN";
  due_date = 15;
  created_at = 900;
  updated_at = 900;
  closed_at = closed;
  verified_at = verified;
  closure_notes = "";
  rejection_reason = "";
  is_overdue = false;
  escalation_count = 0;
  last_escalated_at = none;
  d365_references = no_references;
  audit_trail = trail;
}

abbrev pub assigned_trail : List AuditEntry
assigned_trail = entry AuditEvent.created "ann" ∷ entry AuditEvent.assigned "ann" ∷ []

abbrev pub fresh_task : TaskOrm
fresh_task = task "LTM-FIN-2026-0001" TaskStatus.assigned none none assigned_trail

abbrev pub pending_task : TaskOrm
pending_task = task "LTM-FIN-2026-0002" TaskStatus.pending_verification (some 950) none (
    entry AuditEvent.created "ann"
    ∷ entry AuditEvent.assigned "ann"
    ∷ entry AuditEvent.acknowledged "bob"
    ∷ entry AuditEvent.closure_requested "bob"
    ∷ [])

abbrev pub verified_task : TaskOrm
verified_task = task "LTM-FIN-2026-0003" TaskStatus.verified (some 950) (some 960) (
    entry AuditEvent.created "ann"
    ∷ entry AuditEvent.assigned "ann"
    ∷ entry AuditEvent.acknowledged "bob"
    ∷ entry AuditEvent.closure_requested "bob"
    ∷ entry AuditEvent.verified "ann"
    ∷ [])

abbrev pub new_draft : TaskCreateDraft
new_draft = record {
  task_type = "Payment";
  description = "Pay the next invoice";
  assignee_entra_id = "bob";
  assignee_display_name = "Bob";
  assignee_department = "FIN";
  assignee_department_code = fin;
  priority = "High";
  due_date = 30;
  d365 = no_references;
}

-- A draft of ann's.
abbrev pub draft : DraftState → String → TaskDraftOrm
draft state task_id = record {
  draft_id = "d1";
  requester_entra_id = "ann";
  payload = new_draft;
  payload_task_id = task_id;
  revision = 1;
  state = state;
  expires_at = 2000;
  created_at = 900;
  updated_at = 900;
}

-- A delivery that no channel took.
abbrev pub failed_delivery : NotificationDeliveryOrm
failed_delivery = record {
  id = 1;
  idempotency_key = "notify:welcome:bob";
  event = "welcome";
  recipient_entra_id = "bob";
  summary = "";
  activity_ok = false;
  bot_dm_ok = false;
  needs_retry = true;
  processed_at = 900;
}

abbrev pub welcomed : IdempotencyRecord
welcomed = record {
  key = "notify:welcome:bob";
  processed_at = 900;
  payload = record { code = ""; text = "" };
}

abbrev pub with_draft : TaskDraftOrm → Db
with_draft row = record {
  tasks = fresh_task ∷ pending_task ∷ verified_task ∷ [];
  counters = record { department_code = fin; year = 2026; last_sequence = 3 } ∷ [];
  drafts = row ∷ [];
  idempotency = welcomed ∷ [];
  deliveries = failed_delivery ∷ [];
  bindings = [];
}

abbrev pub db : Db
db = with_draft (draft active "")

abbrev pub close_fresh : CloseTaskParams
close_fresh = record { task_id = "LTM-FIN-2026-0001"; completion_notes = "Paid" }
