-- ===== src/Config.antt =====
-- src/ltm/config: the settings that the modelled code reads (config/settings.py), the JSON files that
-- it loads (config/artefacts.py), and what it asks of outside services.
use lantern_task_manager.Base.{ℕ, String, Bool, Option, Outcome}
use lantern_task_manager.Domain.Models.{UserRef}
use lantern_task_manager.Policy.Profiles.{Employees}
use lantern_task_manager.Policy.Assignment.{Policy}

pub data VerifierMode : Type 0 where
  created_by manager_map graph_manager : VerifierMode

pub record Settings : Type 0 where
  pub self_close_auto_verification_enabled : Bool
  pub self_notification_activity_only_enabled : Bool
  pub interaction_coordinator_enabled : Bool
  pub verifier_mode : VerifierMode
  pub client_id : String
  pub client_secret : String
  pub tenant_id : String
  pub bot_type : String
  pub teams_app_id : String
  pub teams_app_tenant_id : String
  pub notification_activity_enabled : Bool
  pub notification_bot_dm_enabled : Bool

-- How a request to an outside service ended: with an HTTP status, or with an exception.
pub data Reply : Type 0 where
  status : ℕ → Reply
  failed : String → Reply

-- The directory and policy files and the manager map, which the repository holds in src/config (they
-- are there and hold JSON, so that loading them raises nothing), and what outside services answer while one
-- operation runs: Microsoft Graph for a user's manager (`none` for a failure of any kind), the
-- activity feed, a new Teams conversation (its token may be refused, which raises), and a message to
-- a conversation (`none` when it was delivered, else the exception's text). The two `iso_` functions
-- are Python's `isoformat`.
pub record World : Type 0 where
  pub settings : Settings
  pub employees : Employees
  pub policy : Policy
  pub manager_for_assignee : String → Option String
  pub graph_manager : String → Option UserRef
  pub post_activity : String → String → String → Reply
  pub create_conversation : String → String → Outcome (Option String)
  pub send_message : String → String → Option String
  pub iso_date : ℕ → String
  pub iso_time : ℕ → String
