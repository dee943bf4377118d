-- ===== src/Bot/CardActions.antt =====
-- bot/card_actions.py. The data of an action gives the text of a field, `none` for one that is missing
-- or no text.
pub mod Routing
use lantern_task_manager.Base.{
  String, ◌<>◌, Bool, true, false, Option, none, some, List, [], ◌∷◌, ◌==◌, strip, truthy,
  if◌then◌else◌, Session, pure, ◌>>=◌,
}
use lantern_task_manager.Domain.Models.{UserRef, TaskRecord, CloseTaskParams}
use lantern_task_manager.Config.{World}
use lantern_task_manager.Storage.Orm.{Db, Clock}
use lantern_task_manager.Application.Results.{UseCaseResult, failure}
use lantern_task_manager.Application.Tasks.{acknowledge, resume, close, verify, reopen, get_task}
use lantern_task_manager.Application.Drafts.{confirm, cancel}

pub data CardValue : Type 0 where
  task : TaskRecord → CardValue
  text : String → CardValue

pub record CardActionDispatch : Type 0 where
  pub handled : Bool
  pub result : Option (UseCaseResult CardValue)

abbrev pub CardData : Type 0
CardData = String → Option String

abbrev pub CardResult : Type 0
CardResult = UseCaseResult CardValue

abbrev value_as : {A : Type 0} → (A → CardValue) → Option A → Option CardValue
value_as f none = none
value_as f (some a) = some (f a)

abbrev pub as_card : {A : Type 0} → (A → CardValue) → UseCaseResult A → CardResult
as_card f r = record {
  ok = r.ok;
  code = r.code;
  message = r.message;
  value = value_as f r.value;
  warnings = r.warnings;
}

abbrev pub missing_draft_id : CardResult
missing_draft_id = failure "MISSING_DRAFT_ID" "Missing draft id."

abbrev pub missing_task_id : CardResult
missing_task_id = failure "MISSING_TASK_ID" "Missing task id."

abbrev given : Option String → Option String
given none = none
given (some value) = if truthy (strip value) then some (strip value) else none

-- `_text`
abbrev pub field : CardData → String → Option String
field fields name = given (fields name)

-- The handlers of `_HANDLERS`.
pub data Handler : Type 0 where
  confirm_draft cancel_draft view acknowledges resumes closes verifies rejects : Handler

abbrev pub handlers : List (String × Handler)
handlers =
    ("draft.confirm", confirm_draft)
    ∷ ("confirm_task", confirm_draft)
    ∷ ("draft.cancel", cancel_draft)
    ∷ ("cancel_draft", cancel_draft)
    ∷ ("task.view", view)
    ∷ ("view_task", view)
    ∷ ("task.acknowledge", acknowledges)
    ∷ ("ack_task", acknowledges)
    ∷ ("task.resume", resumes)
    ∷ ("resume_task", resumes)
    ∷ ("task.close", closes)
    ∷ ("close_task", closes)
    ∷ ("task.verify", verifies)
    ∷ ("manager_verify_confirm", verifies)
    ∷ ("task.reject", rejects)
    ∷ ("manager_verify_reject", rejects)
    ∷ []

abbrev pub handler_in : String → List (String × Handler) → Option Handler
handler_in verb [] = none
handler_in verb ((v, h) ∷ rest) = if v == verb then some h else handler_in verb rest

module _ (world : World) (clock : Clock) (actor : UserRef) where
  abbrev pub as_task : Session Db (UseCaseResult TaskRecord) → Session Db CardResult
  as_task m = do r ← m; pure (as_card task r)

  abbrev pub confirm_by : Option String → Session Db CardResult
  confirm_by none = pure missing_draft_id
  confirm_by (some draft_id) = as_task (confirm world clock draft_id actor none)

  abbrev pub cancel_by : Option String → Session Db CardResult
  cancel_by none = pure missing_draft_id
  cancel_by (some draft_id) = do r ← cancel world clock draft_id actor; pure (as_card text r)

  abbrev pub on_task :
      (String → Session Db (UseCaseResult TaskRecord)) → Option String → Session Db CardResult
  on_task act none = pure missing_task_id
  on_task act (some task_id) = as_task (act task_id)

  abbrev pub close_by : Option String → Option String → Session Db CardResult
  close_by none notes = pure missing_task_id
  close_by (some task_id) none =
      pure (failure "MISSING_COMPLETION_NOTES" "Completion notes required.")
  close_by (some task_id) (some notes) =
      as_task
        (close world clock (record { task_id = task_id; completion_notes = notes }) actor none)

  abbrev pub reject_by : Option String → Option String → Session Db CardResult
  reject_by none reason = pure missing_task_id
  reject_by (some task_id) none = pure (failure "MISSING_REASON" "Rejection reason required.")
  reject_by (some task_id) (some reason) = as_task (reopen world clock task_id reason actor)

  unfoldable pub handle : Handler → CardData → Session Db CardResult
  handle confirm_draft fields = confirm_by (field fields "draft_id")
  handle cancel_draft fields = cancel_by (field fields "draft_id")
  handle view fields = on_task (λ id. get_task world clock id actor) (field fields "task_id")
  handle acknowledges fields =
      on_task (λ id. acknowledge world clock id actor) (field fields "task_id")
  handle resumes fields = on_task (λ id. resume world clock id actor) (field fields "task_id")
  handle closes fields = close_by (field fields "task_id") (field fields "completion_notes")
  handle verifies fields = on_task (λ id. verify world clock id actor) (field fields "task_id")
  handle rejects fields = reject_by (field fields "task_id") (field fields "rejection_reason")

  abbrev pub dispatch_to : Option Handler → CardData → Session Db CardActionDispatch
  dispatch_to none fields = pure (record { handled = false; result = none })
  dispatch_to (some h) fields = do
    r ← handle h fields
    pure (record { handled = true; result = some r })

  -- An action without a verb has the verb "".
  unfoldable pub dispatch_card_action : String → CardData → Session Db CardActionDispatch
  unfolding handle
  dispatch_card_action verb fields = dispatch_to (handler_in verb handlers) fields
