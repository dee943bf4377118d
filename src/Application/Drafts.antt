-- ===== src/Application/Drafts.antt =====
-- application/drafts.py: `DraftUseCases`.
pub mod Claim
pub mod Once
use lantern_task_manager.Base.{
  String, ◌<>◌, Bool, true, false, Option, none, some, Outcome, ok, raised, policy_denied,
  profile_not_found, Session, pure, raise, ◌>>=◌, ◌>>◌, session_scope, catch_draft_access_error,
  catch_any,
}
use lantern_task_manager.Domain.Models.{UserRef, TaskRecord, TaskCreateDraft}
use lantern_task_manager.Config.{World}
use lantern_task_manager.Policy.Assignment.{assert_assignee_department_matches, assert_can_assign}
use lantern_task_manager.Storage.Orm.{Db, Clock}
use lantern_task_manager.Storage.Repository.Lifecycle.{get}
use lantern_task_manager.Storage.Repository.Create.{create_from_draft}
use lantern_task_manager.Notifications.Service.Messages.{notify_task_assigned}
use lantern_task_manager.Bot.Drafts.{
  take_draft, peek_draft, discard_draft, completed_draft_task_id, record_draft_task_id,
}
use lantern_task_manager.Application.Results.{
  UseCaseResult, success, failure, with_warning, Progress, returned, reached,
}

abbrev pub created : TaskRecord → UseCaseResult TaskRecord
created task = success task "TASK_CREATED" ("Task created: " <> task.id)

abbrev pub confirm_expired : UseCaseResult TaskRecord
confirm_expired = failure "DRAFT_EXPIRED" "Draft expired or already confirmed."

abbrev pub unnotified : String
unnotified = "The task was created, but the assignee notification could not be delivered."

-- The two assertions on the draft: both of their exceptions are an `AssignmentPolicyError`.
abbrev then_check {ℓ} : {A : Type ℓ} → Outcome A → Outcome (Unit {0}) → Outcome (Unit {0})
then_check (raised e) next = raised e
then_check (ok a) next = next

abbrev checked :
    Outcome (Unit {0})
    → Session Db (UseCaseResult TaskRecord)
    → Session Db (UseCaseResult TaskRecord)
checked (ok u) body = body
checked (raised (policy_denied message)) body = pure (failure "ASSIGNMENT_DENIED" message)
checked (raised (profile_not_found message)) body = pure (failure "ASSIGNMENT_DENIED" message)
checked (raised e) body = raise e

-- `except DraftAccessError as exc: return UseCaseResult.failure(...)`
abbrev or_not_requester : {A : Type 0} → Session Db (Progress A) → Session Db (Progress A)
or_not_requester m =
    catch_draft_access_error m (λ message. pure (returned (failure "NOT_DRAFT_REQUESTER" message)))

module _ (world : World) (clock : Clock) where
  -- `peek_draft`, `completed_draft_task_id` and the read of the task each have a session.
  abbrev finished : Option TaskRecord → UseCaseResult TaskRecord
  finished none = confirm_expired
  finished (some task) = created task

  abbrev after_completed : Progress (Option String) → Session Db (UseCaseResult TaskRecord)
  after_completed (returned result) = pure result
  after_completed (reached none) = pure confirm_expired
  after_completed (reached (some task_id)) = do
    task ← session_scope (get task_id)
    pure (finished task)

  -- The block that claims the draft and makes the task.
  abbrev made : String → UserRef → Option TaskCreateDraft → Session Db (Progress TaskRecord)
  made draft_id actor none = pure (returned confirm_expired)
  made draft_id actor (some draft) = do
    task ← create_from_draft clock draft actor
    record_draft_task_id clock draft_id task.id
    pure (reached task)

  -- A notification without an origin is the actor's.
  abbrev pub origin_or : Option String → UserRef → Option String
  origin_or none actor = some actor.entra_object_id
  origin_or (some origin) actor = some origin

  abbrev announced :
      UserRef → Option String → Progress TaskRecord → Session Db (UseCaseResult TaskRecord)
  announced actor origin (returned result) = pure result
  announced actor origin (reached task) =
      catch_any
        (do
          session_scope (notify_task_assigned world clock task (origin_or origin actor))
          pure (created task))
        (pure (with_warning unnotified (created task)))

  -- The block that claims the draft, and what comes after it.
  unfoldable pub claim_block : String → UserRef → Session Db (Progress TaskRecord)
  claim_block draft_id actor = do
    claimed ← take_draft clock draft_id actor.entra_object_id
    made draft_id actor claimed

  abbrev create : String → UserRef → Option String → Session Db (UseCaseResult TaskRecord)
  create draft_id actor origin = do
    progress ← or_not_requester (session_scope (claim_block draft_id actor))
    announced actor origin progress

  unfoldable pub allowed_by_policy : UserRef → TaskCreateDraft → Outcome (Unit {0})
  allowed_by_policy actor draft =
      then_check
        (assert_assignee_department_matches world.employees draft.assignee_entra_id
          draft.assignee_department_code)
        (assert_can_assign world.policy world.employees actor.entra_object_id
          draft.assignee_entra_id)

  abbrev after_peek :
      String
      → UserRef
      → Option String
      → Progress (Option TaskCreateDraft)
      → Session Db (UseCaseResult TaskRecord)
  after_peek draft_id actor origin (returned result) = pure result
  after_peek draft_id actor origin (reached none) = do
    progress ← or_not_requester (do
      task_id ← session_scope (completed_draft_task_id draft_id actor.entra_object_id)
      pure (reached task_id))
    after_completed progress
  after_peek draft_id actor origin (reached (some draft)) =
      checked (allowed_by_policy actor draft) (create draft_id actor origin)

  unfoldable pub confirm : String → UserRef → Option String → Session Db (UseCaseResult TaskRecord)
  unfolding session_scope get
  confirm draft_id actor origin = do
    progress ← or_not_requester (do
      draft ← session_scope (peek_draft clock draft_id actor.entra_object_id)
      pure (reached draft))
    after_peek draft_id actor origin progress

  abbrev cancelled_or : String → Bool → UseCaseResult String
  cancelled_or draft_id true = success draft_id "DRAFT_CANCELLED" "Draft cancelled."
  cancelled_or draft_id false = failure "DRAFT_EXPIRED" "Draft expired or already cancelled."

  unfoldable pub cancel : String → UserRef → Session Db (UseCaseResult String)
  unfolding session_scope
  cancel draft_id actor =
      catch_draft_access_error
        (do
          found ← session_scope (discard_draft clock draft_id actor.entra_object_id)
          pure (cancelled_or draft_id found))
        (λ message. pure (failure "NOT_DRAFT_REQUESTER" message))
