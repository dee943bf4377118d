-- ===== src/Application/Tasks.antt =====
-- application/tasks.py: `TaskUseCases`. An `await` runs its call at once, and what the coordinator
-- knows of the actor is the `origin` of a notification.
pub mod Guards
pub mod Outcomes
pub mod Blocks
pub mod Effects
use lantern_task_manager.Base.{
  String, ◌<>◌, Bool, true, false, ◌&&◌, Option, none, some, List, ◌==◌, if◌then◌else◌, length,
  keep, take, Session, ok, pure, ◌>>=◌, ◌>>◌, session_scope, catch_value_error, catch_any, ℕ,
}
use lantern_task_manager.Domain.Models.{UserRef, TaskRecord, CloseTaskParams, ListTasksParams}
use lantern_task_manager.Config.{World}
use lantern_task_manager.Access.{verifier_ref, is_verifier, can_view_task}
use lantern_task_manager.Storage.Orm.{Db, Clock}
use lantern_task_manager.Storage.Repository.PublicId.{decimal}
use lantern_task_manager.Storage.Repository.Lifecycle.{
  get, assignee_acknowledge, assignee_resume, mark_pending_closure_from_assignee,
  close_and_verify_self, manager_confirm, manager_reject,
}
use lantern_task_manager.Storage.Repository.Query.{
  list_tasks as repo_list_tasks, search_tasks as repo_search,
}
use lantern_task_manager.Notifications.Events.{NotificationResult}
use lantern_task_manager.Notifications.Service.Messages.{
  notify_task_verified, notify_verify_requested, notify_task_reopened,
}
use lantern_task_manager.Application.Results.{
  UseCaseResult, success, failure, with_warning, Progress, returned, reached,
}

module _ {A : Type 0} where
  -- `_require_assignee`, and the early return of a denial.
  abbrev pub require_assignee :
      Option TaskRecord
      → UserRef
      → String
      → (TaskRecord → Session Db (Progress A))
      → Session Db (Progress A)
  require_assignee none actor operation body =
      pure (returned (failure "NOT_FOUND" "Task not found."))
  require_assignee (some task) actor operation body =
      if task.assigned_to.entra_object_id == actor.entra_object_id
      then body task
      else pure (
          returned
            (failure "NOT_ASSIGNEE" ("Only the assignee can " <> operation <> " this task.")))

  -- `_require_verifier`, and the early return of a denial.
  abbrev pub require_verifier :
      World
      → Option TaskRecord
      → UserRef
      → (TaskRecord → Session Db (Progress A))
      → Session Db (Progress A)
  require_verifier world none actor body = pure (returned (failure "NOT_FOUND" "Task not found."))
  require_verifier world (some task) actor body =
      if is_verifier world actor.entra_object_id task
      then body task
      else pure
          (returned (failure "NOT_VERIFIER" "You are not the configured verifier for this task."))

  -- `except ValueError as exc: return UseCaseResult.failure(...)`
  abbrev pub or_invalid_status : Session Db A → Session Db (Progress A)
  or_invalid_status m =
      catch_value_error (do a ← m; pure (reached a))
        (λ message. pure (returned (failure "INVALID_STATUS" message)))

abbrev undelivered : String
undelivered = "The task was updated, but its notification could not be delivered."

-- `_notify`
unfoldable pub notify :
    UseCaseResult TaskRecord → Session Db NotificationResult → Session Db (UseCaseResult TaskRecord)
unfolding session_scope
notify result send =
    catch_any (do session_scope send; pure result) (pure (with_warning undelivered result))

module _ (world : World) (clock : Clock) where
  -- The result of a block that ends without a notification.
  abbrev finish :
      (TaskRecord → UseCaseResult TaskRecord)
      → Progress TaskRecord
      → Session Db (UseCaseResult TaskRecord)
  finish done (returned result) = pure result
  finish done (reached changed) = pure (done changed)

  -- `_assignee_transition`
  unfoldable pub assignee_transition :
      String
      → UserRef
      → String
      → Session Db TaskRecord
      → String
      → String
      → Session Db (UseCaseResult TaskRecord)
  unfolding session_scope get
  assignee_transition task_id actor operation change code message = do
    progress ← session_scope (do
      task ← get task_id
      require_assignee task actor operation (λ _. or_invalid_status change))
    finish (λ changed. success changed code message) progress

  unfoldable pub acknowledge : String → UserRef → Session Db (UseCaseResult TaskRecord)
  unfolding assignee_transition
  acknowledge task_id actor =
      assignee_transition task_id actor "acknowledge"
        (assignee_acknowledge clock task_id actor.entra_object_id) "TASK_ACKNOWLEDGED"
        ("Acknowledged: " <> task_id <> ". Task is now in progress.")

  unfoldable pub resume : String → UserRef → Session Db (UseCaseResult TaskRecord)
  unfolding assignee_transition
  resume task_id actor =
      assignee_transition task_id actor "resume"
        (assignee_resume clock task_id actor.entra_object_id) "TASK_RESUMED"
        ("Resumed: " <> task_id <> ". Task is now in progress.")

  -- `auto_verify`
  unfoldable pub auto_verify : TaskRecord → UserRef → Bool
  auto_verify task actor =
      world.settings.self_close_auto_verification_enabled
      && (task.created_by.entra_object_id == actor.entra_object_id
          && (task.assigned_to.entra_object_id == actor.entra_object_id
              && (verifier_ref world task).entra_object_id == actor.entra_object_id))

  abbrev close_as : Bool → CloseTaskParams → UserRef → Session Db (Bool × TaskRecord)
  close_as true params actor = do
    closed ← close_and_verify_self clock params actor.entra_object_id
    pure (true, closed)
  close_as false params actor = do
    closed ← mark_pending_closure_from_assignee clock params actor.entra_object_id
    pure (false, closed)

  abbrev after_close :
      CloseTaskParams
      → Option String
      → Progress (Bool × TaskRecord)
      → Session Db (UseCaseResult TaskRecord)
  after_close params origin (returned result) = pure result
  after_close params origin (reached (true, closed)) =
      notify (success closed "TASK_VERIFIED_SELF" (params.task_id <> " closed and verified."))
        (notify_task_verified world clock closed origin)
  after_close params origin (reached (false, closed)) =
      notify (success closed "TASK_CLOSED" ("Submitted " <> params.task_id <> " for verification."))
        (notify_verify_requested world clock closed origin)

  -- The body of the first session of `close`.
  unfoldable pub close_block : CloseTaskParams → UserRef → Session Db (Progress (Bool × TaskRecord))
  unfolding get
  close_block params actor = do
    task ← get params.task_id
    require_assignee task actor "close"
        (λ task. or_invalid_status (close_as (auto_verify task actor) params actor))

  unfoldable pub close :
      CloseTaskParams → UserRef → Option String → Session Db (UseCaseResult TaskRecord)
  unfolding session_scope
  close params actor origin = do
    progress ← session_scope (close_block params actor)
    after_close params origin progress

  abbrev after :
      (TaskRecord → UseCaseResult TaskRecord)
      → (TaskRecord → Session Db NotificationResult)
      → Progress TaskRecord
      → Session Db (UseCaseResult TaskRecord)
  after done send (returned result) = pure result
  after done send (reached changed) = notify (done changed) (send changed)

  -- The body of the first session of `verify`.
  unfoldable pub verify_block : String → UserRef → Session Db (Progress TaskRecord)
  unfolding get
  verify_block task_id actor = do
    task ← get task_id
    require_verifier world task actor
        (λ _. or_invalid_status (manager_confirm clock task_id actor.entra_object_id))

  unfoldable pub verify : String → UserRef → Session Db (UseCaseResult TaskRecord)
  unfolding session_scope
  verify task_id actor = do
    progress ← session_scope (verify_block task_id actor)
    after (λ verified. success verified "TASK_VERIFIED" (task_id <> " verified."))
        (λ verified. notify_task_verified world clock verified none) progress

  -- The body of the first session of `reopen`.
  unfoldable pub reopen_block : String → String → UserRef → Session Db (Progress TaskRecord)
  unfolding get
  reopen_block task_id reason actor = do
    task ← get task_id
    require_verifier world task actor
        (λ _. or_invalid_status (manager_reject clock task_id actor.entra_object_id reason))

  unfoldable pub reopen : String → String → UserRef → Session Db (UseCaseResult TaskRecord)
  unfolding session_scope
  reopen task_id reason actor = do
    progress ← session_scope (reopen_block task_id reason actor)
    after (λ reopened. success reopened "TASK_REOPENED" (task_id <> " reopened."))
        (λ reopened. notify_task_reopened world clock reopened reason) progress

  -- The list that both listings return, of what the actor may see.
  abbrev visible : UserRef → ℕ → List TaskRecord → List TaskRecord
  visible actor limit tasks = take limit (keep (can_view_task world actor.entra_object_id) tasks)

  abbrev found : List TaskRecord → String → UseCaseResult (List TaskRecord)
  found tasks code = success tasks code ("Found " <> decimal (length tasks) <> " task(s).")

  unfoldable pub list_tasks :
      ListTasksParams → UserRef → Session Db (UseCaseResult (List TaskRecord))
  unfolding session_scope
  list_tasks params actor = do
    tasks ← session_scope (do
      candidates ← repo_list_tasks params actor.entra_object_id false
      pure (visible actor params.limit candidates))
    pure (found tasks "TASKS_LISTED")

  abbrev seen : String → UserRef → Option TaskRecord → UseCaseResult TaskRecord
  seen task_id actor none = failure "NOT_FOUND" ("Task " <> task_id <> " was not found.")
  seen task_id actor (some task) =
      if can_view_task world actor.entra_object_id task
      then success task "TASK_FOUND" ("Task " <> task_id <> " found.")
      else failure "NOT_AUTHORIZED" "You do not have access to this task."

  unfoldable pub get_task : String → UserRef → Session Db (UseCaseResult TaskRecord)
  unfolding session_scope get
  get_task task_id actor = do task ← session_scope (get task_id); pure (seen task_id actor task)

  unfoldable pub search_tasks :
      (String → String → Bool) → String → UserRef → ℕ → Session Db (UseCaseResult (List TaskRecord))
  unfolding session_scope
  search_tasks ilike query actor limit = do
    tasks ←
        session_scope (do matches ← repo_search ilike query 100; pure (visible actor limit matches))
    pure (found tasks "TASKS_FOUND")
