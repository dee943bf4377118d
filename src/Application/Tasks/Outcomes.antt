-- ===== src/Application/Tasks/Outcomes.antt =====
-- Exceptions in application/tasks.py: which are caught where.
use lantern_task_manager.Base.{
  ◌≡◌, ◌∙◌, ap, String, ◌<>◌, Bool, true, false, Option, arith, Outcome, ok, raised, Raised,
  value_error, Session, session_scope, Outcome-cases, Option-cases, Bool-cases, inl, inr, ◌⊎◌,
}
use lantern_task_manager.Domain.Models.{UserRef, TaskRecord, CloseTaskParams}
use lantern_task_manager.Config.{World}
use lantern_task_manager.Storage.Orm.{Db, Clock}
use lantern_task_manager.Storage.Repository.Row.{orm_to_record, find_task}
use lantern_task_manager.Storage.Repository.Lifecycle.{
  assignee_acknowledge, mark_pending_closure_from_assignee, close_and_verify_self, manager_confirm,
}
use lantern_task_manager.Notifications.Events.{NotificationResult}
use lantern_task_manager.Notifications.Service.Messages.{
  notify_task_verified, notify_verify_requested,
}
use lantern_task_manager.Application.Results.{
  UseCaseResult, success, with_warning, Progress, returned, reached,
}
use lantern_task_manager.Application.Tasks.{
  acknowledge, close, verify, auto_verify, close_block, notify, undelivered, verify_block,
}

-- `notify` returns the result it was given, with a warning if the message failed.
pub notify_lem :
    (result : UseCaseResult TaskRecord) (send : Session Db NotificationResult) (db : Db)
    → (((r : NotificationResult) × ((send db).0 ≡ ok r)
          × (notify result send db ≡ (ok result, (send db).1)))
        ⊎ ((e : Raised) × ((send db).0 ≡ raised e)
            × (notify result send db ≡ (ok (with_warning undelivered result), db))))
unfolding notify
notify_lem result send db = elim (Outcome-cases (send db).0) [
  | inl (r, sent) ↦ inl (r, sent, ground (arith, sent))
  | inr (e, failed) ↦ inr (e, failed, ground (arith, failed))
]

module _ (world : World) (clock : Clock) (actor : UserRef) (db : Db) where
  pub acknowledge_returns :
      (task_id : String)
      → ((r : UseCaseResult TaskRecord) × ((acknowledge world clock task_id actor db).0 ≡ ok r))
  unfolding acknowledge assignee_acknowledge
  acknowledge_returns task_id = elim (Outcome-cases (acknowledge world clock task_id actor db).0) [
    | inl a ↦ a
    | inr (e, h) ↦ ground (arith, h)
  ]

  pub verify_returns :
      (task_id : String)
      → ((r : UseCaseResult TaskRecord) × ((verify world clock task_id actor db).0 ≡ ok r))
  unfolding verify verify_block manager_confirm notify
  verify_returns task_id = elim (Outcome-cases (verify world clock task_id actor db).0) [
    | inl a ↦ a
    | inr (e, h) ↦ ground (arith, h)
  ]

  mark_raises :
      (params : CloseTaskParams) (user : String) {e : Raised}
      → (mark_pending_closure_from_assignee clock params user db).0 ≡ raised e
      → ((message : String) × (e ≡ value_error message))
  unfolding mark_pending_closure_from_assignee
  mark_raises params user h = ground arith

  self_close_raises :
      (params : CloseTaskParams) (user : String) {e : Raised}
      → (close_and_verify_self clock params user db).0 ≡ raised e
      → ((message : String) × (e ≡ value_error message))
  unfolding close_and_verify_self
  self_close_raises params user h = ground arith

  mark_cases :
      (params : CloseTaskParams) (user : String)
      → (((rec : TaskRecord) × ((mark_pending_closure_from_assignee clock params user db).0
              ≡ ok rec))
          ⊎ ((message : String) × ((mark_pending_closure_from_assignee clock params user db).0
                ≡ raised (value_error message))))
  mark_cases params user =
      elim (Outcome-cases (mark_pending_closure_from_assignee clock params user db).0) [
        | inl a ↦ inl a
        | inr (e, h) ↦ let m = mark_raises params user h in inr (m.0, h ∙ ap raised m.1)
      ]

  self_close_cases :
      (params : CloseTaskParams) (user : String)
      → (((rec : TaskRecord) × ((close_and_verify_self clock params user db).0 ≡ ok rec))
          ⊎ ((message : String) × ((close_and_verify_self clock params user db).0
                ≡ raised (value_error message))))
  self_close_cases params user =
      elim (Outcome-cases (close_and_verify_self clock params user db).0) [
        | inl a ↦ inl a
        | inr (e, h) ↦ let m = self_close_raises params user h in inr (m.0, h ∙ ap raised m.1)
      ]

  close_block_returns :
      (params : CloseTaskParams)
      → ((p : Progress (Bool × TaskRecord)) × ((close_block world clock params actor db).0 ≡ ok p))
  unfolding close_block
  close_block_returns params = elim (Outcome-cases (close_block world clock params actor db).0) [
    | inl a ↦ a
    | inr (e, bad) ↦ elim (Option-cases (find_task params.task_id db)) [
      | inl absent ↦ ground (arith, absent, bad)
      | inr (row, found) ↦ elim (Bool-cases (auto_verify world clock (orm_to_record row) actor)) [
        | inl auto ↦ elim (self_close_cases params actor.entra_object_id) [
          | inl (rec, h) ↦ ground (arith, found, auto, h, bad)
          | inr (m, h) ↦ ground (arith, found, auto, h, bad)
        ]
        | inr auto ↦ elim (mark_cases params actor.entra_object_id) [
          | inl (rec, h) ↦ ground (arith, found, auto, h, bad)
          | inr (m, h) ↦ ground (arith, found, auto, h, bad)
        ]
      ]
    ]
  ]

  notify_returns :
      (result : UseCaseResult TaskRecord) (send : Session Db NotificationResult) (d : Db)
      → ((r : UseCaseResult TaskRecord) × ((notify result send d).0 ≡ ok r))
  unfolding notify
  notify_returns result send d = elim (notify_lem result send d) [
    | inl (r, sent, e) ↦ (result, ap (λ (x : Outcome (UseCaseResult TaskRecord) × Db). x.0) e)
    | inr (r, sent, e) ↦ (
      with_warning undelivered result,
      ap (λ (x : Outcome (UseCaseResult TaskRecord) × Db). x.0) e,
    )
  ]

  -- No refusal by the repository and no failed message raises out of a close, where the session
  -- commits and the manager map is read.
  close_returns :
      (params : CloseTaskParams) (origin : Option String)
      → ((r : UseCaseResult TaskRecord) × ((close world clock params actor origin db).0 ≡ ok r))
  unfolding close session_scope
  close_returns params origin = let (p, h) = close_block_returns params in after_p p h
    where
      after_p :
          (p : Progress (Bool × TaskRecord))
          → (close_block world clock params actor db).0 ≡ ok p
          → ((r : UseCaseResult TaskRecord) × ((close world clock params actor origin db).0 ≡ ok r))
      after_p (returned result) h = (result, ground (arith, h))
      after_p (reached (true, closed)) h =
          let d = (close_block world clock params actor db).1 in
          let done =
            success closed "TASK_VERIFIED_SELF" (params.task_id <> " closed and verified.") in
          let (r, e) = notify_returns done (notify_task_verified world clock closed origin) d in
          (r, rw h e)
      after_p (reached (false, closed)) h =
          let d = (close_block world clock params actor db).1 in
          let done =
            success closed "TASK_CLOSED" ("Submitted " <> params.task_id <> " for verification.") in
          let (r, e) = notify_returns done (notify_verify_requested world clock closed origin) d in
          (r, rw h e)
