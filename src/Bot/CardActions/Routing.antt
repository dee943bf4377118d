-- ===== src/Bot/CardActions/Routing.antt =====
-- What the actions of bot/card_actions.py reach.
use lantern_task_manager.Base.{
  String, ◌≡◌, refl, true, false, Option, none, some, ◌==◌, ok, raised, Outcome, Session, continue,
  pure,
}
use lantern_task_manager.Domain.Models.{UserRef, TaskRecord, CloseTaskParams}
use lantern_task_manager.Config.{World}
use lantern_task_manager.Storage.Orm.{TaskOrm, Db, Clock}
use lantern_task_manager.Storage.Repository.Row.{find_task}
use lantern_task_manager.Access.{is_verifier}
use lantern_task_manager.Storage.Repository.Row.{orm_to_record}
use lantern_task_manager.Application.Results.{UseCaseResult}
use lantern_task_manager.Application.Tasks.{acknowledge, resume, close, verify, reopen}
use lantern_task_manager.Application.Tasks.Guards.{assignee_guard, verifier_guard}
use lantern_task_manager.Bot.CardActions.{
  CardData, CardActionDispatch, CardResult, field, as_task, close_by, reject_by, Handler,
  confirm_draft, cancel_draft, view, acknowledges, resumes, closes, verifies, rejects, handler_in,
  handlers, handle, dispatch_card_action,
}

-- The actor has no right to the action on the task: the assignee's actions are another's, and the
-- verifier's are another's.
abbrev pub Unauthorized : World → UserRef → TaskOrm → Handler → Type 0
Unauthorized world actor row acknowledges =
    (row.assigned_to_entra_id == actor.entra_object_id) ≡ false
Unauthorized world actor row resumes = (row.assigned_to_entra_id == actor.entra_object_id) ≡ false
Unauthorized world actor row closes = (row.assigned_to_entra_id == actor.entra_object_id) ≡ false
Unauthorized world actor row verifies =
    is_verifier world actor.entra_object_id (orm_to_record row) ≡ false
Unauthorized world actor row rejects =
    is_verifier world actor.entra_object_id (orm_to_record row) ≡ false
Unauthorized world actor row confirm_draft = ⊥
Unauthorized world actor row cancel_draft = ⊥
Unauthorized world actor row view = ⊥

module _ (world : World) (clock : Clock) (actor : UserRef) (db : Db) where
  as_task_kept :
      (m : Session Db (UseCaseResult TaskRecord)) {r : UseCaseResult TaskRecord}
      → m db ≡ (ok r, db)
      → (as_task world clock actor m db).1 ≡ db
  as_task_kept m e = rw e refl

  module _ (fields : CardData) (task_id : String) (row : TaskOrm)
      (found : find_task task_id db ≡ some row) where
    close_kept :
        (row.assigned_to_entra_id == actor.entra_object_id) ≡ false
        → (notes : Option String) → (close_by world clock actor (some task_id) notes db).1 ≡ db
    close_kept other none = refl
    close_kept other (some notes) =
        let params : CloseTaskParams = record { task_id = task_id; completion_notes = notes } in
        as_task_kept (close world clock params actor none)
          (assignee_guard world clock actor db params none row found other).2

    reject_kept :
        is_verifier world actor.entra_object_id (orm_to_record row) ≡ false
        → (reason : Option String) → (reject_by world clock actor (some task_id) reason db).1 ≡ db
    reject_kept other none = refl
    reject_kept other (some reason) =
        as_task_kept (reopen world clock task_id reason actor)
          (verifier_guard world clock actor db task_id reason row found other).1

    handle_kept :
        (h : Handler)
        → field fields "task_id" ≡ some task_id
        → Unauthorized world actor row h
        → (handle world clock actor h fields db).1 ≡ db
    unfolding handle
    handle_kept acknowledges given other =
        let params : CloseTaskParams = record { task_id = task_id; completion_notes = "" } in
        rw given (
          as_task_kept (acknowledge world clock task_id actor)
            (assignee_guard world clock actor db params none row found other).0)
    handle_kept resumes given other =
        let params : CloseTaskParams = record { task_id = task_id; completion_notes = "" } in
        rw given (
          as_task_kept (resume world clock task_id actor)
            (assignee_guard world clock actor db params none row found other).1)
    handle_kept closes given other = rw given (close_kept other (field fields "completion_notes"))
    handle_kept verifies given other = rw given (
        as_task_kept (verify world clock task_id actor)
          (verifier_guard world clock actor db task_id "" row found other).0)
    handle_kept rejects given other = rw given (reject_kept other (field fields "rejection_reason"))
    handle_kept confirm_draft given other = absurd other
    handle_kept cancel_draft given other = absurd other
    handle_kept view given other = absurd other

-- A card action changes nothing where its actor has no right to it: acknowledging, resuming or closing
-- a task that is assigned to another, verifying or rejecting one whose verifier is another; by either of
-- its verbs, with or without the notes or the reason.
dispatch_card_action-Unauthorized :
    (world : World) (clock : Clock) (actor : UserRef) (db : Db) (verb : String) (h : Handler)
    (fields : CardData) (task_id : String) (row : TaskOrm)
    → handler_in verb handlers ≡ some h
    → field fields "task_id" ≡ some task_id
    → find_task task_id db ≡ some row
    → Unauthorized world actor row h
    → (dispatch_card_action world clock actor verb fields db).1 ≡ db
unfolding dispatch_card_action
dispatch_card_action-Unauthorized world clock actor db verb h fields task_id row routed given found
      other =
    rw routed (
      kept (handle world clock actor h fields db)
        (handle_kept world clock actor db fields task_id row found h given other))
  where
    kept :
        (r : Outcome CardResult × Db)
        → r.1 ≡ db
        → (continue {B = CardActionDispatch} r
            (λ c. pure (record { handled = true; result = some c }))).1
          ≡ db
    kept (ok c, d) e = e
    kept (raised x, d) e = e
