-- ===== src/Application/Tasks/Guards.antt =====
-- Authorization in application/tasks.py.
use lantern_task_manager.Base.{
  ℕ, suc, ◌≡◌, refl, ap, ◌∙◌, String, ◌<>◌, Bool, true, false, ◌&&◌, Option, none, some, ◌==◌,
  arith, ok, List, [], ◌∷◌, All, length, keep, take, keep-All, take-All, length-take, ◌≤◌, order_by,
  order_by-All, IsOrdered, order_by-IsOrdered, keep-IsOrdered, take-IsOrdered, count-order_by,
  count-keep, Bool-cases, inl, inr,
}
use Prim.Native.Nat.{min}
use lantern_task_manager.Domain.Models.{UserRef, TaskRecord, CloseTaskParams, ListTasksParams}
use lantern_task_manager.Config.{World}
use lantern_task_manager.Access.{is_verifier, can_view_task}
use lantern_task_manager.Storage.Orm.{TaskOrm, Db, Clock}
use lantern_task_manager.Storage.Repository.Row.{orm_to_record, find_task}
use mathlib.Core.List.{map}
use lantern_task_manager.Storage.Repository.Query.{
  listed, due, list_rows, list_tasks as repo_list_tasks,
}
use lantern_task_manager.Application.Results.{UseCaseResult, success, failure}
use lantern_task_manager.Application.Tasks.{
  acknowledge, resume, close, verify, reopen, get_task, list_tasks, auto_verify, close_block,
  verify_block, reopen_block,
}

abbrev pub due_date_of : TaskRecord → ℕ
due_date_of task = task.due_date

records-All :
    (a : ℕ) (rows : List TaskOrm)
    → All (λ row. a ≤ due row) rows
    → All (λ task. a ≤ due_date_of task) (map orm_to_record rows)
unfolding orm_to_record
records-All a [] h = tt
records-All a (row ∷ rows) h = (h.0, records-All a rows h.1)

records-IsOrdered :
    (rows : List TaskOrm) → IsOrdered due rows → IsOrdered due_date_of (map orm_to_record rows)
unfolding orm_to_record
records-IsOrdered [] h = tt
records-IsOrdered (row ∷ rows) h = (records-All row.due_date rows h.0, records-IsOrdered rows h.1)

abbrev pub only_assignee : String → UseCaseResult TaskRecord
only_assignee operation =
    failure "NOT_ASSIGNEE" ("Only the assignee can " <> operation <> " this task.")

abbrev pub not_verifier : UseCaseResult TaskRecord
not_verifier = failure "NOT_VERIFIER" "You are not the configured verifier for this task."

abbrev pub not_found : UseCaseResult TaskRecord
not_found = failure "NOT_FOUND" "Task not found."

module _ (world : World) (clock : Clock) (actor : UserRef) (db : Db) where
  -- Whoever is not the assignee of a task can neither acknowledge, resume nor close it: they are told
  -- so, and nothing changes.
  pub assignee_guard :
      (params : CloseTaskParams) (origin : Option String) (row : TaskOrm)
      → find_task params.task_id db ≡ some row
      → (row.assigned_to_entra_id == actor.entra_object_id) ≡ false
      → (acknowledge world clock params.task_id actor db ≡ (ok (only_assignee "acknowledge"), db))
        × (resume world clock params.task_id actor db ≡ (ok (only_assignee "resume"), db))
        × (close world clock params actor origin db ≡ (ok (only_assignee "close"), db))
  unfolding acknowledge resume close close_block orm_to_record
  assignee_guard params origin row found other = (ground arith, ground arith, ground arith)

  -- Whoever is not the verifier of a task can neither verify nor reopen it: they are told so, and
  -- nothing changes.
  pub verifier_guard :
      (task_id reason : String) (row : TaskOrm)
      → find_task task_id db ≡ some row
      → is_verifier world actor.entra_object_id (orm_to_record row) ≡ false
      → (verify world clock task_id actor db ≡ (ok not_verifier, db))
        × (reopen world clock task_id reason actor db ≡ (ok not_verifier, db))
  unfolding verify verify_block reopen reopen_block
  verifier_guard task_id reason row found other = (ground arith, ground arith)

  -- An action on a task that does not exist reports so and changes nothing.
  pub missing_guard :
      (params : CloseTaskParams) (reason : String) (origin : Option String)
      → find_task params.task_id db ≡ none
      → (acknowledge world clock params.task_id actor db ≡ (ok not_found, db))
        × (resume world clock params.task_id actor db ≡ (ok not_found, db))
        × (close world clock params actor origin db ≡ (ok not_found, db))
        × (verify world clock params.task_id actor db ≡ (ok not_found, db))
        × (reopen world clock params.task_id reason actor db ≡ (ok not_found, db))
  unfolding acknowledge resume close close_block verify verify_block reopen reopen_block
  missing_guard params reason origin absent =
      (ground arith, ground arith, ground arith, ground arith, ground arith)

  -- A task is closed without a second pair of eyes only when the setting allows it and the actor is
  -- its creator, its assignee and its verifier at once.
  pub auto_verify-true :
      (task : TaskRecord)
      → auto_verify world clock task actor ≡ true
      → (world.settings.self_close_auto_verification_enabled ≡ true)
        × ((task.created_by.entra_object_id == actor.entra_object_id) ≡ true)
        × ((task.assigned_to.entra_object_id == actor.entra_object_id) ≡ true)
        × (is_verifier world actor.entra_object_id task ≡ true)
  unfolding auto_verify is_verifier
  auto_verify-true task h = (ground arith, ground arith, ground arith, ground arith)

  -- `get_task` shows a task exactly to those who may see it, and never changes anything.
  pub get_task_lem :
      (task_id : String) (row : TaskOrm)
      → find_task task_id db ≡ some row
      → get_task world clock task_id actor db ≡ (
        ok (elim (can_view_task world actor.entra_object_id (orm_to_record row)) [
          | true ↦ success (orm_to_record row) "TASK_FOUND" ("Task " <> task_id <> " found.")
          | false ↦ failure "NOT_AUTHORIZED" "You do not have access to this task."
        ]),
        db,
      )
  unfolding get_task
  get_task_lem task_id row found = ground arith

  -- The rows that a listing has to show.
  abbrev pub shows : ListTasksParams → TaskOrm → Bool
  shows params row =
      listed params actor.entra_object_id row
      && can_view_task world actor.entra_object_id (orm_to_record row)

  -- A task that a row gives which is to be shown.
  abbrev pub Shown : ListTasksParams → TaskRecord → Type 0
  Shown params task = (row : TaskOrm) × (task ≡ orm_to_record row) × (shows params row ≡ true)

  candidates : ListTasksParams → List TaskOrm
  candidates params = order_by due (keep (listed params actor.entra_object_id) db.tasks)

  abbrev sees : TaskOrm → Bool
  sees row = can_view_task world actor.entra_object_id (orm_to_record row)

  Shown-All :
      (params : ListTasksParams) (rows : List TaskOrm)
      → All (λ row. listed params actor.entra_object_id row ≡ true) rows
      → All
          (Shown params)
          (keep (can_view_task world actor.entra_object_id) (map orm_to_record rows))
  Shown-All params [] h = tt
  Shown-All params (row ∷ rows) h = elim (Bool-cases (sees row)) [
    | inl e ↦ rw e ((row, refl, ground (arith, e, h.0)), Shown-All params rows h.1)
    | inr e ↦ rw e (Shown-All params rows h.1)
  ]

  count-map :
      (rows : List TaskOrm)
      → length (keep (can_view_task world actor.entra_object_id) (map orm_to_record rows))
        ≡ length (keep sees rows)
  count-map [] = refl
  count-map (row ∷ rows) = elim (Bool-cases (sees row)) [
    | inl e ↦ rw e (ap (λ n. suc n) (count-map rows))
    | inr e ↦ rw e (count-map rows)
  ]

  -- A listing returns and changes nothing. What it shows is listed by its parameters and may be seen by
  -- the actor, is in the order of the due dates, and is as much as there is: all such rows of the table,
  -- or `limit` of them where they are more.
  pub list_tasks_visible :
      (params : ListTasksParams)
      → ((r : UseCaseResult (List TaskRecord)) × (tasks : List TaskRecord) × (list_tasks world clock
              params actor db
            ≡ (ok r, db))
          × (r.value ≡ some tasks)
          × All (Shown params) tasks
          × IsOrdered due_date_of tasks
          × (length tasks ≡ min params.limit (length (keep (shows params) db.tasks))))
  unfolding list_tasks repo_list_tasks list_rows candidates
  list_tasks_visible params =
      let all =
        order_by-All due (λ row. listed params actor.entra_object_id row ≡ true)
          (keep (listed params actor.entra_object_id) db.tasks)
          (keep-All (listed params actor.entra_object_id) db.tasks) in
      let ordered = order_by-IsOrdered due (keep (listed params actor.entra_object_id) db.tasks) in
      let records = map orm_to_record (candidates params) in
      let shown = keep (can_view_task world actor.entra_object_id) records in
      (
        _,
        take params.limit shown,
        refl,
        refl,
        take-All (Shown params) params.limit shown (Shown-All params (candidates params) all),
        take-IsOrdered due_date_of params.limit shown (
            keep-IsOrdered due_date_of (can_view_task world actor.entra_object_id) records
              (records-IsOrdered (candidates params) ordered)),
        length-take params.limit shown
            ∙ ap (λ n. min params.limit n)
                (count-map (candidates params)
                  ∙ count-order_by due sees (keep (listed params actor.entra_object_id) db.tasks)
                  ∙ count-keep sees (listed params actor.entra_object_id) db.tasks),
      )
