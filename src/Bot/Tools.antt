-- ===== src/Bot/Tools.antt =====
-- bot/tools.py: the tools that change a task or a draft, with the turn of bot/context.py in which they
-- run. The text of a result in JSON is the result itself.
pub mod Stale
pub mod Create
pub mod Lists
use lantern_task_manager.Base.{
  ℕ, String, ◌<>◌, Bool, true, false, not, ◌&&◌, Option, none, some, List, [], ◌∷◌, join, Outcome,
  ok, raised, Session, if◌then◌else◌,
}
use lantern_task_manager.Domain.Models.{UserRef, TaskRecord, CloseTaskParams}
use lantern_task_manager.Config.{World}
use lantern_task_manager.Storage.Orm.{Db, Clock}
use lantern_task_manager.Interaction.Store.{Rows, Key, is_current}
use lantern_task_manager.Application.Results.{UseCaseResult}
use lantern_task_manager.Application.Tasks.{acknowledge, resume, close, verify, reopen}
use lantern_task_manager.Application.Drafts.{confirm, cancel}

-- The turn of `set_turn_context`, with the revision that its event began.
pub record Turn : Type 0 where
  pub actor : UserRef
  pub conversation_id : String
  pub interaction_revision : Option ℕ

-- The database, the interaction store, the terminal response and the cards to show.
pub record TurnState : Type 0 where
  pub db : Db
  pub rows : Rows
  pub terminal_response : Option String
  pub pending_cards : List String

-- What a tool answers the model: `_STALE_RESULT`, or the result of a use case.
pub data ToolResult : Type 0 where
  stale : ToolResult
  json : Bool → String → String → List String → ToolResult

-- The seven tools whose handlers begin with the test for a superseded turn. The tools create_task,
-- list_tasks and get_task_status have no such test: they are in Create and Lists.
pub data GuardedTool : Type 0 where
  acknowledge_task : String → GuardedTool
  confirm_task_draft : String → GuardedTool
  cancel_task_draft : String → GuardedTool
  close_task : CloseTaskParams → GuardedTool
  reopen_task : String → String → GuardedTool
  verify_task : String → GuardedTool
  resume_task : String → GuardedTool

abbrev pub key_of : Turn → Key
key_of turn = (turn.actor.entra_object_id, turn.conversation_id)

module _ (world : World) (clock : Clock) (llm_terminal_responses_enabled : Bool) (turn : Turn) where
  abbrev enabled : Bool
  enabled = world.settings.interaction_coordinator_enabled

  -- Whether a newer event has begun, and the store after looking.
  abbrev not_current : ℕ → Rows → Bool × Rows
  not_current revision rows =
      let (current, rows') = is_current enabled clock.now (key_of turn) revision rows in
      (not current, rows')

  abbrev superseded_at : Option ℕ → Rows → Bool × Rows
  superseded_at none rows = (false, rows)
  superseded_at (some revision) rows = if enabled then not_current revision rows else (false, rows)

  unfoldable pub turn_superseded : Rows → Bool × Rows
  turn_superseded = superseded_at turn.interaction_revision

  unfoldable pub set_terminal_response : String → TurnState → TurnState
  set_terminal_response message s =
      if llm_terminal_responses_enabled then record s { terminal_response = some message } else s

  abbrev with_warnings : String → List String → String
  with_warnings message [] = message
  with_warnings message (w ∷ ws) = message <> " " <> join " " (w ∷ ws)

  -- `_terminal_task_result`
  abbrev pub terminal_task_result :
      {A : Type 0} → TurnState → Outcome (UseCaseResult A) × Db → Outcome ToolResult × TurnState
  terminal_task_result s (ok r, db) = (
    ok (json r.ok r.code r.message r.warnings),
    set_terminal_response (with_warnings r.message r.warnings) (record s { db = db }),
  )
  terminal_task_result s (raised e, db) = (raised e, record s { db = db })

  unfoldable pub use_case : GuardedTool → Session TurnState ToolResult
  unfolding set_terminal_response
  use_case (acknowledge_task id) s =
      terminal_task_result s (acknowledge world clock id turn.actor s.db)
  use_case (confirm_task_draft id) s =
      terminal_task_result s (confirm world clock id turn.actor none s.db)
  use_case (cancel_task_draft id) s = terminal_task_result s (cancel world clock id turn.actor s.db)
  use_case (close_task params) s =
      terminal_task_result s (close world clock params turn.actor none s.db)
  use_case (reopen_task id reason) s =
      terminal_task_result s (reopen world clock id reason turn.actor s.db)
  use_case (verify_task id) s = terminal_task_result s (verify world clock id turn.actor s.db)
  use_case (resume_task id) s = terminal_task_result s (resume world clock id turn.actor s.db)

  -- The handler of one of those tools.
  unfoldable pub run_guarded_tool : GuardedTool → Session TurnState ToolResult
  unfolding turn_superseded use_case
  run_guarded_tool call s =
      let (superseded, rows) = turn_superseded s.rows in
      let looked = record s { rows = rows } in
      if superseded then (ok stale, looked) else use_case call looked
