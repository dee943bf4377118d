-- ===== src/Bot/Tools/Lists.antt =====
-- The tools of bot/tools.py that list and show tasks.
use lantern_task_manager.Base.{
  String, Bool, true, false, Option, none, some, List, [], ◌∷◌, ◌++◌, truthy, Outcome, ok, raised,
  Session, if◌then◌else◌,
}
use lantern_task_manager.Domain.Models.{TaskRecord, ListTasksParams, department}
use lantern_task_manager.Config.{World}
use lantern_task_manager.Storage.Orm.{Db, Clock}
use lantern_task_manager.Application.Results.{UseCaseResult}
use lantern_task_manager.Application.Tasks.{list_tasks, get_task, search_tasks}
use lantern_task_manager.Bot.Commands.{TaskListVariant, filtered, format_task_list_message}
use lantern_task_manager.Bot.Tools.{
  Turn, TurnState, ToolResult, json, set_terminal_response, terminal_task_result,
}

abbrev value_or_none : Option (List TaskRecord) → List TaskRecord
value_or_none none = []
value_or_none (some tasks) = tasks

abbrev text_given : Option String → String
text_given none = ""
text_given (some s) = s

module _ (world : World) (clock : Clock) (ilike : String → String → Bool)
    (llm_terminal_responses_enabled : Bool) (turn : Turn) where
  abbrev answered : String → TurnState → TurnState
  answered = set_terminal_response world clock llm_terminal_responses_enabled turn

  abbrev listed :
      TaskListVariant
      → TurnState
      → Outcome (UseCaseResult (List TaskRecord)) × Db
      → Outcome String × TurnState
  listed variant s (raised e, db) = (raised e, record s { db = db })
  listed variant s (ok r, db) =
      let response = format_task_list_message world.iso_date (value_or_none r.value) variant in
      (ok response, answered response (record s { db = db }))

  unfoldable pub list_tasks_handler : ListTasksParams → Session TurnState String
  unfolding set_terminal_response
  list_tasks_handler params s =
      listed (filtered params.filter) s (list_tasks world clock params turn.actor s.db)

  -- `_push_task_detail`, with the task's id for its card.
  abbrev push_task_detail : TaskRecord → TurnState → TurnState
  push_task_detail task s = record s { pending_cards = s.pending_cards ++ task.id ∷ [] }

  abbrev shown : Option TaskRecord → TurnState → TurnState
  shown none s = s
  shown (some task) s = push_task_detail task s

  -- `_terminal_task_lookup`, for one task and for a list.
  abbrev task_lookup :
      TurnState → Outcome (UseCaseResult TaskRecord) × Db → Outcome ToolResult × TurnState
  task_lookup s (raised e, db) = (raised e, record s { db = db })
  task_lookup s (ok r, db) =
      if r.ok
      then (
        ok (json true r.code r.message []),
        answered r.message (shown r.value (record s { db = db })),
      )
      else terminal_task_result world clock llm_terminal_responses_enabled turn s (ok r, db)

  abbrev list_lookup :
      TurnState → Outcome (UseCaseResult (List TaskRecord)) × Db → Outcome ToolResult × TurnState
  list_lookup s (raised e, db) = (raised e, record s { db = db })
  list_lookup s (ok r, db) =
      let response =
        format_task_list_message world.iso_date (value_or_none r.value) (filtered department) in
      if r.ok
      then (ok (json true r.code response []), answered response (record s { db = db }))
      else terminal_task_result world clock llm_terminal_responses_enabled turn s (ok r, db)

  abbrev no_lookup : String
  no_lookup = "Provide a task id or search query."

  unfoldable pub get_task_handler : Option String → Option String → Session TurnState ToolResult
  unfolding set_terminal_response
  get_task_handler task_id query s =
      if truthy (text_given task_id)
      then task_lookup s (get_task world clock (text_given task_id) turn.actor s.db)
      else if truthy (text_given query)
      then list_lookup s (search_tasks world clock ilike (text_given query) turn.actor 10 s.db)
      else (ok (json false "TASK_ID_OR_QUERY_REQUIRED" no_lookup []), answered no_lookup s)
