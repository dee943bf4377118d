-- ===== src/Bot/Tools/Stale.antt =====
-- The tools of a turn of bot/tools.py that a later event has superseded.
use lantern_task_manager.Base.{ℕ, String, ◌≡◌, refl, ap, ◌∙◌, Bool, true, false, some, List, [], ok}
use lantern_task_manager.Config.{World}
use lantern_task_manager.Storage.Orm.{Clock}
use lantern_task_manager.Interaction.Store.{
  Rows, Key, Pending, create_task, begin_event, is_current,
}
use lantern_task_manager.Interaction.Store.Revisions.{StoreCall, run, superseded}
use lantern_task_manager.Bot.Tools.{
  Turn, TurnState, stale, GuardedTool, key_of, turn_superseded, run_guarded_tool,
}

-- A superseded turn changes no task and settles no draft by a guarded tool: once a later event of its actor and conversation has begun, after
-- whatever calls on the interaction store before and since, acknowledge_task, confirm_task_draft,
-- cancel_task_draft, close_task, reopen_task, verify_task and resume_task answer that they are stale,
-- and leave the database and the terminal response as they were; while the coordinator is enabled.
pub run_guarded_tool-superseded :
    (world : World) (clock : Clock) (terminal : Bool) (turn : Turn) (call : GuardedTool)
    (s : TurnState) (begin next : ℕ) (a b : String) (cs ds : List (ℕ × Key × StoreCall))
    (rows : Rows)
    → world.settings.interaction_coordinator_enabled ≡ true
    → let (r, begun_rows) = begin_event true begin (key_of turn) a rows in
      turn.interaction_revision ≡ some r
      → s.rows ≡ run true ds (begin_event true next (key_of turn) b (run true cs begun_rows)).1
      → let (result, t) = run_guarded_tool world clock terminal turn call s in
        (result ≡ ok stale) × (t.db ≡ s.db) × (t.terminal_response ≡ s.terminal_response)
unfolding run_guarded_tool turn_superseded
run_guarded_tool-superseded world clock terminal turn call s begin next a b cs ds rows on own
      since =
    let nothing : Pending = record {
      operation = create_task;
      slots = [];
      missing_fields = [];
      reference_id = "";
    } in
    let r = (begin_event true begin (key_of turn) a rows).0 in
    let over : (is_current true clock.now (key_of turn) r s.rows).0 ≡ false =
      ap (λ q. (is_current true clock.now (key_of turn) r q).0) since
      ∙ (superseded begin next clock.now (key_of turn) a b nothing cs ds rows).1 in
    rw (own, on, over) (refl, refl, refl)
