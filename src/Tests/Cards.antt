-- ===== src/Tests/Cards.antt =====
-- Card actions and tools at concrete inputs.
use lantern_task_manager.Interaction.Store.{with_row}
use lantern_task_manager.Interaction.Store.{update_row}
use lantern_task_manager.Interaction.Store.{find_row}
use lantern_task_manager.Base.{arith, ◌<◌, ◌∷◌, find}
use lantern_task_manager.Base.{strip}
use lantern_task_manager.Base.{◌≡◌, refl, sym, ◌==◌, if◌then◌else◌, true, none, some, [], ok}
use lantern_task_manager.Storage.Repository.Row.{find_task}
use lantern_task_manager.Bot.CardActions.{CardData, field}
use lantern_task_manager.Interaction.Store.{begin_event}
use lantern_task_manager.Interaction.Store.Revisions.{run}
use lantern_task_manager.Bot.Tools.{Turn, TurnState, stale, close_task, run_guarded_tool}
use lantern_task_manager.Bot.Tools.Stale.{run_guarded_tool-superseded}
use lantern_task_manager.Interaction.Store.Revisions.{revision}
use lantern_task_manager.Interaction.Normalization.{TextTools}
use lantern_task_manager.Bot.Drafts.{take_draft}
use lantern_task_manager.Bot.Tools.{key_of}
use lantern_task_manager.Bot.Tools.Create.{CreateTaskToolParams, superseded_answer, submit}
use lantern_task_manager.Bot.Tools.Create.Superseded.{submit-superseded}
use lantern_task_manager.Tests.Sample.{world, clock, db, bob, fresh_task, new_draft}

abbrev fields : CardData
fields name = if name == "task_id" then some " LTM-FIN-2026-0001 " else none

given_id : field fields "task_id" ≡ some "LTM-FIN-2026-0001"
unfolding strip
given_id = refl

found_fresh : find_task "LTM-FIN-2026-0001" db ≡ some fresh_task
unfolding find
found_fresh = refl

abbrev old_turn : Turn
old_turn = record { actor = bob; conversation_id = "chat"; interaction_revision = some 1 }

abbrev later_state : TurnState
later_state = record {
  db = db;
  rows =
      run true []
        (begin_event true 20 ("bob", "chat") "m2"
          (run true [] (begin_event true 10 ("bob", "chat") "m1" []).1)).1;
  terminal_response = none;
  pending_cards = [];
}

first_revision : some (begin_event true 10 ("bob", "chat") "m1" []).0 ≡ some 1
unfolding begin_event find_row update_row with_row
first_revision = refl

run_guarded_tool-superseded_example :
    ((run_guarded_tool world clock true old_turn
        (close_task (record { task_id = "LTM-FIN-2026-0001"; completion_notes = "Done" }))
        later_state).0
      ≡ ok stale)
    × ((run_guarded_tool world clock true old_turn
          (close_task (record { task_id = "LTM-FIN-2026-0001"; completion_notes = "Done" }))
          later_state).1.db
        ≡ db)
    × ((run_guarded_tool world clock true old_turn
          (close_task (record { task_id = "LTM-FIN-2026-0001"; completion_notes = "Done" }))
          later_state).1.terminal_response
        ≡ none)
run_guarded_tool-superseded_example =
    run_guarded_tool-superseded world clock true old_turn
      (close_task (record { task_id = "LTM-FIN-2026-0001"; completion_notes = "Done" })) later_state
      10 20 "m1" "m2" [] [] [] refl (sym first_revision) refl

abbrev text_tools : TextTools
text_tools = record {
  dashed = λ s. s;
  words = λ s. s ∷ [];
  word_in = λ a s. a == s;
  first_phrase = λ s. s;
  date_from_iso = λ s. none;
  date_signal = λ s. true;
  parse_natural_date = λ now s. some now;
  search_dates = λ now s. [];
}

abbrev asked : CreateTaskToolParams
asked = record {
  task_type = none;
  description = "Pay the invoice";
  assignee = some "me";
  assignee_entra_id = none;
  assignee_display_name = "";
  priority = some "urgent";
  due_date = some "tomorrow";
  d365 = new_draft.d365;
}

newer : 1 < revision (key_of old_turn) later_state.rows
unfolding find_row run begin_event update_row with_row
newer = omega arith

submit-superseded_example :
    ((submit world clock text_tools true old_turn asked [] "d9" new_draft later_state).0
      ≡ ok superseded_answer)
    × ((take_draft clock "d9" "bob"
          (submit world clock text_tools true old_turn asked [] "d9" new_draft later_state).1.db).0
        ≡ ok none)
    × ((submit world clock text_tools true old_turn asked [] "d9" new_draft
          later_state).1.pending_cards
        ≡ [])
unfolding find
submit-superseded_example =
    submit-superseded world clock clock text_tools true old_turn asked [] "d9" new_draft later_state
      1 refl refl newer refl
