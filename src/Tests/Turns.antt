-- ===== src/Tests/Turns.antt =====
-- The interaction store and the mentions at concrete inputs.
use lantern_task_manager.Base.{not, ◌==◌, lower}
use lantern_task_manager.Base.{strip}
use lantern_task_manager.Base.{rstrip_chars}
use lantern_task_manager.Base.{join}
use lantern_task_manager.Bot.Mentions.{unique_candidate_mentions}
use lantern_task_manager.Bot.Mentions.{normalize_plaintext_mention}
use lantern_task_manager.Bot.Mentions.{unseen}
use lantern_task_manager.Interaction.Store.{new_row, Rows, find_row, with_row}
use lantern_task_manager.Interaction.Store.{update_row}
use lantern_task_manager.Interaction.Store.{find_row}
use lantern_task_manager.Base.{◌+◌, refl, ◌≡◌, ◌≤◌, ◌<◌, refl, true, false, none, some, [], ◌∷◌}
use lantern_task_manager.Interaction.Store.{
  Key, Pending, create_task, begin_event, set_pending, get, clear, is_current, ttl,
}
use lantern_task_manager.Interaction.Store.Revisions.{begins, run, superseded, revision}
use lantern_task_manager.Interaction.Store.Lookup.{set_pending-get}
use lantern_task_manager.Bot.Mentions.{
  MentionResolution, MentionResolutionResult, Entry, Patterns, mention_from_candidate,
}
use lantern_task_manager.Bot.Mentions.Scoring.{rank_and_pick}
use lantern_task_manager.Bot.Mentions.Scoring.Ranking.{Reason, rank_and_pick_sound}
use lantern_task_manager.Bot.Mentions.Resolve.{Activity, resolve_mentions_structured}
use lantern_task_manager.Bot.Mentions.Resolve.Unique.{Fresh, resolved-Fresh}

abbrev key : Key
key = ("ann", "chat")

abbrev asked : Pending
asked = record {
  operation = create_task;
  slots = [];
  missing_fields = "due date" ∷ [];
  reference_id = "";
}

superseded_example :
    (set_pending true 30 key asked (some 1) (
        run true []
          (begin_event true 20 key "m2" (
            run true
              ((15, ("bob", "chat"), begins "m3") ∷ [])
              (begin_event true 10 key "m1" []).1)).1)
      ≡ (
        none,
        run true []
            (begin_event true 20 key "m2" (
              run true
                ((15, ("bob", "chat"), begins "m3") ∷ [])
                (begin_event true 10 key "m1" []).1)).1,
      ))
    × ((is_current true 30 key 1 (
          run true []
            (begin_event true 20 key "m2" (
              run true
                ((15, ("bob", "chat"), begins "m3") ∷ [])
                (begin_event true 10 key "m1" []).1)).1)).0
        ≡ false)
unfolding begin_event find_row update_row with_row
superseded_example =
    superseded 10 20 30 key "m1" "m2" asked ((15, ("bob", "chat"), begins "m3") ∷ []) [] []

abbrev seventh : Rows
seventh = record (new_row 5 key) { revision = 7 } ∷ []

seventh_revision : 7 ≡ revision key seventh
unfolding find_row
seventh_revision = refl

set_pending-get_example :
    ((set_pending true 10 key asked (some 7) seventh).0 ≡ some (revision key seventh))
    × (100 ≤ 10 + ttl
        → get true 100 key (set_pending true 10 key asked (some 7) seventh).1 ≡ (
          some (record {
            revision = revision key seventh;
            operation = some create_task;
            slots = [];
            missing_fields = "due date" ∷ [];
            reference_id = "";
          }),
          (set_pending true 10 key asked (some 7) seventh).1,
        ))
    × (10 + ttl < 100
        → get true 100 key (set_pending true 10 key asked (some 7) seventh).1
          ≡ (none, clear true 100 key (set_pending true 10 key asked (some 7) seventh).1))
set_pending-get_example = set_pending-get 10 100 key asked (some 7) seventh seventh_revision

abbrev patterns : Patterns
patterns = record {
  normalize_text = λ s. s;
  split_whitespace = λ s. s ∷ [];
  plaintext_mentions = λ s. "Omar" ∷ "Omar" ∷ [];
  lower = lower;
  is_upper = λ s. not (s == lower s);
}

abbrev omar : Entry
omar = record {
  entra_object_id = "u1";
  display_name = "Omar";
  department = "Finance";
  mail = "omar@lanternsystems.com";
  upn = "";
  job_title = "";
}

abbrev message : Activity
message = record { text = "@Omar and @Omar"; entities = [] }

abbrev answer : MentionResolutionResult
answer =
    resolve_mentions_structured patterns [] "lanternsystems.com" none (some (λ q. omar ∷ [])) []
      message

resolved-Fresh_example : Fresh [] answer.resolved
resolved-Fresh_example =
    resolved-Fresh patterns [] "lanternsystems.com" none (some (λ q. omar ∷ [])) [] message

omar_once : answer.resolved ≡ mention_from_candidate "@Omar" omar "Omar" ∷ []
unfolding resolve_mentions_structured unseen normalize_plaintext_mention join rstrip_chars strip
    unique_candidate_mentions rank_and_pick
omar_once = refl

abbrev ali : MentionResolution
ali = mention_from_candidate "@Ali" omar "Ali"

rank_and_pick_sound_example : Reason patterns [] "lanternsystems.com" none "Omar" (ali ∷ []) ali
unfolding rank_and_pick
rank_and_pick_sound_example =
    rank_and_pick_sound patterns [] "lanternsystems.com" none "Omar" (ali ∷ []) ali refl
