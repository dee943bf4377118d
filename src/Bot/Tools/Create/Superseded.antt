-- ===== src/Bot/Tools/Create/Superseded.antt =====
-- The draft that bot/tools.py prepares in a turn that a newer event has superseded.
use text.Mathlib.TextPositions.{eq_refl}
use lantern_task_manager.Base.{
  ℕ, ◌<◌, String, ◌≡◌, refl, ap, Bool, true, none, some, [], ◌∷◌, ◌++◌, ok, find-append_new, arith,
  session_scope,
}
use lantern_task_manager.Domain.Models.{TaskCreateDraft}
use lantern_task_manager.Config.{World}
use lantern_task_manager.Storage.Orm.{Db, Clock}
use lantern_task_manager.Bot.Drafts.{
  draft_key, find_draft, new_draft, stash_draft, discard_draft, take_draft,
}
use lantern_task_manager.Bot.Drafts.Once.{discard_draft_final}
use lantern_task_manager.Interaction.Store.{Slots, Pending, review_draft, get}
use lantern_task_manager.Interaction.Store.Revisions.{revision, get_up, stale_write}
use lantern_task_manager.Interaction.Normalization.{TextTools}
use lantern_task_manager.Bot.Tools.{Turn, TurnState, key_of}
use lantern_task_manager.Bot.Tools.Create.{CreateTaskToolParams, superseded_answer, submit}

module _ (clock : Clock) (token requester : String) (draft : TaskCreateDraft) (db : Db) where
  abbrev stashed : Db
  stashed = record db { drafts = db.drafts ++ new_draft clock token draft requester ∷ [] }

  stash_draft_new :
      find_draft token db ≡ none → stash_draft clock token draft requester db ≡ (ok token, stashed)
  unfolding stash_draft
  stash_draft_new absent = ground (arith, absent)

  find_stashed :
      find_draft token db ≡ none
      → find_draft token stashed ≡ some (new_draft clock token draft requester)
  find_stashed absent =
      find-append_new draft_key token (new_draft clock token draft requester) db.drafts absent
        (eq_refl token)

  discard_draft_new :
      find_draft token db ≡ none → (discard_draft clock token requester stashed).0 ≡ ok true
  unfolding discard_draft
  discard_draft_new absent = ground (arith, find_stashed absent, eq_refl requester)

-- A draft that a superseded turn prepares does not stay: where the interaction store has a higher
-- revision than the turn's and the draft's new id is not in use, the answer is that a newer message
-- has superseded the request, the draft can not be confirmed at any later time, and no card is shown;
-- while the coordinator is enabled.
pub submit-superseded :
    (world : World) (clock later : Clock) (tools : TextTools) (terminal : Bool) (turn : Turn)
    (params : CreateTaskToolParams) (dumped : Slots) (token : String) (draft : TaskCreateDraft)
    (s : TurnState) (r : ℕ)
    → world.settings.interaction_coordinator_enabled ≡ true
    → turn.interaction_revision ≡ some r
    → r < revision (key_of turn) s.rows
    → find_draft token s.db ≡ none
    → let (answer, t) = submit world clock tools terminal turn params dumped token draft s in
      (answer ≡ ok superseded_answer)
      × ((take_draft later token turn.actor.entra_object_id t.db).0 ≡ ok none)
      × (t.pending_cards ≡ s.pending_cards)
unfolding submit session_scope
submit-superseded world clock later tools terminal turn params dumped token draft s r on own behind
      absent =
    let pending : Pending = record {
      operation = review_draft;
      slots = [];
      missing_fields = [];
      reference_id = token;
    } in
    let rows = (get true clock.now (key_of turn) s.rows).1 in
    let refused =
      stale_write clock.now (key_of turn) r rows
        (omega (arith, behind, get_up true clock.now (key_of turn) (key_of turn) s.rows)) pending in
    let requester = turn.actor.entra_object_id in
    let db = stashed clock token requester draft s.db in
    let gone = discard_draft_new clock token requester draft s.db absent in
    let discarded : discard_draft clock token requester db
        ≡ (ok true, (discard_draft clock token requester db).1) =
      ap (λ o. (o, (discard_draft clock token requester db).1)) gone in
    rw (own, on, stash_draft_new clock token requester draft s.db absent, refused, discarded)
      (refl, (discard_draft_final clock later token requester db gone).0, refl)
