-- ===== src/Bot/Drafts/Once.antt =====
-- The life of a draft in bot/drafts.py, from `stash_draft` to `take_draft`.
use lantern_task_manager.Base.{
  ◌≡◌, refl, ℕ, ◌+◌, ◌≤◌, String, true, false, none, some, ◌==◌, leb, arith, ok, raised,
  draft_access_error, find-key, find-write_self, Option-cases, inl, inr, find-append_new,
}
use lantern_task_manager.Domain.Models.{TaskCreateDraft}
use lantern_task_manager.Storage.Orm.{consumed, TaskDraftOrm, Db, Clock}
use lantern_task_manager.Bot.Drafts.{
  draft_key, find_draft, is_active, not_requester, take_draft, peek_draft, revise_draft,
  discard_draft, stash_draft, completed_draft_task_id, draft_ttl, new_draft,
}
use text.Mathlib.TextPositions.{eq_refl}

module _ (clock : Clock) (draft_id requester : String) (db : Db) where
  -- Whoever takes a draft leaves it consumed.
  take_draft-consumed :
      {draft : TaskCreateDraft}
      → (take_draft clock draft_id requester db).0 ≡ ok (some draft)
      → ((row : TaskDraftOrm) × (find_draft draft_id (take_draft clock draft_id requester db).1
            ≡ some row)
          × (row.state ≡ consumed)
          × ((row.requester_entra_id == requester) ≡ true))
  unfolding take_draft
  take_draft-consumed h = elim (Option-cases (find_draft draft_id db)) [
    | inl absent ↦ grind (arith, absent)
    | inr (row, found) ↦
        let same = find-key draft_key draft_id db.drafts found in
        let row' : TaskDraftOrm = record row { state = consumed; updated_at = clock.now } in
        (row', grind (arith, find-write_self), refl, grind arith)
  ]

  -- A draft that is not active is given to nobody.
  take_draft_inactive :
      (later : Clock) (row : TaskDraftOrm)
      → find_draft draft_id db ≡ some row
      → is_active row.state ≡ false
      → (row.requester_entra_id == requester) ≡ true
      → take_draft later draft_id requester db ≡ (ok none, db)
  unfolding take_draft
  take_draft_inactive later row found closed mine = ground arith

-- A draft is taken once: after a call that returned the draft, every later call by the same
-- requester returns nothing and changes nothing.
pub take_draft_once :
    (clock later : Clock) (draft_id requester : String) (db : Db) {draft : TaskCreateDraft}
    → (take_draft clock draft_id requester db).0 ≡ ok (some draft)
    → take_draft later draft_id requester (take_draft clock draft_id requester db).1
      ≡ (ok none, (take_draft clock draft_id requester db).1)
take_draft_once clock later draft_id requester db h =
    let taken = take_draft-consumed clock draft_id requester db h in
    take_draft_inactive clock draft_id requester _ later taken.0 taken.1 (ground (arith, taken.2))
      taken.3

-- Nobody but its requester can take, read, revise or discard a draft, nor learn the task that it
-- became: the call raises a `DraftAccessError`, and changes nothing.
pub draft_denied :
    (clock : Clock) (draft_id actor : String) (revised : TaskCreateDraft) (db : Db)
    (row : TaskDraftOrm)
    → find_draft draft_id db ≡ some row
    → (row.requester_entra_id == actor) ≡ false
    → (take_draft clock draft_id actor db ≡ (raised (draft_access_error not_requester), db))
      × (peek_draft clock draft_id actor db ≡ (raised (draft_access_error not_requester), db))
      × (revise_draft clock draft_id actor revised db
          ≡ (raised (draft_access_error not_requester), db))
      × (discard_draft clock draft_id actor db ≡ (raised (draft_access_error not_requester), db))
      × (completed_draft_task_id draft_id actor db
          ≡ (raised (draft_access_error not_requester), db))
unfolding take_draft peek_draft revise_draft discard_draft completed_draft_task_id
draft_denied clock draft_id actor revised db row found other =
    (ground arith, ground arith, ground arith, ground arith, ground arith)

-- A draft that was discarded cannot be taken or read any more.
pub discard_draft_final :
    (clock later : Clock) (draft_id requester : String) (db : Db)
    → (discard_draft clock draft_id requester db).0 ≡ ok true
    → ((take_draft later draft_id requester (discard_draft clock draft_id requester db).1).0
        ≡ ok none)
      × ((peek_draft later draft_id requester (discard_draft clock draft_id requester db).1).0
          ≡ ok none)
unfolding discard_draft take_draft peek_draft
discard_draft_final clock later draft_id requester db h =
    elim (Option-cases (find_draft draft_id db)) [
      | inl absent ↦ grind (arith, absent)
      | inr (row, found) ↦
          let same = find-key draft_key draft_id db.drafts found in
          (grind (arith, find-write_self), grind (arith, find-write_self))
    ]

-- What is revised is what is read back: after a revision that succeeds, a read within the next
-- half hour returns the new draft, and the revision number has gone up by one.
revise_draft-peek_draft :
    (clock later : Clock) (draft_id requester : String) (draft : TaskCreateDraft) (db : Db) {n : ℕ}
    → (revise_draft clock draft_id requester draft db).0 ≡ ok (some n)
    → (later.now + 1 ≤ clock.now + draft_ttl)
    → ((peek_draft later draft_id requester (revise_draft clock draft_id requester draft db).1).0
        ≡ ok (some draft))
      × ((row : TaskDraftOrm) × (find_draft draft_id db ≡ some row) × (n ≡ row.revision + 1))
unfolding revise_draft peek_draft
revise_draft-peek_draft clock later draft_id requester draft db h soon =
    elim (Option-cases (find_draft draft_id db)) [
      | inl absent ↦ grind (arith, absent)
      | inr (row, found) ↦
          let same = find-key draft_key draft_id db.drafts found in
          (grind (arith, find-write_self), (row, found, grind arith))
    ]

-- A stashed draft is read back by its requester until half an hour has passed, and not from then on.
stash_draft-peek_draft :
    (clock later : Clock) (draft_id requester : String) (draft : TaskCreateDraft) (db : Db)
    → (stash_draft clock draft_id draft requester db).0 ≡ ok draft_id
    → ((peek_draft later draft_id requester (stash_draft clock draft_id draft requester db).1).0
        ≡ ok (elim (leb (clock.now + draft_ttl) later.now) [ true ↦ none | false ↦ some draft ]))
unfolding stash_draft peek_draft
stash_draft-peek_draft clock later draft_id requester draft db h =
    elim (Option-cases (find_draft draft_id db)) [
      | inr (row, taken) ↦ grind (arith, taken)
      | inl absent ↦ grind (
        arith,
        find-append_new draft_key draft_id (new_draft clock draft_id draft requester) db.drafts
            absent (eq_refl draft_id),
        eq_refl requester,
      )
    ]
