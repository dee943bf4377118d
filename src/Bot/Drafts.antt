-- ===== src/Bot/Drafts.antt =====
-- bot/drafts.py. The functions that the source runs in their own `session_scope` are given here as
-- the body of that block; `secrets.token_hex` is an argument.
pub mod Once
use lantern_task_manager.Base.{
  ℕ, ◌+◌, String, Bool, true, false, ◌&&◌, Option, none, some, List, [], ◌∷◌, ◌++◌, ◌==◌, leb,
  if◌then◌else◌, truthy, find, write, Session, ok, raised, draft_access_error, runtime_error,
  integrity_error, pure, raise, ensure, ◌>>=◌, ◌>>◌,
}
use lantern_task_manager.Domain.Models.{TaskCreateDraft}
use lantern_task_manager.Storage.Orm.{
  DraftState, active, consumed, cancelled, TaskDraftOrm, Db, Clock,
}

-- `_DRAFT_TTL`, in seconds.
abbrev pub draft_ttl : ℕ
draft_ttl = 1800

abbrev pub draft_key : TaskDraftOrm → String
draft_key row = row.draft_id

abbrev pub find_draft : String → Db → Option TaskDraftOrm
find_draft draft_id db = find draft_key draft_id db.drafts

abbrev pub save_draft : TaskDraftOrm → Db → Db
save_draft row db = record db { drafts = write draft_key row db.drafts }

abbrev pub is_active : DraftState → Bool
is_active active = true
is_active _ = false

abbrev pub is_consumed : DraftState → Bool
is_consumed consumed = true
is_consumed _ = false

abbrev pub new_draft : Clock → String → TaskCreateDraft → String → TaskDraftOrm
new_draft clock draft_id draft requester = record {
  draft_id = draft_id;
  requester_entra_id = requester;
  payload = draft;
  payload_task_id = "";
  revision = 1;
  state = active;
  expires_at = clock.now + draft_ttl;
  created_at = clock.now;
  updated_at = clock.now;
}

abbrev pub not_requester : String
not_requester = "Only the requester who prepared this draft can act on it."

module _ (clock : Clock) where
  unfoldable pub stash_draft : String → TaskCreateDraft → String → Session Db String
  stash_draft draft_id draft requester db = elim (find_draft draft_id db) [
    | none ↦ (
      ok draft_id,
      record db { drafts = db.drafts ++ new_draft clock draft_id draft requester ∷ [] },
    )
    | some taken ↦ (raised integrity_error, db)
  ]

  abbrev pub expired : TaskDraftOrm → Bool
  expired row = leb row.expires_at clock.now

  -- The row of the requester's own draft, if it is still active; one that has expired is cancelled.
  abbrev own : String → Option TaskDraftOrm → Session Db (Option TaskDraftOrm)
  own requester none db = (ok none, db)
  own requester (some row) db =
      if row.requester_entra_id == requester
      then if is_active row.state
        then if expired row
          then (ok none, save_draft (record row { state = cancelled; updated_at = clock.now }) db)
          else (ok (some row), db)
        else (ok none, db)
      else (raised (draft_access_error not_requester), db)

  unfoldable pub owned_row : String → String → Session Db (Option TaskDraftOrm)
  owned_row draft_id requester db = own requester (find_draft draft_id db) db

  -- The conditional update, and what is returned by the number of rows that it changed.
  abbrev claim : TaskCreateDraft → Option TaskDraftOrm → Session Db (Option TaskCreateDraft)
  claim payload none db = (ok none, db)
  claim payload (some row) db =
      if is_active row.state
      then (
        ok (some payload),
        save_draft (record row { state = consumed; updated_at = clock.now }) db,
      )
      else (ok none, db)

  abbrev consume : String → Option TaskDraftOrm → Session Db (Option TaskCreateDraft)
  consume draft_id none db = (ok none, db)
  consume draft_id (some row) db = claim row.payload (find_draft draft_id db) db

  -- `take_draft_in_session`
  unfoldable pub take_draft : String → String → Session Db (Option TaskCreateDraft)
  unfolding owned_row
  take_draft draft_id requester = do row ← owned_row draft_id requester; consume draft_id row

  unfoldable pub peek_draft : String → String → Session Db (Option TaskCreateDraft)
  unfolding owned_row
  peek_draft draft_id requester = do
    row ← owned_row draft_id requester
    pure (elim row [ none ↦ none | some r ↦ some r.payload ])

  abbrev revise : TaskCreateDraft → Option TaskDraftOrm → Session Db (Option ℕ)
  revise draft none db = (ok none, db)
  revise draft (some row) db = (
    ok (some (row.revision + 1)),
    save_draft
        (record row {
          payload = draft;
          payload_task_id = "";
          revision = row.revision + 1;
          expires_at = clock.now + draft_ttl;
          updated_at = clock.now;
        })
        db,
  )

  unfoldable pub revise_draft : String → String → TaskCreateDraft → Session Db (Option ℕ)
  unfolding owned_row
  revise_draft draft_id requester draft = do row ← owned_row draft_id requester; revise draft row

  abbrev discard : Option TaskDraftOrm → Session Db Bool
  discard none db = (ok false, db)
  discard (some row) db =
      (ok true, save_draft (record row { state = cancelled; updated_at = clock.now }) db)

  unfoldable pub discard_draft : String → String → Session Db Bool
  unfolding owned_row
  discard_draft draft_id requester = do row ← owned_row draft_id requester; discard row

  abbrev recorded : String → Option TaskDraftOrm → Session Db (Unit {0})
  recorded task_id none db =
      (raised (runtime_error "Consumed draft disappeared before task result was recorded"), db)
  recorded task_id (some row) db =
      if is_consumed row.state
      then (ok tt, save_draft (record row { payload_task_id = task_id; updated_at = clock.now }) db)
      else (raised (runtime_error "Consumed draft disappeared before task result was recorded"), db)

  unfoldable pub record_draft_task_id : String → String → Session Db (Unit {0})
  record_draft_task_id draft_id task_id db = recorded task_id (find_draft draft_id db) db

abbrev completed : String → Option TaskDraftOrm → Session Db (Option String)
completed requester none db = (ok none, db)
completed requester (some row) db =
    if row.requester_entra_id == requester
    then if is_consumed row.state && truthy row.payload_task_id
      then (ok (some row.payload_task_id), db)
      else (ok none, db)
    else (raised (draft_access_error not_requester), db)

unfoldable pub completed_draft_task_id : String → String → Session Db (Option String)
completed_draft_task_id draft_id requester db = completed requester (find_draft draft_id db) db
