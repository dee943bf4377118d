-- ===== src/Application/Drafts/Claim.antt =====
-- For `DraftUseCases.confirm`: the block that claims a draft and makes its task.
use lantern_task_manager.Base.{
  ◌≡◌, refl, String, true, false, some, ◌==◌, arith, ok, write, find-write_self, find-key,
}
use lantern_task_manager.Domain.Models.{UserRef}
use lantern_task_manager.Storage.Orm.{active, consumed, TaskDraftOrm, Db, Clock}
use lantern_task_manager.Storage.Repository.Row.{orm_to_record, find_task}
use lantern_task_manager.Storage.Repository.Create.{create_from_draft, new_row, next_sequence}
use lantern_task_manager.Storage.Repository.Create.Fresh.{
  AllIssued, new_id, create_from_draft_fresh,
}
use lantern_task_manager.Bot.Drafts.{
  draft_key, find_draft, save_draft, expired, take_draft, record_draft_task_id,
}
use lantern_task_manager.Application.Results.{reached}
use lantern_task_manager.Config.{World}
use lantern_task_manager.Application.Drafts.{claim_block}

module _ (world : World) (clock : Clock) (draft_id : String) (actor : UserRef) (db : Db)
    (row : TaskDraftOrm) where
  abbrev pub consumed_row : TaskDraftOrm
  consumed_row = record row { state = consumed; updated_at = clock.now }

  abbrev taken : Db
  taken = save_draft consumed_row db

  abbrev pub task_id : String
  task_id = new_id clock row.payload actor db

  abbrev made : Db
  made = (create_from_draft clock row.payload actor taken).1

  abbrev pub final_row : TaskDraftOrm
  final_row = record consumed_row { payload_task_id = task_id }

  take_effect :
      find_draft draft_id db ≡ some row
      → (row.requester_entra_id == actor.entra_object_id) ≡ true
      → row.state ≡ active
      → expired clock row ≡ false
      → take_draft clock draft_id actor.entra_object_id db ≡ (ok (some row.payload), taken)
  unfolding take_draft
  take_effect found mine live fresh = ground arith

  create_drafts : made.drafts ≡ write draft_key consumed_row db.drafts
  unfolding create_from_draft next_sequence
  create_drafts = ground arith

  record_effect :
      find_draft draft_id made ≡ some consumed_row
      → record_draft_task_id clock draft_id task_id made ≡ (ok tt, save_draft final_row made)
  unfolding record_draft_task_id
  record_effect found = ground (arith, found)

  -- The claim of an active draft by its requester returns the new task, and leaves the draft
  -- consumed, with the task's id.
  pub claim_block_lem :
      find_draft draft_id db ≡ some row
      → (row.requester_entra_id == actor.entra_object_id) ≡ true
      → row.state ≡ active
      → expired clock row ≡ false
      → AllIssued db
      → ((claim_block world clock draft_id actor db).0
          ≡ ok (reached (orm_to_record (new_row clock row.payload actor task_id))))
        × (find_task task_id (claim_block world clock draft_id actor db).1
            ≡ some (new_row clock row.payload actor task_id))
        × (find_draft draft_id (claim_block world clock draft_id actor db).1 ≡ some final_row)
        × AllIssued (claim_block world clock draft_id actor db).1
  unfolding claim_block orm_to_record
  claim_block_lem found mine live fresh issued =
      let same = find-key draft_key draft_id db.drafts found in
      let take = take_effect found mine live fresh in
      let create = create_from_draft_fresh clock row.payload actor taken issued in
      let there : find_draft draft_id made ≡ some consumed_row =
        rw create_drafts (find-write_self draft_key draft_id consumed_row db.drafts found same) in
      let note = record_effect there in
      rw take (
        rw create.1 (
          rw note (
            refl,
            create.2,
            find-write_self draft_key draft_id final_row made.drafts there same,
            create.3,
          )))
