-- ===== src/Notifications/Jobs/Once.antt =====
-- Repeated runs of the daily jobs of notifications/scheduled_jobs.py.
use lantern_task_manager.Base.{
  ◌≡◌, refl, ap, ◌∙◌, ℕ, ◌+◌, String, ◌<>◌, Bool, true, false, ◌&&◌, Option, List, [], ◌∷◌, arith,
  keep, ltb, Outcome, ok, raised, value_error, find-append, Outcome-cases, Bool-cases, inl, inr,
}
use text.Mathlib.TextPositions.{eq_refl}
use lantern_task_manager.Domain.Enums.{status_eq, in_progress}
use mathlib.Core.List.{map}
use lantern_task_manager.Storage.Repository.Row.{orm_to_record}
use lantern_task_manager.Domain.Models.{TaskRecord}
use lantern_task_manager.Config.{World}
use lantern_task_manager.Storage.Orm.{Db, Clock, IdempotencyRecord}
use lantern_task_manager.Storage.Repository.Query.{list_overdue_in_progress}
use lantern_task_manager.Storage.Repository.Sweep.{refresh_overdue_flags}
use lantern_task_manager.Notifications.Channels.Frame.{send_bot_dm_frame}
use lantern_task_manager.Notifications.Service.{
  Message, deliver_hybrid, has_receipt, add_receipt, receipt_key, try_consume_idempotency,
}
use lantern_task_manager.Notifications.Service.Messages.{
  notify_overdue_assignee, notify_overdue_creator,
}
use lantern_task_manager.Notifications.Jobs.{
  escalate_row, escalate_rows, overdue_key, run_overdue_refresh_and_notify, escalate, named,
  skipped_run, OverdueStats, refresh_and_notify, run_daily_summary,
}

module _ (world : World) (clock : Clock) where
  receipt_row : String → IdempotencyRecord
  receipt_row key = record {
    key = key;
    processed_at = clock.now;
    payload = record { code = ""; text = "" };
  }

  receipt_kept :
      (k key : String) (db : Db)
      → has_receipt k db ≡ true
      → has_receipt k (add_receipt clock key db) ≡ true
  unfolding receipt_row
  receipt_kept k key db h =
      ground (arith, h, find-append receipt_key k (receipt_row key) db.idempotency)

  deliver_hybrid_keeps :
      (m : Message) (db : Db) (k : String)
      → has_receipt k db ≡ true
      → has_receipt k (deliver_hybrid world clock m db).1 ≡ true
  unfolding deliver_hybrid
  deliver_hybrid_keeps m db k h =
      let sent =
        send_bot_dm_frame world m.recipient.entra_object_id m.recipient.display_name m.bot_text in
      let a = sent db in
      let b = sent (add_receipt clock m.idempotency_key db) in
      let c = receipt_kept k m.idempotency_key db h in ground (arith, h, a, b, c)

  overdue_assignee_keeps :
      (row : TaskRecord) (db : Db) (k : String)
      → has_receipt k db ≡ true
      → has_receipt k (notify_overdue_assignee world clock row clock.today db).1 ≡ true
  unfolding notify_overdue_assignee
  overdue_assignee_keeps row db k h = deliver_hybrid_keeps _ db k h

  overdue_creator_keeps :
      (row : TaskRecord) (db : Db) (k : String)
      → has_receipt k db ≡ true
      → has_receipt k (notify_overdue_creator world clock row clock.today db).1 ≡ true
  unfolding notify_overdue_creator
  overdue_creator_keeps row db k h = deliver_hybrid_keeps _ db k h

  escalate_row_returns :
      (threshold : ℕ) (row : TaskRecord) (db : Db)
      → ((n : ℕ) × ((escalate_row world clock threshold row db).0 ≡ ok n))
  unfolding escalate_row
  escalate_row_returns threshold row db =
      elim (Outcome-cases (escalate_row world clock threshold row db).0) [
        | inl a ↦ a
        | inr (e, h) ↦ ground (arith, h)
      ]

  escalate_row_keeps :
      (threshold : ℕ) (row : TaskRecord) (db : Db) (k : String)
      → has_receipt k db ≡ true
      → has_receipt k (escalate_row world clock threshold row db).1 ≡ true
  unfolding escalate_row
  escalate_row_keeps threshold row db k h =
      let a = overdue_assignee_keeps row db k h in
      let b =
        overdue_creator_keeps row (notify_overdue_assignee world clock row clock.today db).1 k a in
      ground (arith, h, a, b)

  escalate_rows_lem :
      (threshold : ℕ) (rows : List TaskRecord) (db : Db) (k : String)
      → has_receipt k db ≡ true
      → ((n : ℕ) × ((escalate_rows world clock threshold rows db).0 ≡ ok n)
          × (has_receipt k (escalate_rows world clock threshold rows db).1 ≡ true))
  unfolding escalate_rows
  escalate_rows_lem threshold [] db k h = (0, refl, h)
  escalate_rows_lem threshold (row ∷ rows) db k h =
      let next = (escalate_row world clock threshold row db).1 in
      let (n, first) = escalate_row_returns threshold row db in
      let kept = escalate_row_keeps threshold row db k h in
      let (m, rest, there) = escalate_rows_lem threshold rows next k kept in
      (n + m, ground (arith, first, rest), ground (arith, first, rest, there))

  has_receipt-add : (key : String) (db : Db) → has_receipt key (add_receipt clock key db) ≡ true
  unfolding receipt_row
  has_receipt-add key db =
      ground (arith, find-append receipt_key key (receipt_row key) db.idempotency, eq_refl key)

  consumed :
      (key k : String) (db : Db)
      → has_receipt k db ≡ true
      → ((fresh : Bool) × ((try_consume_idempotency clock key db).0 ≡ ok fresh)
          × (has_receipt k (try_consume_idempotency clock key db).1 ≡ true))
  unfolding try_consume_idempotency
  consumed key k db h = elim (Bool-cases (has_receipt key db)) [
    | inl e ↦ (false, ground (arith, e), ground (arith, e, h))
    | inr e ↦
        (true, ground (arith, e), let kept = receipt_kept k key db h in ground (arith, e, h, kept))
  ]

  escalate_lem :
      (threshold : ℕ) (rows : List TaskRecord) (fresh : Bool) (db : Db) (k : String)
      → has_receipt k db ≡ true
      → ((n : ℕ) × ((escalate world clock threshold rows fresh db).0 ≡ ok n)
          × (has_receipt k (escalate world clock threshold rows fresh db).1 ≡ true))
  escalate_lem threshold rows true db k h = escalate_rows_lem threshold rows db k h
  escalate_lem threshold rows false db k h = (0, refl, h)

  refreshed :
      (threshold : ℕ) (db : Db) (k : String)
      → has_receipt k db ≡ true
      → ((stats : OverdueStats) × ((refresh_and_notify world clock threshold true db).0 ≡ ok stats)
          × (has_receipt k (refresh_and_notify world clock threshold true db).1 ≡ true))
  unfolding refresh_and_notify refresh_overdue_flags list_overdue_in_progress
  refreshed threshold db k h =
      let d = (refresh_overdue_flags clock db).1 in
      let key = "escalation_scan:" <> world.iso_date clock.today in
      let rows =
        map orm_to_record (
          keep (λ row. status_eq row.status in_progress && ltb row.due_date clock.today) d.tasks) in
      let (fresh, took, kept) = consumed key k d h in
      let (n, told, there) =
        escalate_lem threshold rows fresh (try_consume_idempotency clock key d).1 k kept in
      elim (Outcome-cases (refresh_and_notify world clock threshold true db).0) [
        | inl (stats, did) ↦ (stats, did, ground (arith, took, told, there))
        | inr (e, bad) ↦ ground (arith, took, told, bad)
      ]

  again_skipped :
      (threshold : ℕ) (db : Db)
      → has_receipt (overdue_key world clock) db ≡ true
      → run_overdue_refresh_and_notify world clock threshold db ≡ (ok skipped_run, db)
  unfolding run_overdue_refresh_and_notify try_consume_idempotency refresh_and_notify
  again_skipped threshold db h = ground (arith, h)

  overdue_run :
      (threshold : ℕ) (db : Db)
      → ((stats : OverdueStats) × ((run_overdue_refresh_and_notify world clock threshold db).0
            ≡ ok stats)
          × (has_receipt
                (overdue_key world clock)
                (run_overdue_refresh_and_notify world clock threshold db).1
              ≡ true))
  unfolding run_overdue_refresh_and_notify try_consume_idempotency
  overdue_run threshold db = elim (Bool-cases (has_receipt (overdue_key world clock) db)) [
    | inl e ↦
        let skipped = again_skipped threshold db e in
        (skipped_run, ap (λ (x : Outcome OverdueStats × Db). x.0) skipped, rw skipped e)
    | inr e ↦
        let (stats, did, kept) =
          refreshed threshold (add_receipt clock (overdue_key world clock) db)
            (overdue_key world clock) (has_receipt-add (overdue_key world clock) db) in
        (stats, ground (arith, e, did), ground (arith, e, did, kept))
  ]

  overdue_key_day :
      (later : Clock)
      → later.today ≡ clock.today
      → overdue_key world later ≡ overdue_key world clock
  unfolding overdue_key
  overdue_key_day later day = ap (λ d. "overdue_refresh:" <> world.iso_date d) day

-- The overdue job always returns, and it acts once a day: a second run at any time of the same day, with
-- any threshold, says that it was skipped, and changes nothing.
pub run_overdue_once :
    (world : World) (clock later : Clock) (threshold again : ℕ) (db : Db)
    → later.today ≡ clock.today
    → ((stats : OverdueStats) × ((run_overdue_refresh_and_notify world clock threshold db).0
          ≡ ok stats))
      × (run_overdue_refresh_and_notify world later again
            (run_overdue_refresh_and_notify world clock threshold db).1
          ≡ (ok skipped_run, (run_overdue_refresh_and_notify world clock threshold db).1))
run_overdue_once world clock later threshold again db day =
    let after = (run_overdue_refresh_and_notify world clock threshold db).1 in
    let (stats, did, kept) = overdue_run world clock threshold db in
    (
      (stats, did),
      again_skipped world later again after
          (ap (λ k. has_receipt k after) (overdue_key_day world clock later day) ∙ kept),
    )

-- A forced summary for nobody in particular raises a ValueError, and changes nothing.
pub run_daily_summary_forced :
    (world : World) (clock : Clock) (list_text : List TaskRecord → String)
    (assignee : Option String) (db : Db)
    → named world clock assignee ≡ false
    → run_daily_summary world clock list_text assignee true db
      ≡ (raised (value_error "force requires assignee_entra_id for a single-user test send"), db)
unfolding run_daily_summary
run_daily_summary_forced world clock list_text assignee db h = ground (arith, h)
