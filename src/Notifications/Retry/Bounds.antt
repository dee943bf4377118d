-- ===== src/Notifications/Retry/Bounds.antt =====
-- The sweep of `retry_failed_deliveries`, row by row.
use lantern_task_manager.Base.{
  ◌≡◌, sym, subst, ℕ, ◌≤◌, String, ◌<>◌, Bool, true, false, not, List, [], ◌∷◌, ◌==◌, arith,
  if◌then◌else◌, ok, find-append, length, length-take, All, order_by, keep, Outcome-cases, inl, inr,
}
use text.Mathlib.TextPositions.{eq_refl}
use lantern_task_manager.Config.{World}
use lantern_task_manager.Storage.Orm.{IdempotencyRecord, NotificationDeliveryOrm, Db, Clock}
use lantern_task_manager.Notifications.Channels.{send_bot_dm}
use lantern_task_manager.Notifications.Channels.Frame.{send_bot_dm_frame}
use lantern_task_manager.Notifications.Service.{has_receipt, add_receipt, receipt_key}
use lantern_task_manager.Notifications.Retry.{
  retry_key, retry_row, retry_rows, to_retry, retry_failed_deliveries, put_delivery,
}

module _ (world : World) (clock : Clock) where
  receipt_row : String → IdempotencyRecord
  receipt_row key = record {
    key = key;
    processed_at = clock.now;
    payload = record { code = ""; text = "" };
  }

  has_receipt-add_receipt :
      (k key : String) (db : Db)
      → has_receipt k (add_receipt clock key db) ≡ (if has_receipt k db then true else key == k)
  unfolding receipt_row
  has_receipt-add_receipt k key db =
      ground (arith, find-append receipt_key k (receipt_row key) db.idempotency)

  -- A row whose key has no receipt.
  abbrev pub unsent : Db → NotificationDeliveryOrm → Bool
  unsent db row = not (has_receipt (retry_key row) db)

  abbrev pub unsent_count : Db → List NotificationDeliveryOrm → ℕ
  unsent_count db rows = length (keep (unsent db) rows)

  retry_row_once :
      (row : NotificationDeliveryOrm) (db : Db) {n : ℕ}
      → (retry_row world clock row db).0 ≡ ok n
      → (n ≡ (if has_receipt (retry_key row) db then 0 else 1))
        × (has_receipt (retry_key row) (retry_row world clock row db).1 ≡ true)
  unfolding retry_row
  retry_row_once row db h = ground (
    arith,
    send_bot_dm_frame world row.recipient_entra_id "" ("LTM reminder: " <> row.event) db,
    has_receipt-add_receipt (retry_key row) (retry_key row)
        (send_bot_dm world row.recipient_entra_id "" ("LTM reminder: " <> row.event) db).1,
    eq_refl (retry_key row),
  )

  retry_row_keeps :
      (row : NotificationDeliveryOrm) (db : Db) (k : String)
      → has_receipt k db ≡ true
      → has_receipt k (retry_row world clock row db).1 ≡ true
  unfolding retry_row
  retry_row_keeps row db k h = ground (
    arith,
    send_bot_dm_frame world row.recipient_entra_id "" ("LTM reminder: " <> row.event) db,
    has_receipt-add_receipt k (retry_key row)
        (send_bot_dm world row.recipient_entra_id "" ("LTM reminder: " <> row.event) db).1,
  )

  unsent-retry_row :
      (row : NotificationDeliveryOrm) (db : Db) (rows : List NotificationDeliveryOrm)
      → unsent_count (retry_row world clock row db).1 rows ≤ unsent_count db rows
  unsent-retry_row row db [] = omega arith
  unsent-retry_row row db (r ∷ rows) =
      ground (arith, retry_row_keeps row db (retry_key r), unsent-retry_row row db rows)

  retry_rows_keeps :
      (rows : List NotificationDeliveryOrm) (db : Db) (k : String)
      → has_receipt k db ≡ true
      → has_receipt k (retry_rows world clock rows db).1 ≡ true
  unfolding retry_rows
  retry_rows_keeps [] db k h = h
  retry_rows_keeps (row ∷ rows) db k h =
      let kept = retry_row_keeps row db k h in
      ground (arith, retry_rows_keeps rows (retry_row world clock row db).1 k kept)

  both :
      (row : NotificationDeliveryOrm) (rows : List NotificationDeliveryOrm) (db : Db) {m k : ℕ}
      → (retry_row world clock row db).0 ≡ ok m
      → (retry_rows world clock rows (retry_row world clock row db).1).0 ≡ ok k
      → (retry_rows world clock (row ∷ rows) db).1
        ≡ (retry_rows world clock rows (retry_row world clock row db).1).1
  unfolding retry_rows
  both row rows db sent rest = ground (arith, sent, rest)

  retry_rows_lem :
      (rows : List NotificationDeliveryOrm) (db : Db) {n : ℕ}
      → (retry_rows world clock rows db).0 ≡ ok n
      → (n ≤ unsent_count db rows)
        × All (λ row. has_receipt (retry_key row) (retry_rows world clock rows db).1 ≡ true) rows
  unfolding retry_rows
  retry_rows_lem [] db h = (ground arith, tt)
  retry_rows_lem (row ∷ rows) db h = elim (Outcome-cases (retry_row world clock row db).0) [
    | inr (e, failed) ↦ ground (arith, failed)
    | inl (m, sent) ↦
        let next = (retry_row world clock row db).1 in
        let first = retry_row_once row db sent in
        elim (Outcome-cases (retry_rows world clock rows next).0) [
          | inr (e, failed) ↦ ground (arith, sent, failed)
          | inl (k, rest) ↦
              let kept = retry_rows_keeps rows next (retry_key row) first.1 in
              let others = retry_rows_lem rows next rest in
              (
                ground (arith, sent, rest, first.0, others.0, h, unsent-retry_row row db rows),
                subst
                    (λ d.
                      All (λ (r : NotificationDeliveryOrm). has_receipt (retry_key r) d ≡ true)
                        (row ∷ rows))
                    (sym (both row rows db sent rest)) (kept, others.1),
              )
        ]
  ]

  -- A sweep that returns has sent again no more rows than it took from the log, oldest first and at
  -- most `limit` of them, without a receipt of an earlier retry, and every row that it took has a receipt
  -- afterwards.
  pub retry_failed_deliveries_lem :
      (limit : ℕ) (db : Db) {n : ℕ}
      → (retry_failed_deliveries world clock limit db).0 ≡ ok n
      → (n ≤ unsent_count db (to_retry world clock limit db))
        × (length (to_retry world clock limit db) ≤ limit)
        × All
            (λ row.
              has_receipt (retry_key row) (retry_failed_deliveries world clock limit db).1 ≡ true)
            (to_retry world clock limit db)
  unfolding retry_failed_deliveries
  retry_failed_deliveries_lem limit db h =
      let (sent, done) = retry_rows_lem (to_retry world clock limit db) db h in
      (sent, ground (arith, length-take limit (waiting db)), done)
    where
      waiting : Db → List NotificationDeliveryOrm
      waiting db =
          order_by (λ (r : NotificationDeliveryOrm). r.processed_at)
            (keep (λ (r : NotificationDeliveryOrm). r.needs_retry) db.deliveries)

  -- A row that has been retried is not sent again: it is only marked as done.
  pub retry_row_done :
      (row : NotificationDeliveryOrm) (db : Db)
      → has_receipt (retry_key row) db ≡ true
      → retry_row world clock row db ≡ (ok 0, put_delivery (record row { needs_retry = false }) db)
  unfolding retry_row
  retry_row_done row db h = rw h
