-- ===== src/Interaction/Receipts.antt =====
-- The receipts of interaction/coordinator.py, claimed and completed.
use text.Mathlib.TextPositions.{eq_refl}
use lantern_task_manager.Base.{
  ◌≡◌, refl, ◌∙◌, ap, ◌+◌, ◌≤◌, String, true, false, Option, none, some, ◌==◌, arith, truthy, ok,
  find, find-key, find-write_self, find-append_new, Option-cases, inl, inr,
}
use lantern_task_manager.Config.{World}
use lantern_task_manager.Storage.Orm.{Payload, IdempotencyRecord, Db, Clock}
use lantern_task_manager.Notifications.Service.{receipt_key}
use lantern_task_manager.Interaction.{
  claim_timeout, in_progress, stored, abandoned, claim, complete,
}

abbrev pub find_receipt : String → Db → Option IdempotencyRecord
find_receipt key db = find receipt_key key db.idempotency

module _ (world : World) (clock : Clock) (key : String) (db : Db) where
  -- A granted claim leaves a receipt in progress, made now.
  claim_granted :
      world.settings.interaction_coordinator_enabled ≡ true
      → (claim world clock key db).0 ≡ ok (true, none)
      → ((row : IdempotencyRecord) × (find_receipt key (claim world clock key db).1 ≡ some row)
          × (row.processed_at ≡ clock.now)
          × (row.payload ≡ in_progress))
  unfolding claim
  claim_granted on h = elim (Option-cases (find_receipt key db)) [
    | inl absent ↦
        let row : IdempotencyRecord = record {
          key = key;
          processed_at = clock.now;
          payload = in_progress;
        } in
        (
          row,
          ground (
            arith,
            on,
            absent,
            find-append_new receipt_key key row db.idempotency absent (eq_refl key),
          ),
          refl,
          refl,
        )
    | inr (old, found) ↦
        let row : IdempotencyRecord = record old {
          processed_at = clock.now;
          payload = in_progress;
        } in
        let same = find-key receipt_key key db.idempotency found in
        (
          row,
          ground
              (arith, on, found, h, find-write_self receipt_key key row db.idempotency found same),
          refl,
          refl,
        )
  ]

  claim_refused :
      (row : IdempotencyRecord)
      → world.settings.interaction_coordinator_enabled ≡ true
      → find_receipt key db ≡ some row
      → abandoned clock row ≡ false
      → claim world clock key db ≡ (ok (false, some (stored row.payload)), db)
  unfolding claim
  claim_refused row on found live = ground (arith, on, found, live)

-- While the coordinator is enabled, an action is claimed once: after a claim that was granted, every
-- claim of the same key within five minutes is refused with IN_PROGRESS, and changes nothing.
pub claim_once :
    (world : World) (clock later : Clock) (key : String) (db : Db)
    → world.settings.interaction_coordinator_enabled ≡ true
    → (claim world clock key db).0 ≡ ok (true, none)
    → later.now ≤ clock.now + claim_timeout
    → claim world later key (claim world clock key db).1
      ≡ (ok (false, some (stored in_progress)), (claim world clock key db).1)
claim_once world clock later key db on granted soon =
    let (row, found, made, payload) = claim_granted world clock key db on granted in
    let live : abandoned later row ≡ false = ground (arith, made, soon) in
    claim_refused world later key (claim world clock key db).1 row on found live
    ∙ ap (λ (p : Payload). (ok (false, some (stored p)), (claim world clock key db).1)) payload

-- While the coordinator is enabled, the response that completes a claimed action is the answer to
-- every later claim of its key, which changes nothing, if the response has a code other than
-- IN_PROGRESS and a text.
pub complete-claim :
    (world : World) (clock later : Clock) (key code text : String) (db : Db)
    (row : IdempotencyRecord)
    → world.settings.interaction_coordinator_enabled ≡ true
    → find_receipt key db ≡ some row
    → truthy code ≡ true
    → truthy text ≡ true
    → (code == "IN_PROGRESS") ≡ false
    → claim world later key (complete world clock key code text db).1 ≡ (
      ok (false, some (record { code = code; text = text })),
      (complete world clock key code text db).1,
    )
unfolding claim complete
complete-claim world clock later key code text db row on found coded worded done =
    let same = find-key receipt_key key db.idempotency found in
    let row' : IdempotencyRecord = record row {
      payload = record { code = code; text = text };
      processed_at = clock.now;
    } in
    ground (
      arith,
      on,
      found,
      coded,
      worded,
      done,
      find-write_self receipt_key key row' db.idempotency found same,
    )
