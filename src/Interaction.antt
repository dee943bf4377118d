-- ===== src/Interaction.antt =====
-- interaction/coordinator.py: `ResponseCoordinator`. One claim runs at a time, so no insertion meets a
-- key that another session has taken, and the IntegrityError that the source catches does not arise.
pub mod Receipts
pub mod Store
pub mod Normalization
use lantern_task_manager.Base.{
  ℕ, ◌+◌, String, Bool, true, false, ◌&&◌, Option, none, some, List, [], ◌∷◌, ◌++◌, ◌==◌, ltb,
  if◌then◌else◌, text_or, Session, ok, pure, ◌>>=◌, session_scope, find, write,
}
use lantern_task_manager.Config.{World}
use lantern_task_manager.Storage.Orm.{Payload, IdempotencyRecord, Db, Clock}
use lantern_task_manager.Notifications.Service.{receipt_key}

pub record StoredResponse : Type 0 where
  pub code : String
  pub text : String

-- `_CLAIM_TIMEOUT`, in seconds.
abbrev pub claim_timeout : ℕ
claim_timeout = 300

abbrev pub in_progress : Payload
in_progress = record { code = "IN_PROGRESS"; text = "" }

abbrev pub stored : Payload → StoredResponse
stored payload = record {
  code = text_or payload.code "IN_PROGRESS";
  text = text_or payload.text "This action is already being processed.";
}

-- An action that was claimed and not completed in time.
abbrev pub abandoned : Clock → IdempotencyRecord → Bool
abandoned clock row =
    row.payload.code == "IN_PROGRESS" && ltb (row.processed_at + claim_timeout) clock.now

module _ (world : World) (clock : Clock) where
  abbrev claim_row : String → Option IdempotencyRecord → Session Db (Bool × Option StoredResponse)
  claim_row key none db =
      let row : IdempotencyRecord = record {
        key = key;
        processed_at = clock.now;
        payload = in_progress;
      } in
      ((ok (true, none)), record db { idempotency = db.idempotency ++ row ∷ [] })
  claim_row key (some row) db =
      if abandoned clock row
      then (
        ok (true, none),
        record db {
          idempotency =
              write receipt_key (record row { processed_at = clock.now; payload = in_progress })
                db.idempotency;
        },
      )
      else (ok (false, some (stored row.payload)), db)

  unfoldable pub claim : String → Session Db (Bool × Option StoredResponse)
  unfolding session_scope
  claim key =
      if world.settings.interaction_coordinator_enabled
      then session_scope (λ db. claim_row key (find receipt_key key db.idempotency) db)
      else pure (true, none)

  abbrev complete_row : String → String → Option IdempotencyRecord → Session Db (Unit {0})
  complete_row code text none db = (ok tt, db)
  complete_row code text (some row) db = (
    ok tt,
    record db {
      idempotency =
          write receipt_key
            (record row { payload = record { code = code; text = text }; processed_at = clock.now })
            db.idempotency;
    },
  )

  unfoldable pub complete : String → String → String → Session Db (Unit {0})
  unfolding session_scope
  complete key code text =
      if world.settings.interaction_coordinator_enabled
      then session_scope (λ db. complete_row code text (find receipt_key key db.idempotency) db)
      else pure tt
