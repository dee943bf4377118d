-- ===== src/Interaction/Store.antt =====
-- interaction/store.py and the values of interaction/models.py. The table is the list of its rows, of
-- which none share actor and conversation: the pair names a row, in place of its number. No insertion
-- meets a row that another session has added. Times are in seconds; `slots` holds texts; and the stored
-- operation is the enumeration's member, or `none` for the empty text.
pub mod Revisions
pub mod Lookup
use lantern_task_manager.Base.{
  ℕ, ◌+◌, String, Bool, true, false, ◌&&◌, Option, none, some, List, [], ◌∷◌, ◌==◌, eqb, ltb,
  if◌then◌else◌,
}

pub data InteractionOperation : Type 0 where
  create_task review_draft close_task reopen_task : InteractionOperation

abbrev pub Slots : Type 0
Slots = List (String × String)

pub record InteractionSessionOrm : Type 0 where
  pub actor_entra_id : String
  pub conversation_id : String
  pub revision : ℕ
  pub active_operation : Option InteractionOperation
  pub slots : Slots
  pub missing_fields : List String
  pub reference_id : String
  pub source_activity_id : String
  pub expires_at : Option ℕ
  pub updated_at : ℕ

pub record PendingInteraction : Type 0 where
  pub revision : ℕ
  pub operation : Option InteractionOperation
  pub slots : Slots
  pub missing_fields : List String
  pub reference_id : String

-- `_TTL`, in seconds.
abbrev pub ttl : ℕ
ttl = 1800

abbrev pub Rows : Type 0
Rows = List InteractionSessionOrm

-- An actor in a conversation.
abbrev pub Key : Type 0
Key = String × String

abbrev pub is_row : Key → InteractionSessionOrm → Bool
is_row key row = row.actor_entra_id == key.0 && row.conversation_id == key.1

unfoldable pub find_row : Key → Rows → Option InteractionSessionOrm
find_row key [] = none
find_row key (row ∷ rows) = if is_row key row then some row else find_row key rows

unfoldable pub update_row : Key → (InteractionSessionOrm → InteractionSessionOrm) → Rows → Rows
update_row key f [] = []
update_row key f (row ∷ rows) = if is_row key row then f row ∷ rows else row ∷ update_row key f rows

abbrev pub new_row : ℕ → Key → InteractionSessionOrm
new_row now key = record {
  actor_entra_id = key.0;
  conversation_id = key.1;
  revision = 0;
  active_operation = none;
  slots = [];
  missing_fields = [];
  reference_id = "";
  source_activity_id = "";
  expires_at = none;
  updated_at = now;
}

-- `_row`: the row of the pair is there afterwards, at the end if it is new.
unfoldable pub with_row : ℕ → Key → Rows → Rows
with_row now key [] = new_row now key ∷ []
with_row now key (row ∷ rows) = if is_row key row then row ∷ rows else row ∷ with_row now key rows

abbrev pub clear_row : ℕ → InteractionSessionOrm → InteractionSessionOrm
clear_row now row = record row {
  active_operation = none;
  slots = [];
  missing_fields = [];
  reference_id = "";
  expires_at = none;
  updated_at = now;
}

abbrev pub revision_of : Option InteractionSessionOrm → ℕ
revision_of none = 0
revision_of (some row) = row.revision

abbrev pub begun : ℕ → String → InteractionSessionOrm → InteractionSessionOrm
begun now activity_id row = record row {
  revision = row.revision + 1;
  source_activity_id = activity_id;
  updated_at = now;
}

-- What `set_pending` writes.
pub record Pending : Type 0 where
  pub operation : InteractionOperation
  pub slots : Slots
  pub missing_fields : List String
  pub reference_id : String

abbrev pub pending_row : ℕ → Pending → InteractionSessionOrm → InteractionSessionOrm
pending_row now p row = record row {
  active_operation = some p.operation;
  slots = p.slots;
  missing_fields = p.missing_fields;
  reference_id = p.reference_id;
  expires_at = some (now + ttl);
  updated_at = now;
}

abbrev pub expired : ℕ → Option ℕ → Bool
expired now none = false
expired now (some expires_at) = ltb expires_at now

abbrev pub interaction : InteractionSessionOrm → PendingInteraction
interaction row = record {
  revision = row.revision;
  operation = row.active_operation;
  slots = row.slots;
  missing_fields = row.missing_fields;
  reference_id = row.reference_id;
}

module _ (enabled : Bool) (now : ℕ) where
  unfoldable pub begin_event : Key → String → Rows → ℕ × Rows
  begin_event key activity_id rows =
      let rows' = update_row key (begun now activity_id) (with_row now key rows) in
      if enabled then (revision_of (find_row key rows'), rows') else (0, rows)

  abbrev pub set_expected : Key → Pending → Option ℕ → Rows → Option ℕ × Rows
  set_expected key p none rows =
      (some (revision_of (find_row key rows)), update_row key (pending_row now p) rows)
  set_expected key p (some expected) rows =
      if eqb (revision_of (find_row key rows)) expected
      then (some expected, update_row key (pending_row now p) rows)
      else (none, rows)

  -- With an expected revision the row is updated only while it has that one.
  unfoldable pub set_pending : Key → Pending → Option ℕ → Rows → Option ℕ × Rows
  set_pending key p expected rows =
      if enabled then set_expected key p expected (with_row now key rows) else (none, rows)

  abbrev pub got : Key → Rows → Option InteractionSessionOrm → Option PendingInteraction × Rows
  got key rows none = (none, rows)
  got key rows (some row) =
      if expired now row.expires_at
      then (none, update_row key (clear_row now) rows)
      else (some (interaction row), rows)

  unfoldable pub get : Key → Rows → Option PendingInteraction × Rows
  get key rows = if enabled then got key rows (find_row key rows) else (none, rows)

  unfoldable pub clear : Key → Rows → Rows
  clear key rows = if enabled then update_row key (clear_row now) rows else rows

  abbrev pub is_revision : ℕ → Option PendingInteraction → Bool
  is_revision revision none = false
  is_revision revision (some current) = eqb current.revision revision

  unfoldable pub is_current : Key → ℕ → Rows → Bool × Rows
  unfolding get
  is_current key revision rows =
      let (current, rows') = get key rows in
      if enabled then (is_revision revision current, rows') else (true, rows)
