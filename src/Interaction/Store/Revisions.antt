-- ===== src/Interaction/Store/Revisions.antt =====
-- The revisions of interaction/store.py.
use text.Mathlib.TextPositions.{eq_refl}
use lantern_task_manager.Base.{
  ℕ, ◌+◌, ◌≤◌, ◌<◌, ◌≡◌, refl, sym, subst, ap, ◌∙◌, String, Bool, true, false, Option, none, some,
  List, [], ◌∷◌, eqb, arith, Bool-cases, Option-cases, inl, inr,
}
use lantern_task_manager.Interaction.Store.{
  InteractionSessionOrm, Pending, Rows, Key, is_row, find_row, update_row, with_row, new_row,
  clear_row, begun, pending_row, expired, revision_of, begin_event, set_expected, set_pending, got,
  get, clear, is_current,
}

-- The revision of a pair, 0 before its first event.
abbrev pub revision : Key → Rows → ℕ
revision key rows = revision_of (find_row key rows)

pub find_row-with_row :
    (now : ℕ) (key k : Key) (rows : Rows) → revision k (with_row now key rows) ≡ revision k rows
unfolding find_row with_row
find_row-with_row now key k [] = ground arith
find_row-with_row now key k (row ∷ rows) = ground (arith, find_row-with_row now key k rows)

pub has_row :
    (now : ℕ) (key : Key) (rows : Rows)
    → (row : InteractionSessionOrm) × (find_row key (with_row now key rows) ≡ some row)
unfolding find_row with_row
has_row now key [] = (new_row now key, rw (eq_refl key.0, eq_refl key.1) refl)
has_row now key (row ∷ rows) = elim (Bool-cases (is_row key row)) [
  | inl h ↦ (row, rw (h, h) refl)
  | inr h ↦ let (r, e) = has_row now key rows in (r, rw (h, h) e)
]

-- An update that keeps the pair of each row.
abbrev pub KeepsKey : (InteractionSessionOrm → InteractionSessionOrm) → Type 0
KeepsKey f = (k : Key) (row : InteractionSessionOrm) → is_row k (f row) ≡ is_row k row

pub find_row-update_self :
    (key : Key) (f : InteractionSessionOrm → InteractionSessionOrm) (rows : Rows)
    {row : InteractionSessionOrm}
    → KeepsKey f
    → find_row key rows ≡ some row
    → find_row key (update_row key f rows) ≡ some (f row)
unfolding find_row update_row
find_row-update_self key f [] keeps e = cc
find_row-update_self key f (x ∷ rows) {row} keeps e =
    ground (arith, find_row-update_self key f rows {row = row} keeps, keeps key x)

-- What never lowers a revision, lowers none in the table.
revision-update :
    (key k : Key) (f : InteractionSessionOrm → InteractionSessionOrm) (rows : Rows)
    → KeepsKey f
    → ((row : InteractionSessionOrm) → row.revision ≤ (f row).revision)
    → revision k rows ≤ revision k (update_row key f rows)
unfolding find_row update_row
revision-update key k f [] keeps up = omega arith
revision-update key k f (x ∷ rows) keeps up =
    ground (arith, revision-update key k f rows keeps up, keeps k x, up x)

-- A call on the store.
pub data StoreCall : Type 0 where
  begins : String → StoreCall
  sets : Pending → Option ℕ → StoreCall
  gets clears : StoreCall
  asks : ℕ → StoreCall

module _ (enabled : Bool) where
  abbrev pub step : ℕ × Key × StoreCall → Rows → Rows
  step (now, key, begins activity_id) rows = (begin_event enabled now key activity_id rows).1
  step (now, key, sets p expected) rows = (set_pending enabled now key p expected rows).1
  step (now, key, gets) rows = (get enabled now key rows).1
  step (now, key, clears) rows = clear enabled now key rows
  step (now, key, asks r) rows = (is_current enabled now key r rows).1

  unfoldable pub run : List (ℕ × Key × StoreCall) → Rows → Rows
  run [] rows = rows
  run (c ∷ cs) rows = run cs (step c rows)

  begin_event_up :
      (now : ℕ) (key k : Key) (a : String) (rows : Rows)
      → revision k rows ≤ revision k (begin_event enabled now key a rows).1
  unfolding begin_event
  begin_event_up now key k a rows = elim (Bool-cases enabled) [
    | inl on ↦ rw on (
        omega (
          arith,
          find_row-with_row now key k rows,
          revision-update key k (begun now a) (with_row now key rows) (λ k row. refl)
              (λ row. omega arith),
        ))
    | inr off ↦ rw off (omega arith)
  ]

  set_expected_up :
      (now : ℕ) (key k : Key) (p : Pending) (expected : Option ℕ) (rows : Rows)
      → revision k rows ≤ revision k (set_expected enabled now key p expected rows).1
  set_expected_up now key k p none rows =
      revision-update key k (pending_row now p) rows (λ k row. refl) (λ row. omega arith)
  set_expected_up now key k p (some e) rows = elim (Bool-cases (eqb (revision key rows) e)) [
    | inl h ↦
        rw h (revision-update key k (pending_row now p) rows (λ k row. refl) (λ row. omega arith))
    | inr h ↦ rw h (omega arith)
  ]

  set_pending_up :
      (now : ℕ) (key k : Key) (p : Pending) (expected : Option ℕ) (rows : Rows)
      → revision k rows ≤ revision k (set_pending enabled now key p expected rows).1
  unfolding set_pending
  set_pending_up now key k p expected rows = elim (Bool-cases enabled) [
    | inl on ↦ rw on (
        omega (
          arith,
          find_row-with_row now key k rows,
          set_expected_up now key k p expected (with_row now key rows),
        ))
    | inr off ↦ rw off (omega arith)
  ]

  clear_up :
      (now : ℕ) (key k : Key) (rows : Rows)
      → revision k rows ≤ revision k (clear enabled now key rows)
  unfolding clear
  clear_up now key k rows = elim (Bool-cases enabled) [
    | inl on ↦
        rw on (revision-update key k (clear_row now) rows (λ k row. refl) (λ row. omega arith))
    | inr off ↦ rw off (omega arith)
  ]

  got_up :
      (now : ℕ) (key k : Key) (rows : Rows) (row : Option InteractionSessionOrm)
      → revision k rows ≤ revision k (got enabled now key rows row).1
  got_up now key k rows none = omega arith
  got_up now key k rows (some row) = elim (Bool-cases (expired now row.expires_at)) [
    | inl h ↦ rw h (revision-update key k (clear_row now) rows (λ k row. refl) (λ row. omega arith))
    | inr h ↦ rw h (omega arith)
  ]

  pub get_up :
      (now : ℕ) (key k : Key) (rows : Rows)
      → revision k rows ≤ revision k (get enabled now key rows).1
  unfolding get
  get_up now key k rows = elim (Bool-cases enabled) [
    | inl on ↦ rw on (got_up now key k rows (find_row key rows))
    | inr off ↦ rw off (omega arith)
  ]

  step_up :
      (c : ℕ × Key × StoreCall) (k : Key) (rows : Rows) → revision k rows ≤ revision k (step c rows)
  unfolding is_current
  step_up (now, key, begins a) k rows = begin_event_up now key k a rows
  step_up (now, key, sets p expected) k rows = set_pending_up now key k p expected rows
  step_up (now, key, gets) k rows = get_up now key k rows
  step_up (now, key, clears) k rows = clear_up now key k rows
  step_up (now, key, asks r) k rows = elim (Bool-cases enabled) [
    | inl on ↦ rw on (
        subst (λ b. revision k rows ≤ revision k (get b now key rows).1) on (get_up now key k rows))
    | inr off ↦ rw off (omega arith)
  ]

  run_up :
      (cs : List (ℕ × Key × StoreCall)) (k : Key) (rows : Rows)
      → revision k rows ≤ revision k (run cs rows)
  unfolding run
  run_up [] k rows = omega arith
  run_up (c ∷ cs) k rows = omega (arith, step_up c k rows, run_up cs k (step c rows))

-- An event raises its pair's revision by one, and answers it.
begin_event_next :
    (now : ℕ) (key : Key) (a : String) (rows : Rows)
    → (revision key (begin_event true now key a rows).1 ≡ revision key rows + 1)
      × ((begin_event true now key a rows).0 ≡ revision key rows + 1)
unfolding begin_event
begin_event_next now key a rows =
    let (row, e) = has_row now key rows in
    let found = find_row-update_self key (begun now a) (with_row now key rows) (λ k row. refl) e in
    let next : revision key (begin_event true now key a rows).1 ≡ revision key rows + 1 =
      ap revision_of found
      ∙ ap (λ n. n + 1) (sym (ap revision_of e) ∙ find_row-with_row now key key rows) in
    (next, next)

pub with_row_there :
    (now : ℕ) (key : Key) (rows : Rows) {row : InteractionSessionOrm}
    → find_row key rows ≡ some row
    → with_row now key rows ≡ rows
unfolding find_row with_row
with_row_there now key [] e = cc
with_row_there now key (x ∷ rows) {row} e = elim (Bool-cases (is_row key x)) [
  | inl h ↦ rw h refl
  | inr h ↦ rw h (ap (λ r. x ∷ r) (with_row_there now key rows {row = row} (rw_back h e)))
]
  where
    rw_back :
        is_row key x ≡ false → find_row key (x ∷ rows) ≡ some row → find_row key rows ≡ some row
    rw_back h e = ground (arith, h, e)

module _ (now : ℕ) (key : Key) (r : ℕ) (rows : Rows) (behind : r < revision key rows) where
  there : (row : InteractionSessionOrm) × (find_row key rows ≡ some row)
  there = elim (Option-cases (find_row key rows)) [
    | inl e ↦ absurd (ground (arith, e, behind))
    | inr (row, e) ↦ (row, e)
  ]

  pub stale_write : (p : Pending) → set_pending true now key p (some r) rows ≡ (none, rows)
  unfolding set_pending
  stale_write p =
      let (row, e) = there in rw (with_row_there now key rows e) (ground (arith, behind))

  stale_turn : (is_current true now key r rows).0 ≡ false
  unfolding is_current
  stale_turn =
      let (row, e) = there in
      let older : eqb row.revision r ≡ false = ground (arith, behind, e) in
      elim (Bool-cases (expired now row.expires_at)) [
        | inl h ↦ rw (e, h) refl
        | inr h ↦ rw (e, h, older) refl
      ]

-- A superseded turn is stopped: once a later event of its actor and conversation has begun, after
-- whatever calls on the store before and since, a write that expects the turn's revision is refused and
-- changes nothing, and the turn is no longer current; while the coordinator is enabled.
pub superseded :
    (begin next now : ℕ) (key : Key) (a b : String) (p : Pending)
    (cs ds : List (ℕ × Key × StoreCall)) (rows : Rows)
    → let (r, begun_rows) = begin_event true begin key a rows in
      let since = run true ds (begin_event true next key b (run true cs begun_rows)).1 in
      (set_pending true now key p (some r) since ≡ (none, since))
      × ((is_current true now key r since).0 ≡ false)
superseded begin next now key a b p cs ds rows =
    let (r, begun_rows) = begin_event true begin key a rows in
    let (own, answer) = begin_event_next begin key a rows in
    let before = run true cs begun_rows in
    let (up, _) = begin_event_next next key b before in
    let since = run true ds (begin_event true next key b before).1 in
    let behind : r < revision key since = omega (
      arith,
      own,
      answer,
      up,
      run_up true cs key begun_rows,
      run_up true ds key (begin_event true next key b before).1,
    ) in
    (stale_write now key r since behind p, stale_turn now key r since behind)
