-- ===== src/Interaction/Store/Lookup.antt =====
-- The pending interactions of interaction/store.py.
use lantern_task_manager.Base.{
  ℕ, ◌+◌, ◌≤◌, ◌<◌, ◌≡◌, refl, sym, ap, ◌∙◌, true, false, none, some, ltb, arith, Option,
}
use lantern_task_manager.Interaction.Store.{
  Pending, Rows, Key, update_row, with_row, pending_row, revision_of, ttl, set_pending, get, clear,
  set_expected,
}
use lantern_task_manager.Interaction.Store.Revisions.{
  revision, has_row, find_row-update_self, find_row-with_row,
}

-- A write expects no revision, or this one.
abbrev pub Expects : Option ℕ → ℕ → Type 0
Expects none r = Unit
Expects (some expected) r = expected ≡ r

set_expected-kept :
    (now : ℕ) (key : Key) (p : Pending) (expected : Option ℕ) (rows : Rows)
    → Expects expected (revision key rows)
    → set_expected true now key p expected (with_row now key rows)
      ≡ (some (revision key rows), update_row key (pending_row now p) (with_row now key rows))
set_expected-kept now key p none rows same =
    ap (λ r. (some r, update_row key (pending_row now p) (with_row now key rows)))
      (find_row-with_row now key key rows)
set_expected-kept now key p (some expected) rows same =
    ground (arith, same, find_row-with_row now key key rows)

-- A pending interaction that was set without an expected revision, or with its pair's own, is
-- acknowledged with that revision, and read back with it for the thirty minutes that it lasts; after
-- them it reads as none, and what it held is gone; while the coordinator is enabled.
pub set_pending-get :
    (now later : ℕ) (key : Key) (p : Pending) (expected : Option ℕ) (rows : Rows)
    → Expects expected (revision key rows)
    → let (stored, set) = set_pending true now key p expected rows in
      (stored ≡ some (revision key rows))
      × (later ≤ now + ttl
          → get true later key set ≡ (
            some (record {
              revision = revision key rows;
              operation = some p.operation;
              slots = p.slots;
              missing_fields = p.missing_fields;
              reference_id = p.reference_id;
            }),
            set,
          ))
      × (now + ttl < later → get true later key set ≡ (none, clear true later key set))
unfolding set_pending get clear
set_pending-get now later key p expected rows same_revision =
    let (row, e) = has_row now key rows in
    let found =
      find_row-update_self key (pending_row now p) (with_row now key rows) (λ k row. refl) e in
    let same : row.revision ≡ revision key rows =
      sym (ap revision_of e) ∙ find_row-with_row now key key rows in
    let kept = set_expected-kept now key p expected rows same_revision in
    rw kept (
      refl,
      (λ soon.
          let live : ltb (now + ttl) later ≡ false = ground (arith, soon) in
          rw (found, live)
            (ap
              (λ r. (
                some (record {
                  revision = r;
                  operation = some p.operation;
                  slots = p.slots;
                  missing_fields = p.missing_fields;
                  reference_id = p.reference_id;
                }),
                update_row key (pending_row now p) (with_row now key rows),
              ))
              same)),
      (λ late.
          let over : ltb (now + ttl) later ≡ true = ground (arith, late) in rw (found, over) refl),
    )
