-- ===== src/Base/Table.antt =====
-- A database table as the list of its rows, with a text as primary key.
use Prim.Native.String.{String}
use mathlib.Core.Path.{◌≡◌, refl}
use mathlib.Core.Bool.{true, false}
use mathlib.Core.Option.{Option, none, some}
use mathlib.Core.List.{List, [], ◌∷◌, ◌++◌}
use native.Mathlib.Omega.{arith}
use text.Mathlib.Text.{◌==◌}
use text.Mathlib.TextEquality.{eq_iff}
use mathlib.Core.Path.{subst}
use mathlib.Core.Logic.{inl, inr}
use mathlib.Core.Option.{some-injective}
use lantern_task_manager.Base.Tests.{if◌then◌else◌, Bool-cases}
use lantern_task_manager.Base.Lists.{All}

module _ {ℓ} {R : Type ℓ} (key : R → String) where
  -- `session.get(Row, k)`
  unfoldable pub find : String → List R → Option R
  find k [] = none
  find k (r ∷ rows) = if key r == k then some r else find k rows

  -- An UPDATE of the row with the key of `r`.
  unfoldable pub write : R → List R → List R
  write r [] = []
  write r (x ∷ rows) = if key x == key r then r ∷ rows else x ∷ write r rows

  -- No key stands in two rows.
  abbrev pub NodupKeys : List R → Type ℓ
  NodupKeys [] = Unit
  NodupKeys (r ∷ rows) = (find (key r) rows ≡ none) × NodupKeys rows

  pub find-key : (k : String) (rows : List R) {r : R} → find k rows ≡ some r → key r ≡ k
  unfolding find
  find-key k [] h = cc
  find-key k (x ∷ rows) {r} h = ground (arith, find-key k rows {r = r}, eq_iff (key x) k)

  pub find-write_self :
      (k : String) (r : R) (rows : List R) {old : R}
      → find k rows ≡ some old
      → key r ≡ k
      → find k (write r rows) ≡ some r
  unfolding find write
  find-write_self k r [] h e = cc
  find-write_self k r (x ∷ rows) {old} h e = ground (
    arith,
    find-write_self k r rows {old = old},
    eq_iff (key x) k,
    eq_iff (key r) k,
    eq_iff (key x) (key r),
  )

  pub find-write_ne :
      (k : String) (r : R) (rows : List R)
      → (key r == k) ≡ false
      → find k (write r rows) ≡ find k rows
  unfolding find write
  find-write_ne k r [] h = refl
  find-write_ne k r (x ∷ rows) h =
      ground (
        arith,
        find-write_ne k r rows h,
        eq_iff (key x) k,
        eq_iff (key r) k,
        eq_iff (key x) (key r),
      )

  -- The later of two writes to one row is what stays.
  pub write-write :
      (r r' : R) (rows : List R) → key r ≡ key r' → write r' (write r rows) ≡ write r' rows
  unfolding write
  write-write r r' [] e = refl
  write-write r r' (x ∷ rows) e = ground (
    arith,
    write-write r r' rows e,
    eq_iff (key x) (key r),
    eq_iff (key x) (key r'),
    eq_iff (key r) (key r'),
  )

  pub find-append :
      (k : String) (r : R) (rows : List R)
      → find k (rows ++ r ∷ [])
        ≡ elim (find k rows) [ some x ↦ some x | none ↦ if key r == k then some r else none ]
  unfolding find
  find-append k r [] = refl
  find-append k r (x ∷ rows) = ground (arith, find-append k r rows)

  pub find-All {κ} :
      (P : R → Type κ) (k : String) (rows : List R) {r : R}
      → All P rows
      → find k rows ≡ some r
      → P r
  unfolding find
  find-All P k [] all h = cc
  find-All P k (x ∷ rows) {r} all h = elim (Bool-cases (key x == k)) [
    | inl e ↦ subst P (some-injective x r (rw e at h)) all.0
    | inr e ↦ find-All P k rows all.1 (rw e at h)
  ]

  pub write-All {κ} :
      (P : R → Type κ) (r : R) (rows : List R) → All P rows → P r → All P (write r rows)
  unfolding write
  write-All P r [] all h = tt
  write-All P r (x ∷ rows) all h = elim (Bool-cases (key x == key r)) [
    | inl e ↦ rw e (h, all.1)
    | inr e ↦ rw e (all.0, write-All P r rows all.1 h)
  ]

  pub find-append_new :
      (k : String) (r : R) (rows : List R)
      → find k rows ≡ none
      → (key r == k) ≡ true
      → find k (rows ++ r ∷ []) ≡ some r
  find-append_new k r rows absent e = rw (find-append k r rows) (rw absent (rw e))
