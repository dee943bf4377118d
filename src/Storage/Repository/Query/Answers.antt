-- ===== src/Storage/Repository/Query/Answers.antt =====
-- The answers of the queries of `TaskRepository`.
use lantern_task_manager.Base.{
  ◌≡◌, refl, ◌∙◌, ◌≤◌, String, Bool, true, false, not, ◌&&◌, ◌||◌, List, [], ◌∷◌, ◌==◌,
  if◌then◌else◌, arith, keep, keep-All, any_of, any_of-keep, take, take-All, length, length-take,
  All, All-map, order_by, order_by-All, IsOrdered, order_by-IsOrdered, take-IsOrdered,
  any_of-order_by, Bool-cases, inl, inr, eq_iff,
}
use text.Mathlib.TextPositions.{eq_refl}
use lantern_task_manager.Domain.Enums.{TaskStatus, created}
use lantern_task_manager.Domain.Models.{ListTasksParams}
use lantern_task_manager.Storage.Orm.{TaskOrm}
use lantern_task_manager.Storage.Repository.Query.{
  listed, list_rows, due, open_statuses, open_for, is_terminal, distinct_of,
}

-- `list_tasks` answers rows that meet every condition only, by due date, and with the limit on at
-- most `limit` of them.
list_rows_sound :
    (params : ListTasksParams) (viewer : String) (apply_limit : Bool) (rows : List TaskOrm)
    → All (λ row. listed params viewer row ≡ true) (list_rows params viewer apply_limit rows)
      × IsOrdered due (list_rows params viewer apply_limit rows)
      × (length (list_rows params viewer true rows) ≤ params.limit)
unfolding list_rows
list_rows_sound params viewer apply_limit rows =
    let found = order_by due (keep (listed params viewer) rows) in
    let all =
      order_by-All due (λ row. listed params viewer row ≡ true) (keep (listed params viewer) rows)
        (keep-All (listed params viewer) rows) in
    let ordered = order_by-IsOrdered due (keep (listed params viewer) rows) in
    let limited : length (take params.limit found) ≤ params.limit =
      omega (arith, length-take params.limit found) in
    elim apply_limit
      as (λ b.
        All (λ row. listed params viewer row ≡ true) (if b then take params.limit found else found)
        × IsOrdered due (if b then take params.limit found else found)
        × (length (take params.limit found) ≤ params.limit)) [
          | true ↦ (
            take-All (λ row. listed params viewer row ≡ true) params.limit found all,
            take-IsOrdered due params.limit found ordered,
            limited,
          )
          | false ↦ (all, ordered, limited)
        ]

-- Without the limit `list_tasks` answers every row that meets the conditions: a test finds a row in
-- the answer exactly when it finds one among those rows of the table.
list_rows_complete :
    (params : ListTasksParams) (viewer : String) (rows : List TaskOrm) (p : TaskOrm → Bool)
    → any_of p (list_rows params viewer false rows)
      ≡ any_of (λ row. listed params viewer row && p row) rows
unfolding list_rows
list_rows_complete params viewer rows p =
    any_of-order_by due p (keep (listed params viewer) rows)
    ∙ any_of-keep p (listed params viewer) rows

open_statuses-is_terminal : (s : TaskStatus) → open_statuses s ≡ not (is_terminal s)
open_statuses-is_terminal created = refl
open_statuses-is_terminal _ = refl

abbrev Named : List String → List TaskOrm → String → Type 0
Named seen rows assignee =
    (any_of (open_for assignee) rows ≡ true) × (any_of (λ s. s == assignee) seen ≡ false)

abbrev skipped : List String → TaskOrm → Bool
skipped seen row = is_terminal row.status || any_of (λ s. s == row.assigned_to_entra_id) seen

Named-row :
    (seen : List String) (row : TaskOrm) (rows : List TaskOrm)
    → skipped seen row ≡ false
    → Named seen (row ∷ rows) row.assigned_to_entra_id
Named-row seen row rows h = (
  ground (arith, open_statuses-is_terminal row.status, eq_refl row.assigned_to_entra_id),
  ground arith,
)

-- Everyone that `distinct_assignees_with_open_tasks` names has a task that
-- `list_open_for_assignee` lists, and nobody who was seen before is named.
pub distinct_of_sound :
    (seen : List String) (rows : List TaskOrm) → All (Named seen rows) (distinct_of seen rows)
unfolding distinct_of
distinct_of_sound seen [] = tt
distinct_of_sound seen (row ∷ rows) = elim (Bool-cases (skipped seen row)) [
  | inl e ↦ rw e (
      All-map (Named seen rows) (Named seen (row ∷ rows)) (distinct_of seen rows)
        (λ a h. (ground arith, h.1)) (distinct_of_sound seen rows))
  | inr e ↦
      let seen' = row.assigned_to_entra_id ∷ seen in
      rw e (
        Named-row seen row rows e,
        All-map (Named seen' rows) (Named seen (row ∷ rows)) (distinct_of seen' rows)
            (λ a h. (ground arith, ground arith)) (distinct_of_sound seen' rows),
      )
]

-- Everyone with an open task is named, unless seen before.
distinct_of_complete :
    (seen : List String) (rows : List TaskOrm) (assignee : String)
    → any_of (open_for assignee) rows ≡ true
    → any_of (λ s. s == assignee) seen || any_of (λ s. s == assignee) (distinct_of seen rows) ≡ true
unfolding distinct_of
distinct_of_complete seen [] assignee h = cc
distinct_of_complete seen (row ∷ rows) assignee h = ground (
  arith,
  open_statuses-is_terminal row.status,
  eq_iff row.assigned_to_entra_id assignee,
  distinct_of_complete seen rows assignee,
  distinct_of_complete (row.assigned_to_entra_id ∷ seen) rows assignee,
)
