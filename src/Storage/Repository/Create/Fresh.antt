-- ===== src/Storage/Repository/Create/Fresh.antt =====
-- The ids that `create_from_draft` gives out.
use text.Mathlib.TextPositions.{eq_refl}
use lantern_task_manager.Base.{
  ◌≡◌, ◌∙◌, refl, sym, ap, ℕ, ◌+◌, ◌≤◌, String, false, none, some, List, [], ◌∷◌, ◌++◌, ◌==◌,
  eq_iff, Outcome, ok, arith, Bool-cases, inl, inr, find, find-append_new, All, All-append,
}
use lantern_task_manager.Domain.Enums.{DeptCode, dept_eq_iff}
use lantern_task_manager.Domain.Models.{UserRef, TaskCreateDraft, TaskRecord}
use lantern_task_manager.Storage.Orm.{TaskCounter, TaskOrm, Db, Clock}
use lantern_task_manager.Storage.Repository.Row.{orm_to_record, find_task, task_key}
use lantern_task_manager.Storage.Repository.PublicId.{public_id}
use lantern_task_manager.Storage.Repository.PublicId.Unique.{public_id-injective}
use lantern_task_manager.Storage.Repository.Create.{next_sequence, new_row, create_from_draft}
use lantern_task_manager.Storage.Repository.Create.Counters.{
  last_sequence, next_sequence_lem, next_sequence_frame,
}

-- The row's id was made from a number that its counter has given out.
pub record IsIssued (counters : List TaskCounter) (row : TaskOrm) : Type 0 where
  pub dept : DeptCode
  pub year : ℕ
  pub seq : ℕ
  pub id_made : row.task_id ≡ public_id dept year seq
  pub given_out : seq ≤ last_sequence dept year counters

abbrev pub AllIssued : Db → Type 0
AllIssued db = All (IsIssued db.counters) db.tasks

not_taken :
    (counters : List TaskCounter) (dept : DeptCode) (year : ℕ) (row : TaskOrm)
    → IsIssued counters row
    → (row.task_id == public_id dept year (last_sequence dept year counters + 1)) ≡ false
not_taken counters dept year row h =
    elim (Bool-cases (row.task_id == public_id dept year (last_sequence dept year counters + 1))) [
      | inl e ↦
          let same = (eq_iff row.task_id _).0 e in
          let parts = public_id-injective h.dept dept h.year year h.seq _ (sym h.id_made ∙ same) in
          let low = h.given_out in absurd (late parts.0 parts.1 parts.2 low)
      | inr e ↦ e
    ]
  where
    late :
        {d : DeptCode} {y s : ℕ}
        → d ≡ dept
        → y ≡ year
        → s ≡ last_sequence dept year counters + 1
        → s ≤ last_sequence d y counters
        → ⊥
    late {d} {y} {s} p q r low =
        let low' : s ≤ last_sequence dept year counters = rw (p, q) at low in omega arith

find-fresh :
    (counters : List TaskCounter) (dept : DeptCode) (year : ℕ) (rows : List TaskOrm)
    → All (IsIssued counters) rows
    → find task_key (public_id dept year (last_sequence dept year counters + 1)) rows ≡ none
unfolding find
find-fresh counters dept year [] h = refl
find-fresh counters dept year (row ∷ rows) h =
    rw (not_taken counters dept year row h.0) (find-fresh counters dept year rows h.1)

-- The counters grow, so what they have given out stays given out.
IsIssued-next :
    (dept : DeptCode) (year : ℕ) (db : Db) (row : TaskOrm)
    → IsIssued db.counters row
    → IsIssued (next_sequence dept year db).1.counters row
IsIssued-next dept year db row h = record {
  dept = h.dept;
  year = h.year;
  seq = h.seq;
  id_made = h.id_made;
  given_out = ground (
    arith,
    h.given_out,
    (next_sequence_lem dept year db h.dept h.year).1,
    dept_eq_iff dept h.dept,
  );
}

All-next :
    (dept : DeptCode) (year : ℕ) (db : Db) (rows : List TaskOrm)
    → All (IsIssued db.counters) rows
    → All (IsIssued (next_sequence dept year db).1.counters) rows
All-next dept year db [] h = tt
All-next dept year db (row ∷ rows) h =
    (IsIssued-next dept year db row h.0, All-next dept year db rows h.1)

module _ (clock : Clock) (draft : TaskCreateDraft) (requester : UserRef) (db : Db) where
  -- The id of the next task for the assignee's department in the current year.
  abbrev pub new_id : String
  new_id =
      public_id draft.assignee_department_code clock.year
        (last_sequence draft.assignee_department_code clock.year db.counters + 1)

  abbrev drawn : Db
  drawn = (next_sequence draft.assignee_department_code clock.year db).1

  drawn_tasks : drawn.tasks ≡ db.tasks
  drawn_tasks =
      ap (λ (d : Db). d.tasks) (next_sequence_frame draft.assignee_department_code clock.year db)

  create_effect :
      find_task new_id drawn ≡ none
      → create_from_draft clock draft requester db ≡ (
        ok (orm_to_record (new_row clock draft requester new_id)),
        record drawn { tasks = drawn.tasks ++ new_row clock draft requester new_id ∷ [] },
      )
  unfolding create_from_draft
  create_effect absent =
      let next =
        (next_sequence_lem draft.assignee_department_code clock.year db
          draft.assignee_department_code clock.year).0 in
      ground (arith, next, absent)

  new_row-IsIssued : IsIssued drawn.counters (new_row clock draft requester new_id)
  new_row-IsIssued = record {
    dept = draft.assignee_department_code;
    year = clock.year;
    seq = last_sequence draft.assignee_department_code clock.year db.counters + 1;
    id_made = refl;
    given_out = ground (
      arith,
      (next_sequence_lem draft.assignee_department_code clock.year db draft.assignee_department_code
          clock.year).1,
      dept_eq_iff draft.assignee_department_code draft.assignee_department_code,
    );
  }

  absent_before : AllIssued db → find_task new_id db ≡ none
  absent_before issued =
      find-fresh db.counters draft.assignee_department_code clock.year db.tasks issued

  -- If every task's id was given out by its counter, `create_from_draft` returns: it never meets an
  -- id that is taken. The new task is ASSIGNED, is read back by `get` under the next id of the
  -- assignee's department and year, which no task had before, and every id is again given out.
  pub create_from_draft_fresh :
      AllIssued db
      → (find_task new_id db ≡ none)
        × ((create_from_draft clock draft requester db).0
            ≡ ok (orm_to_record (new_row clock draft requester new_id)))
        × (find_task new_id (create_from_draft clock draft requester db).1
            ≡ some (new_row clock draft requester new_id))
        × AllIssued (create_from_draft clock draft requester db).1
  create_from_draft_fresh issued =
      let absent = absent_before issued in
      let absent' : find_task new_id drawn ≡ none = rw drawn_tasks absent in
      let effect = create_effect absent' in
      (
        absent,
        ap (λ (r : Outcome TaskRecord × Db). r.0) effect,
        rw effect (find-append_new task_key new_id _ drawn.tasks absent' (eq_refl new_id)),
        rw effect (
            All-append (IsIssued drawn.counters) drawn.tasks _
              (rw drawn_tasks
                (All-next draft.assignee_department_code clock.year db db.tasks issued))
              (new_row-IsIssued, tt)),
      )
