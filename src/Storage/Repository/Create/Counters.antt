-- ===== src/Storage/Repository/Create/Counters.antt =====
-- The counters of `next_sequence`.
use lantern_task_manager.Base.{
  ◌≡◌, refl, ℕ, ◌+◌, true, ◌&&◌, Option, none, some, List, [], ◌∷◌, ◌++◌, eqb, if◌then◌else◌, ok,
  arith, Option-cases, Bool-cases, inl, inr,
}
use lantern_task_manager.Domain.Enums.{DeptCode, dept_eq, dept_eq_iff}
use lantern_task_manager.Storage.Orm.{TaskCounter, Db}
use lantern_task_manager.Storage.Repository.Create.{
  counter_is, find_counter, write_counter, next_sequence,
}

-- The last number given out for a department and a year.
abbrev last_of : Option TaskCounter → ℕ
last_of none = 0
last_of (some c) = c.last_sequence

unfoldable pub last_sequence : DeptCode → ℕ → List TaskCounter → ℕ
last_sequence dept year counters = last_of (find_counter dept year counters)

find_counter-is :
    (dept : DeptCode) (year : ℕ) (counters : List TaskCounter) {c : TaskCounter}
    → find_counter dept year counters ≡ some c
    → counter_is dept year c ≡ true
unfolding find_counter
find_counter-is dept year [] h = cc
find_counter-is dept year (x ∷ counters) {c} h =
    ground (arith, find_counter-is dept year counters {c = c})

find_counter-write :
    (d : DeptCode) (y : ℕ) (c : TaskCounter) (counters : List TaskCounter) {old : TaskCounter}
    → find_counter c.department_code c.year counters ≡ some old
    → find_counter d y (write_counter c counters)
      ≡ (if counter_is d y c then some c else find_counter d y counters)
unfolding find_counter write_counter
find_counter-write d y c [] h = cc
find_counter-write d y c (x ∷ counters) {old} h = ground (
  arith,
  find_counter-write d y c counters {old = old},
  dept_eq_iff x.department_code d,
  dept_eq_iff c.department_code d,
  dept_eq_iff x.department_code c.department_code,
)

find_counter-append :
    (d : DeptCode) (y : ℕ) (c : TaskCounter) (counters : List TaskCounter)
    → find_counter d y (counters ++ c ∷ []) ≡ elim (find_counter d y counters) [
      | some x ↦ some x
      | none ↦ if counter_is d y c then some c else none
    ]
unfolding find_counter
find_counter-append d y c [] = refl
find_counter-append d y c (x ∷ counters) = ground (arith, find_counter-append d y c counters)

found_key :
    (dept : DeptCode) (year : ℕ) (counters : List TaskCounter) {c : TaskCounter}
    → find_counter dept year counters ≡ some c
    → (c.department_code ≡ dept) × (c.year ≡ year)
found_key dept year counters {c} h =
    ground (arith, find_counter-is dept year counters h, dept_eq_iff c.department_code dept)

last_sequence-write :
    (d : DeptCode) (y : ℕ) (c : TaskCounter) (counters : List TaskCounter) {old : TaskCounter}
    → find_counter c.department_code c.year counters ≡ some old
    → last_sequence d y (write_counter c counters)
      ≡ (if counter_is d y c then c.last_sequence else last_sequence d y counters)
unfolding last_sequence
last_sequence-write d y c counters h =
    rw (find_counter-write d y c counters h)
      (elim (Bool-cases (counter_is d y c)) [ inl e ↦ rw e | inr e ↦ rw e ])

-- `next_sequence` returns one more than the last number, remembers it, and leaves the last numbers
-- of other departments and years alone.
pub next_sequence_lem :
    (dept : DeptCode) (year : ℕ) (db : Db) (d : DeptCode) (y : ℕ)
    → ((next_sequence dept year db).0 ≡ ok (last_sequence dept year db.counters + 1))
      × (last_sequence d y (next_sequence dept year db).1.counters ≡ (
          if dept_eq dept d && eqb year y
          then last_sequence dept year db.counters + 1
          else last_sequence d y db.counters))
unfolding next_sequence last_sequence
next_sequence_lem dept year db d y = elim (Option-cases (find_counter dept year db.counters)) [
  | inl fresh ↦
      let row : TaskCounter = record { department_code = dept; year = year; last_sequence = 0 } in
      (
        rw fresh (ground arith),
        ground (
          arith,
          fresh,
          find_counter-append dept year row db.counters,
          find_counter-append d y row db.counters,
          find_counter-write d y (record row { last_sequence = 1 }) (db.counters ++ row ∷ [])
              {old = row},
          dept_eq_iff dept dept,
          dept_eq_iff dept d,
        ),
      )
  | inr (c, found) ↦
      let key = found_key dept year db.counters found in
      let c' : TaskCounter = record {
        department_code = dept;
        year = year;
        last_sequence = c.last_sequence + 1;
      } in
      (
        ground (arith, found),
        ground (arith, found, last_sequence-write d y c' db.counters {old = c} found),
      )
]

-- It changes nothing but the counters.
pub next_sequence_frame :
    (dept : DeptCode) (year : ℕ) (db : Db)
    → (next_sequence dept year db).1
      ≡ record db { counters = (next_sequence dept year db).1.counters }
unfolding next_sequence
next_sequence_frame dept year db = ground arith
