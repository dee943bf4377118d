-- ===== src/Domain/Enums.antt =====
-- domain/enums.py
use lantern_task_manager.Base.{
  String, Bool, true, false, Option, none, some, ◌==◌, ◌≡◌, ◌↔◌, refl, arith, if◌then◌else◌,
}

pub data DeptCode : Type 0 where
  fin proc op hr it bd sal exo tbs cbs qua ceo : DeptCode

pub DeptCode-discrete : Discrete DeptCode
DeptCode-discrete = hlevel

-- `code.value`
unfoldable pub dept_value : DeptCode → String
dept_value fin = "FIN"
dept_value proc = "PROC"
dept_value op = "OP"
dept_value hr = "HR"
dept_value it = "IT"
dept_value bd = "BD"
dept_value sal = "SAL"
dept_value exo = "EXO"
dept_value tbs = "TBS"
dept_value cbs = "CBS"
dept_value qua = "QUA"
dept_value ceo = "CEO"

-- `DeptCode(value)`, with `none` for its `ValueError`.
unfoldable pub dept_of_value : String → Option DeptCode
dept_of_value v =
    if v == "FIN"
    then some fin
    else if v == "PROC"
    then some proc
    else if v == "OP"
    then some op
    else if v == "HR"
    then some hr
    else if v == "IT"
    then some it
    else if v == "BD"
    then some bd
    else if v == "SAL"
    then some sal
    else if v == "EXO"
    then some exo
    else if v == "TBS"
    then some tbs
    else if v == "CBS"
    then some cbs
    else if v == "QUA"
    then some qua
    else if v == "CEO"
    then some ceo
    else none

pub dept_of_value-dept_value : (d : DeptCode) → dept_of_value (dept_value d) ≡ some d
unfolding dept_of_value dept_value
dept_of_value-dept_value fin = refl
dept_of_value-dept_value _ = refl

-- `DEPT_DISPLAY`
unfoldable pub dept_display : DeptCode → String
dept_display fin = "Finance"
dept_display proc = "Procurement"
dept_display op = "Operation"
dept_display hr = "HR"
dept_display it = "IT"
dept_display bd = "Business Development"
dept_display sal = "Sales"
dept_display exo = "CEO Office"
dept_display tbs = "Technical Bidding & Solutions"
dept_display cbs = "Commercial Bidding & Solutions"
dept_display qua = "Quality"
dept_display ceo = "Executive"

pub data TaskStatus : Type 0 where
  created assigned in_progress pending_closure : TaskStatus
  pending_verification verified reopened cancelled : TaskStatus

pub data Priority : Type 0 where
  critical high medium low : Priority

pub data AuditEvent : Type 0 where
  created assigned acknowledged resumed updated closure_requested : AuditEvent
  verified reopened cancelled escalated notified : AuditEvent

-- `==` on statuses.
abbrev pub status_eq : TaskStatus → TaskStatus → Bool
status_eq TaskStatus.created TaskStatus.created = true
status_eq TaskStatus.assigned TaskStatus.assigned = true
status_eq in_progress in_progress = true
status_eq pending_closure pending_closure = true
status_eq pending_verification pending_verification = true
status_eq TaskStatus.verified TaskStatus.verified = true
status_eq TaskStatus.reopened TaskStatus.reopened = true
status_eq TaskStatus.cancelled TaskStatus.cancelled = true
status_eq _ _ = false

-- `==` on department codes.
unfoldable pub dept_eq : DeptCode → DeptCode → Bool
dept_eq fin fin = true
dept_eq proc proc = true
dept_eq op op = true
dept_eq hr hr = true
dept_eq it it = true
dept_eq bd bd = true
dept_eq sal sal = true
dept_eq exo exo = true
dept_eq tbs tbs = true
dept_eq cbs cbs = true
dept_eq qua qua = true
dept_eq ceo ceo = true
dept_eq _ _ = false

pub dept_eq_iff : (d e : DeptCode) → (dept_eq d e ≡ true) ↔ (d ≡ e)
unfolding dept_eq
dept_eq_iff d e = (ground arith, λ p. rw p (same e))
  where
    same : (e : DeptCode) → dept_eq e e ≡ true
    same fin = refl
    same _ = refl

-- `status.value`
abbrev pub status_value : TaskStatus → String
status_value TaskStatus.created = "CREATED"
status_value TaskStatus.assigned = "ASSIGNED"
status_value in_progress = "IN_PROGRESS"
status_value pending_closure = "PENDING_CLOSURE"
status_value pending_verification = "PENDING_VERIFICATION"
status_value TaskStatus.verified = "VERIFIED"
status_value TaskStatus.reopened = "REOPENED"
status_value TaskStatus.cancelled = "CANCELLED"
