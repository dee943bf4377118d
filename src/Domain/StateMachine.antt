-- ===== src/Domain/StateMachine.antt =====
-- domain/state_machine.py
pub mod Lifecycle
use lantern_task_manager.Base.{◌≡◌, ◌↔◌, ◌⊎◌, ◌≢◌, Bool, true, false, not, ◌&&◌, ◌||◌, arith}
use lantern_task_manager.Base.{refl, inl, inr, if◌then◌else◌}
use lantern_task_manager.Domain.Enums.{
  TaskStatus, status_eq, in_progress, pending_closure, pending_verification,
}

-- `_DISALLOWED_CANCEL`
abbrev disallowed_cancel : TaskStatus → Bool
disallowed_cancel TaskStatus.cancelled = true
disallowed_cancel TaskStatus.verified = true
disallowed_cancel _ = false

-- `to_status in transitions.get(from_status, set())`
transitions : TaskStatus → TaskStatus → Bool
transitions TaskStatus.created t =
    status_eq t TaskStatus.assigned || status_eq t TaskStatus.cancelled
transitions TaskStatus.assigned t = status_eq t in_progress || status_eq t TaskStatus.cancelled
transitions in_progress t =
    status_eq t pending_closure
    || status_eq t pending_verification
    || status_eq t TaskStatus.cancelled
transitions pending_closure t = status_eq t pending_verification || status_eq t in_progress
transitions pending_verification t =
    status_eq t TaskStatus.verified || status_eq t TaskStatus.reopened
transitions TaskStatus.reopened t =
    status_eq t in_progress || status_eq t pending_verification || status_eq t TaskStatus.cancelled
transitions TaskStatus.verified t = false
transitions TaskStatus.cancelled t = false

unfoldable pub can_transition : TaskStatus → TaskStatus → Bool → Bool
unfolding transitions
can_transition from to request_cancel =
    if request_cancel
    then not (disallowed_cancel from) && status_eq to TaskStatus.cancelled
    else if status_eq from to
    then true
    else transitions from to
