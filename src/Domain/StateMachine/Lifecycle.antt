-- ===== src/Domain/StateMachine/Lifecycle.antt =====
-- The task lifecycle of domain/state_machine.py as a step relation.
use lantern_task_manager.Base.{◌≡◌, refl, ◌↔◌, ◌⊎◌, inl, inr, Bool, true, false, arith}
use lantern_task_manager.Domain.Enums.{
  TaskStatus, created, assigned, in_progress, pending_closure, pending_verification, verified,
  reopened, cancelled,
}
use lantern_task_manager.Domain.StateMachine.{can_transition}

-- One rule for each arrow of the documented lifecycle.
pub data Step : TaskStatus → TaskStatus → Type 0 where
  assign : Step created assigned
  abandon : Step created cancelled
  start : Step assigned in_progress
  withdraw : Step assigned cancelled
  ask_closure : Step in_progress pending_closure
  submit : Step in_progress pending_verification
  stop : Step in_progress cancelled
  forward : Step pending_closure pending_verification
  take_back : Step pending_closure in_progress
  confirm : Step pending_verification verified
  reject : Step pending_verification reopened
  resume : Step reopened in_progress
  resubmit : Step reopened pending_verification
  drop_reopened : Step reopened cancelled

Step-can_transition : {a b : TaskStatus} → Step a b → can_transition a b false ≡ true
unfolding can_transition
Step-can_transition assign = refl
Step-can_transition abandon = refl
Step-can_transition start = refl
Step-can_transition withdraw = refl
Step-can_transition ask_closure = refl
Step-can_transition submit = refl
Step-can_transition stop = refl
Step-can_transition forward = refl
Step-can_transition take_back = refl
Step-can_transition confirm = refl
Step-can_transition reject = refl
Step-can_transition resume = refl
Step-can_transition resubmit = refl
Step-can_transition drop_reopened = refl

can_transition_self : (a : TaskStatus) → can_transition a a false ≡ true
unfolding can_transition
can_transition_self a = ground arith

can_transition-Step : (a b : TaskStatus) → can_transition a b false ≡ true → (a ≡ b) ⊎ Step a b
unfolding can_transition
can_transition-Step created created h = inl refl
can_transition-Step assigned assigned h = inl refl
can_transition-Step in_progress in_progress h = inl refl
can_transition-Step pending_closure pending_closure h = inl refl
can_transition-Step pending_verification pending_verification h = inl refl
can_transition-Step verified verified h = inl refl
can_transition-Step reopened reopened h = inl refl
can_transition-Step cancelled cancelled h = inl refl
can_transition-Step created assigned h = inr assign
can_transition-Step created cancelled h = inr abandon
can_transition-Step assigned in_progress h = inr start
can_transition-Step assigned cancelled h = inr withdraw
can_transition-Step in_progress pending_closure h = inr ask_closure
can_transition-Step in_progress pending_verification h = inr submit
can_transition-Step in_progress cancelled h = inr stop
can_transition-Step pending_closure pending_verification h = inr forward
can_transition-Step pending_closure in_progress h = inr take_back
can_transition-Step pending_verification verified h = inr confirm
can_transition-Step pending_verification reopened h = inr reject
can_transition-Step reopened in_progress h = inr resume
can_transition-Step reopened pending_verification h = inr resubmit
can_transition-Step reopened cancelled h = inr drop_reopened
can_transition-Step _ _ h = cc

-- A plain request is allowed exactly when the status stays as it is or follows an arrow of the
-- lifecycle.
can_transition_iff : (a b : TaskStatus) → (can_transition a b false ≡ true) ↔ ((a ≡ b) ⊎ Step a b)
can_transition_iff a b = (can_transition-Step a b, back a b)
  where
    back : (a b : TaskStatus) → (a ≡ b) ⊎ Step a b → can_transition a b false ≡ true
    back a b (inl e) = rw (← e) (can_transition_self a)
    back a b (inr s) = Step-can_transition s

-- A cancellation is allowed exactly from a status other than VERIFIED and CANCELLED, and only to
-- CANCELLED. It goes beyond the arrows: PENDING_CLOSURE and PENDING_VERIFICATION have none to it.
can_transition_cancel_iff :
    (a b : TaskStatus)
    → (can_transition a b true ≡ true)
      ↔ ((b ≡ cancelled) × (¬ (a ≡ verified)) × (¬ (a ≡ cancelled)))
unfolding can_transition
can_transition_cancel_iff a b = (ground arith, ground arith)

pub data Reach (a : TaskStatus) : TaskStatus → Type 0 where
  here : Reach a a
  next : {b c : TaskStatus} → Reach a b → Step b c → Reach a c

abbrev pub terminal : TaskStatus → Bool
terminal verified = true
terminal cancelled = true
terminal _ = false

no_step : {a b : TaskStatus} → Step a b → terminal a ≡ false
no_step assign = refl
no_step abandon = refl
no_step start = refl
no_step withdraw = refl
no_step ask_closure = refl
no_step submit = refl
no_step stop = refl
no_step forward = refl
no_step take_back = refl
no_step confirm = refl
no_step reject = refl
no_step resume = refl
no_step resubmit = refl
no_step drop_reopened = refl

-- VERIFIED and CANCELLED are final: whatever is reached from them is that status.
pub Reach-terminal : {a b : TaskStatus} → terminal a ≡ true → Reach a b → a ≡ b
Reach-terminal t here = refl
Reach-terminal {a} t (next {b = b} r s) = let e : a ≡ b = Reach-terminal t r in cc (no_step s, t, e)

-- Every status that is not final can still be brought to VERIFIED.
pub open_reaches_verified : (a : TaskStatus) → terminal a ≡ false → Reach a verified
open_reaches_verified created h = next (next (next (next here assign) start) submit) confirm
open_reaches_verified assigned h = next (next (next here start) submit) confirm
open_reaches_verified in_progress h = next (next here submit) confirm
open_reaches_verified pending_closure h = next (next here forward) confirm
open_reaches_verified pending_verification h = next here confirm
open_reaches_verified reopened h = next (next here resubmit) confirm
open_reaches_verified verified h = cc
open_reaches_verified cancelled h = cc

-- A task is verified only from PENDING_VERIFICATION.
pub Step-verified : {a : TaskStatus} → Step a verified → a ≡ pending_verification
Step-verified confirm = refl
