-- ===== src/Policy/Assignment/Rules.antt =====
-- The assignment rules of policy/assignment.py.
use lantern_task_manager.Base.{
  ◌≡◌, ◌↔◌, String, Bool, true, false, not, ◌&&◌, ◌||◌, arith, any_of, Outcome-cases, inl, inr, ok,
  raised, Raised, profile_not_found, policy_denied, ◌⊎◌,
}
use lantern_task_manager.Domain.Enums.{DeptCode, dept_eq}
use lantern_task_manager.Policy.Profiles.{AssignmentProfile, Employees, get_profile, parse_profile}
use lantern_task_manager.Policy.Assignment.{
  Policy, Edge, edge_applies, setting, ceo_may_assign_direct_report, can_assign, assert_can_assign,
  assert_assignee_department_matches, mismatch, unlisted_assignee, unlisted_requester,
}

module _ (policy : Policy) (requester assignee : AssignmentProfile) where
  -- The grounds on which an assignment may be allowed.
  abbrev pub grounds : Bool
  grounds =
      ceo_may_assign_direct_report policy requester assignee
      || (dept_eq requester.department_code assignee.department_code
          && setting policy.allow_same_department true)
      || any_of (edge_applies requester assignee) policy.edges
      || (not (dept_eq requester.department_code assignee.department_code)
          && setting policy.allow_cross_department false)

  -- An assignment is allowed exactly when no deny edge applies and there is a ground for it: a
  -- direct report of the CEO, the same department, an edge, or the cross-department default. So a
  -- deny edge outweighs every ground, the CEO's too.
  can_assign_exact :
      (can_assign policy requester assignee).allowed
      ≡ (not (any_of (edge_applies requester assignee) policy.deny_edges) && grounds)
  unfolding can_assign
  can_assign_exact = ground arith

-- A bidirectional edge applies in both directions or in none.
pub edge_applies_sym :
    (requester assignee : AssignmentProfile) (edge : Edge)
    → edge.bidirectional ≡ true
    → edge_applies requester assignee edge ≡ edge_applies assignee requester edge
unfolding edge_applies
edge_applies_sym requester assignee edge h = ground arith

-- `assert_can_assign` passes exactly when both users have active profiles and the policy allows
-- the assignment between them.
pub assert_can_assign_iff :
    (policy : Policy) (employees : Employees) (requester assignee : String)
    → (assert_can_assign policy employees requester assignee ≡ ok tt) ↔ (
        (p : AssignmentProfile) × (q : AssignmentProfile) × (get_profile employees requester ≡ ok p)
        × (get_profile employees assignee ≡ ok q)
        × ((can_assign policy p q).allowed ≡ true))
unfolding assert_can_assign
assert_can_assign_iff policy employees requester assignee =
    (parts, λ (p, q, hp, hq, allowed). ground arith)
  where
    parts :
        assert_can_assign policy employees requester assignee ≡ ok tt
        → (p : AssignmentProfile) × (q : AssignmentProfile) × (get_profile employees requester
            ≡ ok p)
          × (get_profile employees assignee ≡ ok q)
          × ((can_assign policy p q).allowed ≡ true)
    parts h = elim (Outcome-cases (get_profile employees requester)) [
      | inr (e, hp) ↦ absurd (ground arith)
      | inl (p, hp) ↦ elim (Outcome-cases (get_profile employees assignee)) [
        | inr (e, hq) ↦ absurd (ground arith)
        | inl (q, hq) ↦ (p, q, hp, hq, ground arith)
      ]
    ]

-- The assertion returns a profile exactly when it is the assignee's in the directory and its
-- department is the one of the request.
pub assert_assignee_department_matches_iff :
    (employees : Employees) (assignee : String) (code : DeptCode) (profile : AssignmentProfile)
    → (assert_assignee_department_matches employees assignee code ≡ ok profile) ↔ (
        (get_profile employees assignee ≡ ok profile)
        × (dept_eq profile.department_code code ≡ true))
unfolding assert_assignee_department_matches
assert_assignee_department_matches_iff employees assignee code profile =
    (ground arith, ground arith)

-- The exceptions by which the policy refuses, with their message.
abbrev pub Refusal : Raised → String → Type 0
Refusal e message = (e ≡ profile_not_found message) ⊎ (e ≡ policy_denied message)

get_profile_raises :
    (employees : Employees) (id : String) {e : Raised}
    → get_profile employees id ≡ raised e
    → ((message : String) × (e ≡ profile_not_found message))
unfolding get_profile parse_profile
get_profile_raises employees id h = ground arith

pub department_raises :
    (employees : Employees) (assignee : String) (code : DeptCode) {e : Raised}
    → assert_assignee_department_matches employees assignee code ≡ raised e
    → ((message : String) × Refusal e message)
unfolding assert_assignee_department_matches
department_raises employees assignee code {e} h =
    elim (Outcome-cases (get_profile employees assignee)) [
      | inl (q, found) ↦ (mismatch q code, inr (ground (arith, found, h)))
      | inr (x, missing) ↦
          let (m, why) = get_profile_raises employees assignee missing in
          (unlisted_assignee, inl (ground (arith, missing, why, h)))
    ]

pub assignment_raises :
    (policy : Policy) (employees : Employees) (requester assignee : String) {e : Raised}
    → assert_can_assign policy employees requester assignee ≡ raised e
    → ((message : String) × Refusal e message)
unfolding assert_can_assign
assignment_raises policy employees requester assignee {e} h =
    elim (Outcome-cases (get_profile employees requester)) [
      | inr (x, missing) ↦
          let (m, why) = get_profile_raises employees requester missing in
          (unlisted_requester, inl (ground (arith, missing, why, h)))
      | inl (p, there) ↦ elim (Outcome-cases (get_profile employees assignee)) [
        | inl (q, found) ↦ ((can_assign policy p q).message, inr (ground (arith, there, found, h)))
        | inr (x, missing) ↦
            let (m, why) = get_profile_raises employees assignee missing in
            (unlisted_assignee, inl (ground (arith, there, missing, why, h)))
      ]
    ]
