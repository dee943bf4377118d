-- ===== src/Policy/Assignment.antt =====
-- policy/assignment.py
pub mod Rules
use lantern_task_manager.Base.{
  String, ◌<>◌, Bool, true, false, not, ◌&&◌, ◌||◌, Option, none, some, List, [], ◌∷◌, ◌==◌,
  if◌then◌else◌, truthy, strip, upper, any_of, Outcome, ok, raised, Raised, profile_not_found,
  policy_denied,
}
use mathlib.Core.List.{map}
use lantern_task_manager.Domain.Enums.{DeptCode, dept_eq, dept_value, dept_display, ceo}
use lantern_task_manager.Policy.Profiles.{AssignmentProfile, Employees, get_profile}

-- `PolicyResult`
pub record PolicyResult : Type 0 where
  pub allowed : Bool
  pub message : String

-- One side of an edge. `other_keys` tells of keys that the code does not read: they make the
-- object non-empty.
pub record Side : Type 0 where
  pub entra_object_id : Option String
  pub department_code : Option String
  pub other_keys : Bool

pub record Edge : Type 0 where
  pub from_side : Side
  pub to_side : Side
  pub bidirectional : Bool

-- The policy file, with `none` for a missing key.
pub record Policy : Type 0 where
  pub deny_edges : List Edge
  pub edges : List Edge
  pub allow_same_department : Option Bool
  pub allow_cross_department : Option Bool
  pub allow_ceo_to_direct_reports : Option Bool
  pub ceo_department_codes : List String

abbrev is_some {ℓ} : {A : Type ℓ} → Option A → Bool
is_some none = false
is_some (some a) = true

abbrev is_empty : Side → Bool
is_empty side =
    not (is_some side.entra_object_id || is_some side.department_code || side.other_keys)

abbrev id_matches : Option String → AssignmentProfile → Bool
id_matches none profile = true
id_matches (some id) profile = id == profile.entra_object_id

abbrev dept_matches : Option String → AssignmentProfile → Bool
dept_matches none profile = true
dept_matches (some code) profile = upper (strip code) == dept_value profile.department_code

-- `_matches`
unfoldable pub matches : Side → AssignmentProfile → Bool
matches side profile =
    if is_empty side
    then false
    else id_matches side.entra_object_id profile && dept_matches side.department_code profile

-- `_edge_applies`
unfoldable pub edge_applies : AssignmentProfile → AssignmentProfile → Edge → Bool
edge_applies requester assignee edge =
    if matches edge.from_side requester && matches edge.to_side assignee
    then true
    else edge.bidirectional && (matches edge.from_side assignee && matches edge.to_side requester)

-- `policy.get(key, default)`
abbrev pub setting : Option Bool → Bool → Bool
setting none default = default
setting (some b) default = b

-- `_ceo_department_codes`, as a test.
unfoldable pub ceo_code : List String → String → Bool
ceo_code [] code = code == dept_value ceo
ceo_code (c ∷ codes) code = any_of (λ x. upper (strip x) == code) (c ∷ codes)

abbrev manages : AssignmentProfile → Option String → Bool
manages requester none = false
manages requester (some manager) = truthy manager && manager == requester.entra_object_id

-- `_ceo_may_assign_direct_report`
unfoldable pub ceo_may_assign_direct_report : Policy → AssignmentProfile → AssignmentProfile → Bool
ceo_may_assign_direct_report policy requester assignee =
    if not (setting policy.allow_ceo_to_direct_reports true)
    then false
    else if not (ceo_code policy.ceo_department_codes (dept_value requester.department_code))
    then false
    else manages requester assignee.manager_entra_id

abbrev denied : AssignmentProfile → AssignmentProfile → PolicyResult
denied requester assignee = record {
  allowed = false;
  message =
      "Assignment from "
      <> dept_display requester.department_code
      <> " to "
      <> dept_display assignee.department_code
      <> " is not allowed under current policy.";
}

abbrev granted : PolicyResult
granted = record { allowed = true; message = "" }

unfoldable pub can_assign : Policy → AssignmentProfile → AssignmentProfile → PolicyResult
can_assign policy requester assignee =
    let same = dept_eq requester.department_code assignee.department_code in
    if any_of (edge_applies requester assignee) policy.deny_edges
    then denied requester assignee
    else if ceo_may_assign_direct_report policy requester assignee
    then granted
    else if same && setting policy.allow_same_department true
    then granted
    else if any_of (edge_applies requester assignee) policy.edges
    then granted
    else if not same && setting policy.allow_cross_department false
    then granted
    else denied requester assignee

-- `except ProfileNotFound as exc: raise ProfileNotFound(message)`
abbrev reworded : String → Outcome AssignmentProfile → Outcome AssignmentProfile
reworded message (ok profile) = ok profile
reworded message (raised (profile_not_found old)) = raised (profile_not_found message)
reworded message (raised e) = raised e

abbrev pub unlisted_assignee : String
unlisted_assignee =
    "The assignee is not listed in the LTM assignment directory. Ask an administrator to add the assignee before creating this task."

abbrev pub unlisted_requester : String
unlisted_requester =
    "Your account is not listed in the LTM assignment directory. Ask an administrator to add your account before creating tasks."

abbrev pub mismatch : AssignmentProfile → DeptCode → String
mismatch profile code =
    "Assignee department does not match the LTM assignment directory. Directory has "
    <> dept_value profile.department_code
    <> "; request had "
    <> dept_value code
    <> "."

abbrev same_department : DeptCode → Outcome AssignmentProfile → Outcome AssignmentProfile
same_department code (raised e) = raised e
same_department code (ok profile) =
    if dept_eq profile.department_code code
    then ok profile
    else raised (policy_denied (mismatch profile code))

unfoldable pub assert_assignee_department_matches :
    Employees → String → DeptCode → Outcome AssignmentProfile
assert_assignee_department_matches employees assignee code =
    same_department code (reworded unlisted_assignee (get_profile employees assignee))

abbrev judged : Policy → AssignmentProfile → Outcome AssignmentProfile → Outcome (Unit {0})
judged policy requester (raised e) = raised e
judged policy requester (ok assignee) =
    let result = can_assign policy requester assignee in
    if result.allowed then ok tt else raised (policy_denied result.message)

abbrev between : Policy → Outcome AssignmentProfile → Outcome AssignmentProfile → Outcome (Unit {0})
between policy (raised e) assignee = raised e
between policy (ok requester) assignee = judged policy requester assignee

unfoldable pub assert_can_assign : Policy → Employees → String → String → Outcome (Unit {0})
assert_can_assign policy employees requester assignee =
    between policy (reworded unlisted_requester (get_profile employees requester))
      (reworded unlisted_assignee (get_profile employees assignee))
