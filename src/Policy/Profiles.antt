-- ===== src/Policy/Profiles.antt =====
-- policy/profiles.py. The assignment directory is a list of entries by user id; a missing key of an
-- entry is `none`.
use lantern_task_manager.Base.{
  String, ◌<>◌, Bool, true, Option, none, some, List, [], ◌∷◌, ◌==◌, ◌≡◌, if◌then◌else◌, truthy,
  strip, upper, Outcome, ok, raised, profile_not_found, arith,
}
use lantern_task_manager.Domain.Enums.{DeptCode, dept_of_value}

pub record AssignmentProfile : Type 0 where
  pub entra_object_id : String
  pub department_code : DeptCode
  pub display_name : String
  pub employee_code : String
  pub manager_entra_id : Option String
  pub active : Bool

-- One value under `employees` of assignment_directory.json.
pub record RawEmployee : Type 0 where
  pub department_code : Option String
  pub manager_entra_id : Option String
  pub display_name : Option String
  pub employee_code : Option String
  pub active : Option Bool

abbrev pub Employees : Type 0
Employees = List (String × RawEmployee)

-- `str(raw.get(k) or "")`
abbrev text_of : Option String → String
text_of none = ""
text_of (some s) = s

-- `str(manager) if manager else None`
abbrev manager_of : Option String → Option String
manager_of none = none
manager_of (some m) = if truthy m then some m else none

-- `bool(raw.get("active", True))`
abbrev active_of : Option Bool → Bool
active_of none = true
active_of (some b) = b

-- `_parse_profile`
unfoldable pub parse_profile : String → RawEmployee → Outcome AssignmentProfile
parse_profile entra_id raw =
    let dept_raw = upper (strip (text_of raw.department_code)) in
    elim (dept_of_value dept_raw) [
      | none ↦ raised (
          profile_not_found (
            "Directory entry for this user has invalid department_code '" <> dept_raw
            <> "'. Contact your administrator."))
      | some dept ↦ ok (record {
        entra_object_id = entra_id;
        department_code = dept;
        display_name = text_of raw.display_name;
        employee_code = text_of raw.employee_code;
        manager_entra_id = manager_of raw.manager_entra_id;
        active = active_of raw.active;
      })
    ]

-- `_employees_index().get(oid)`
unfoldable pub employee : String → Employees → Option RawEmployee
employee oid [] = none
employee oid ((id, raw) ∷ rest) = if id == oid then some raw else employee oid rest

abbrev must_be_active : Outcome AssignmentProfile → Outcome AssignmentProfile
must_be_active (raised e) = raised e
must_be_active (ok profile) =
    if profile.active
    then ok profile
    else raised (
        profile_not_found
          "Your LTM assignment directory entry is inactive. Contact your administrator.")

unfoldable pub get_profile : Employees → String → Outcome AssignmentProfile
unfolding employee
get_profile employees entra_object_id =
    let oid = strip entra_object_id in
    if truthy oid
    then elim (employee oid employees) [
      | none ↦ raised (
          profile_not_found
            "You are not listed in the LTM assignment directory. Contact your administrator.")
      | some raw ↦ must_be_active (parse_profile oid raw)
    ]
    else raised (profile_not_found "Missing user identity for assignment authorization.")

-- A profile is found only for an active entry, and carries the id that was asked for, without the
-- spaces around it.
pub get_profile_sound :
    (employees : Employees) (id : String) {profile : AssignmentProfile}
    → get_profile employees id ≡ ok profile
    → (profile.active ≡ true) × (profile.entra_object_id ≡ strip id) × (truthy (strip id) ≡ true)
unfolding get_profile parse_profile
get_profile_sound employees id h = ground arith
