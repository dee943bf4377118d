-- ===== src/Access.antt =====
-- notifications/recipients.py and policy/access.py: who verifies a task, and who may see it.
pub mod Rules
use lantern_task_manager.Base.{
  String, Bool, true, false, ◌&&◌, ◌||◌, Option, none, some, ◌==◌, if◌then◌else◌, truthy, strip,
  Outcome, ok, raised,
}
use lantern_task_manager.Domain.Enums.{dept_eq, ceo}
use lantern_task_manager.Domain.Models.{UserRef, TaskRecord}
use lantern_task_manager.Policy.Profiles.{AssignmentProfile, Employees, get_profile}
use lantern_task_manager.Config.{VerifierMode, created_by, manager_map, graph_manager, World}

unfoldable pub assignee_ref : TaskRecord → UserRef
assignee_ref task = task.assigned_to

unfoldable pub creator_ref : TaskRecord → UserRef
creator_ref task = task.created_by

-- A manager with an empty id counts as none.
abbrev mapped : Option String → UserRef → UserRef
mapped none fallback = fallback
mapped (some id) fallback =
    if truthy id
    then record { entra_object_id = id; display_name = "Manager"; department = "" }
    else fallback

abbrev found : Option UserRef → UserRef → UserRef
found none fallback = fallback
found (some manager) fallback = manager

-- The manager map is loaded without an exception; a failure of Graph counts as no manager.
abbrev verifier_for : VerifierMode → World → TaskRecord → UserRef
verifier_for created_by world task = task.created_by
verifier_for manager_map world task =
    mapped (world.manager_for_assignee task.assigned_to.entra_object_id) task.created_by
verifier_for graph_manager world task =
    found (world.graph_manager (strip task.assigned_to.entra_object_id)) task.created_by

unfoldable pub verifier_ref : World → TaskRecord → UserRef
verifier_ref world task = verifier_for world.settings.verifier_mode world task

unfoldable pub is_verifier : World → String → TaskRecord → Bool
unfolding verifier_ref
is_verifier world user_entra_id task = (verifier_ref world task).entra_object_id == user_entra_id

abbrev is_ceo : Outcome AssignmentProfile → Bool
is_ceo (raised e) = false
is_ceo (ok profile) = dept_eq profile.department_code ceo

unfoldable pub is_executive : Employees → String → Bool
is_executive employees user_entra_id = is_ceo (get_profile employees user_entra_id)

unfoldable pub can_view_task : World → String → TaskRecord → Bool
can_view_task world user_entra_id task =
    let oid = strip user_entra_id in
    if truthy oid
    then if task.created_by.entra_object_id == oid || task.assigned_to.entra_object_id == oid
      then true
      else is_executive world.employees oid || is_verifier world oid task
    else false
