-- ===== src/Access/Rules.antt =====
-- The access rules of policy/access.py and notifications/recipients.py.
use lantern_task_manager.Base.{◌≡◌, String, ◌&&◌, ◌||◌, ◌==◌, truthy, strip, arith, none}
use lantern_task_manager.Domain.Models.{TaskRecord}
use lantern_task_manager.Config.{World}
use lantern_task_manager.Access.{is_executive, is_verifier, can_view_task, verifier_ref}

-- A task is shown exactly to its creator, its assignee, executives and its verifier, by the id
-- without the spaces around it; a blank id is shown nothing.
can_view_task_exact :
    (world : World) (user : String) (task : TaskRecord)
    → can_view_task world user task ≡ (
        truthy (strip user)
        && (task.created_by.entra_object_id == strip user
            || task.assigned_to.entra_object_id == strip user
            || is_executive world.employees (strip user)
            || is_verifier world (strip user) task))
unfolding can_view_task
can_view_task_exact world user task = ground arith

-- When neither the manager map nor Graph names a manager, the verifier is the creator, in every mode.
pub verifier_ref_fallback :
    (world : World) (task : TaskRecord)
    → world.manager_for_assignee task.assigned_to.entra_object_id ≡ none
    → world.graph_manager (strip task.assigned_to.entra_object_id) ≡ none
    → verifier_ref world task ≡ task.created_by
unfolding verifier_ref
verifier_ref_fallback world task absent unknown = ground arith
