-- ===== src/Tests/UseCases.antt =====
-- Drafts and the use cases of tasks at concrete inputs.
use lantern_task_manager.Domain.Enums.{fin}
use lantern_task_manager.Base.{arith}
use lantern_task_manager.Storage.Repository.Row.{with_audit}
use lantern_task_manager.Base.{clip}
use lantern_task_manager.Base.{lower}
use lantern_task_manager.Auth.{uses_managed_identity}
use lantern_task_manager.Auth.{bot_connector_configured}
use lantern_task_manager.Notifications.Channels.{send_bot_dm}
use lantern_task_manager.Notifications.Service.{sends_bot}
use lantern_task_manager.Notifications.Service.{deliver_hybrid}
use lantern_task_manager.Notifications.Service.Messages.{notify_verify_requested}
use lantern_task_manager.Application.Tasks.{notify}
use lantern_task_manager.Storage.Repository.Lifecycle.{mark_pending_closure_from_assignee}
use lantern_task_manager.Notifications.Service.Messages.{notify_task_reopened}
use lantern_task_manager.Storage.Repository.Lifecycle.{manager_reject}
use lantern_task_manager.Notifications.Service.Messages.{notify_task_verified}
use lantern_task_manager.Storage.Repository.Lifecycle.{manager_confirm}
use lantern_task_manager.Domain.Enums.{dept_value}
use lantern_task_manager.Base.{upper}
use lantern_task_manager.Base.{strip}
use lantern_task_manager.Policy.Profiles.{parse_profile}
use lantern_task_manager.Policy.Profiles.{get_profile}
use lantern_task_manager.Policy.Assignment.{assert_assignee_department_matches}
use lantern_task_manager.Policy.Assignment.{ceo_code}
use lantern_task_manager.Policy.Assignment.{ceo_may_assign_direct_report}
use lantern_task_manager.Policy.Assignment.{can_assign}
use lantern_task_manager.Policy.Assignment.{assert_can_assign}
use lantern_task_manager.Base.{
  ◌≡◌, refl, String, ◌<>◌, true, false, none, some, List, [], ◌∷◌, ◌++◌, ◌==◌, if◌then◌else◌, ok,
  raised, draft_access_error, All, length, find, write,
}
use lantern_task_manager.Domain.Enums.{
  TaskStatus, AuditEvent, pending_verification, verified, reopened, status_value, dept_of_value,
  dept_eq, hr,
}
use lantern_task_manager.Domain.Models.{
  TaskRecord, TaskCreateDraft, CloseTaskParams, ListTasksParams, my_tasks,
}
use lantern_task_manager.Access.{is_verifier}
use lantern_task_manager.Storage.Orm.{active, TaskDraftOrm, TaskOrm}
use lantern_task_manager.Storage.Repository.Row.{orm_to_record, find_task, task_key}
use lantern_task_manager.Storage.Repository.Lifecycle.Trail.{with_notes}
use lantern_task_manager.Bot.Drafts.{
  find_draft, not_requester, take_draft, peek_draft, revise_draft, discard_draft, stash_draft,
  completed_draft_task_id,
}
use lantern_task_manager.Bot.Drafts.Once.{take_draft_once, draft_denied}
use lantern_task_manager.Application.Results.{UseCaseResult, success, failure}
use lantern_task_manager.Application.Tasks.{
  acknowledge, resume, close, verify, reopen, auto_verify, list_tasks, verify_block, reopen_block,
  close_block,
}
use lantern_task_manager.Domain.StateMachine.{can_transition}
use Prim.Native.Nat.{min}
use lantern_task_manager.Base.{IsOrdered, keep}
use lantern_task_manager.Application.Drafts.Once.{Permitted}
use lantern_task_manager.Application.Tasks.Guards.{Shown, shows, due_date_of}
use lantern_task_manager.Application.Tasks.Guards.{
  only_assignee, not_verifier, assignee_guard, verifier_guard, list_tasks_visible,
}
use lantern_task_manager.Application.Tasks.Blocks.{Holds}
use lantern_task_manager.Application.Tasks.Effects.{
  verify_lem, reopen_lem, close_lem, close_refused_commits,
}
use lantern_task_manager.Application.Drafts.{confirm, created, allowed_by_policy}
use lantern_task_manager.Application.Drafts.Once.{confirm_once, confirm_denied, made_task}
use lantern_task_manager.Application.Drafts.Claim.{task_id}
use lantern_task_manager.Tests.Repository.{db-AllIssued}
use lantern_task_manager.Tests.Sample.{
  world, clock, later, db, with_draft, draft, new_draft, ann, bob, fresh_task, pending_task,
  verified_task, close_fresh,
}

found_draft : find_draft "d1" db ≡ some (draft active "")
unfolding find
found_draft = refl

allowed : allowed_by_policy world clock ann new_draft ≡ ok tt
unfolding allowed_by_policy assert_assignee_department_matches get_profile strip parse_profile
    dept_of_value upper dept_eq assert_can_assign can_assign ceo_may_assign_direct_report ceo_code
    dept_value
allowed = refl

confirm_once_example :
    (r : UseCaseResult TaskRecord) × (task : TaskOrm) × ((confirm world clock "d1" ann none db).0
      ≡ ok r)
    × (r.ok ≡ true)
    × (r.value ≡ some (made_task world clock "d1" ann db (draft active "")))
    × (find_task
          (task_id world clock "d1" ann db (draft active ""))
          (confirm world clock "d1" ann none db).1
        ≡ some task)
    × (confirm world later "d1" ann none (confirm world clock "d1" ann none db).1
        ≡ (ok (created (orm_to_record task)), (confirm world clock "d1" ann none db).1))
confirm_once_example =
    confirm_once world clock "d1" ann db later none none (draft active "") found_draft refl refl
      refl allowed db-AllIssued

-- A draft for an assignee of another department than the directory says.
abbrev misfiled : TaskDraftOrm
misfiled = record (draft active "") { payload = record new_draft { assignee_department_code = hr } }

found_misfiled : find_draft "d1" (with_draft misfiled) ≡ some misfiled
unfolding find
found_misfiled = refl

hr_dept-ne : dept_eq fin hr ≡ false
unfolding dept_eq dept_value
hr_dept-ne = refl

forbidden : ¬ Permitted world clock "d1" ann (with_draft misfiled) misfiled.payload
unfolding get_profile strip parse_profile dept_of_value upper
forbidden (p, q, hp, hq, fits, grants) = ground (arith, hq, fits, hr_dept-ne)

confirm_denied_example :
    (message : String) × (confirm world clock "d1" ann none (with_draft misfiled)
      ≡ (ok (failure "ASSIGNMENT_DENIED" message), with_draft misfiled))
confirm_denied_example =
    confirm_denied world clock "d1" ann (with_draft misfiled) none misfiled found_misfiled refl refl
      refl forbidden

took : (take_draft clock "d1" "ann" db).0 ≡ ok (some new_draft)
unfolding take_draft find
took = refl

take_draft_once_example :
    take_draft later "d1" "ann" (take_draft clock "d1" "ann" db).1
    ≡ (ok none, (take_draft clock "d1" "ann" db).1)
take_draft_once_example = take_draft_once clock later "d1" "ann" db took

draft_denied_example :
    (take_draft clock "d1" "bob" db ≡ (raised (draft_access_error not_requester), db))
    × (peek_draft clock "d1" "bob" db ≡ (raised (draft_access_error not_requester), db))
    × (revise_draft clock "d1" "bob" new_draft db ≡ (raised (draft_access_error not_requester), db))
    × (discard_draft clock "d1" "bob" db ≡ (raised (draft_access_error not_requester), db))
    × (completed_draft_task_id "d1" "bob" db ≡ (raised (draft_access_error not_requester), db))
draft_denied_example = draft_denied clock "d1" "bob" new_draft db (draft active "") found_draft refl

abbrev dearer : TaskCreateDraft
dearer = record new_draft { priority = "Urgent" }

revised : (revise_draft clock "d1" "ann" dearer db).0 ≡ ok (some 2)
unfolding revise_draft find
revised = refl

stashed : (stash_draft clock "d2" new_draft "ann" db).0 ≡ ok "d2"
unfolding stash_draft find
stashed = refl

found_task_1 : find_task "LTM-FIN-2026-0001" db ≡ some fresh_task
unfolding find
found_task_1 = refl

found_task_2 : find_task "LTM-FIN-2026-0002" db ≡ some pending_task
unfolding find
found_task_2 = refl

found_task_3 : find_task "LTM-FIN-2026-0003" db ≡ some verified_task
unfolding find
found_task_3 = refl

assignee_guard_example :
    (acknowledge world clock "LTM-FIN-2026-0001" ann db ≡ (ok (only_assignee "acknowledge"), db))
    × (resume world clock "LTM-FIN-2026-0001" ann db ≡ (ok (only_assignee "resume"), db))
    × (close world clock close_fresh ann none db ≡ (ok (only_assignee "close"), db))
assignee_guard_example =
    assignee_guard world clock ann db close_fresh none fresh_task found_task_1 refl

no_verifier : is_verifier world "bob" (orm_to_record pending_task) ≡ false
unfolding is_verifier orm_to_record
no_verifier = refl

verifier_guard_example :
    (verify world clock "LTM-FIN-2026-0002" bob db ≡ (ok not_verifier, db))
    × (reopen world clock "LTM-FIN-2026-0002" "Not paid" bob db ≡ (ok not_verifier, db))
verifier_guard_example =
    verifier_guard world clock bob db "LTM-FIN-2026-0002" "Not paid" pending_task found_task_2
      no_verifier

abbrev bobs : ListTasksParams
bobs = record { filter = my_tasks; department = none; status = none; limit = 2 }

list_tasks_visible_example :
    (r : UseCaseResult (List TaskRecord)) × (tasks : List TaskRecord) × (list_tasks world clock bobs
        bob db
      ≡ (ok r, db))
    × (r.value ≡ some tasks)
    × All (Shown world clock bob db bobs) tasks
    × IsOrdered due_date_of tasks
    × (length tasks ≡ min 2 (length (keep (shows world clock bob db bobs) db.tasks)))
list_tasks_visible_example = list_tasks_visible world clock bob db bobs

-- `ann` verifies the task that waits for her.
abbrev verified_row : TaskOrm
verified_row = record pending_task {
  status = verified;
  verified_at = some 1000;
  updated_at = 1000;
  audit_trail =
      pending_task.audit_trail
      ++ record { event = AuditEvent.verified; actor_entra_id = "ann"; at = 1000; details = "" }
        ∷ [];
}

abbrev verify_result : UseCaseResult TaskRecord
verify_result = success (orm_to_record verified_row) "TASK_VERIFIED" "LTM-FIN-2026-0002 verified."

verify_run : (verify world clock "LTM-FIN-2026-0002" ann db).0 ≡ ok verify_result
unfolding verify verify_block orm_to_record find is_verifier manager_confirm notify
    notify_task_verified deliver_hybrid sends_bot clip
verify_run = refl

verify_lem_example :
    (TaskStatus.pending_verification ≡ pending_verification)
    × (is_verifier world "ann" (orm_to_record pending_task) ≡ true)
    × Holds "LTM-FIN-2026-0002" verify_result verified
        (verify world clock "LTM-FIN-2026-0002" ann db).1
verify_lem_example =
    verify_lem world clock ann db "LTM-FIN-2026-0002" pending_task {r = verify_result} found_task_2
      verify_run refl

abbrev reopened_row : TaskOrm
reopened_row = record pending_task {
  status = reopened;
  rejection_reason = "Not paid";
  updated_at = 1000;
  audit_trail =
      pending_task.audit_trail
      ++ record {
        event = AuditEvent.reopened;
        actor_entra_id = "ann";
        at = 1000;
        details = "Not paid";
      }
        ∷ [];
}

abbrev reopen_result : UseCaseResult TaskRecord
reopen_result = success (orm_to_record reopened_row) "TASK_REOPENED" "LTM-FIN-2026-0002 reopened."

reopen_run : (reopen world clock "LTM-FIN-2026-0002" "Not paid" ann db).0 ≡ ok reopen_result
unfolding reopen reopen_block orm_to_record find is_verifier manager_reject notify
    notify_task_reopened deliver_hybrid sends_bot send_bot_dm bot_connector_configured
    uses_managed_identity lower strip clip
reopen_run = refl

reopen_lem_example :
    (TaskStatus.pending_verification ≡ pending_verification)
    × (is_verifier world "ann" (orm_to_record pending_task) ≡ true)
    × Holds "LTM-FIN-2026-0002" reopen_result reopened
        (reopen world clock "LTM-FIN-2026-0002" "Not paid" ann db).1
reopen_lem_example =
    reopen_lem world clock ann db "LTM-FIN-2026-0002" "Not paid" pending_task {r = reopen_result}
      found_task_2 reopen_run refl

-- `bob` closes the task that he never acknowledged.
abbrev closed_row : TaskOrm
closed_row = record fresh_task {
  status = pending_verification;
  closure_notes = "Paid";
  closed_at = some 1000;
  updated_at = 1000;
  audit_trail =
      (fresh_task.audit_trail
        ++ record {
          event = AuditEvent.acknowledged;
          actor_entra_id = "bob";
          at = 1000;
          details = "Implicit acknowledgement on close";
        }
          ∷ [])
      ++ record {
        event = AuditEvent.closure_requested;
        actor_entra_id = "bob";
        at = 1000;
        details = "Paid";
      }
        ∷ [];
}

abbrev close_result : UseCaseResult TaskRecord
close_result =
    success (orm_to_record closed_row) "TASK_CLOSED" "Submitted LTM-FIN-2026-0001 for verification."

close_run : (close world clock close_fresh bob none db).0 ≡ ok close_result
unfolding close close_block orm_to_record find auto_verify mark_pending_closure_from_assignee
    can_transition notify notify_verify_requested deliver_hybrid sends_bot send_bot_dm
    bot_connector_configured uses_managed_identity lower strip with_audit clip
close_run = refl

close_lem_example :
    ((fresh_task.assigned_to_entra_id == "bob") ≡ true)
    × Holds "LTM-FIN-2026-0001" close_result
        (if auto_verify world clock (orm_to_record fresh_task) bob
          then verified
          else pending_verification)
        (close world clock close_fresh bob none db).1
close_lem_example =
    close_lem world clock bob db close_fresh none fresh_task {r = close_result} found_task_1
      close_run refl

-- `bob` closes a task that is verified already.
abbrev close_verified : CloseTaskParams
close_verified = record { task_id = "LTM-FIN-2026-0003"; completion_notes = "Paid again" }

no_self_close : auto_verify world clock (orm_to_record verified_task) bob ≡ false
unfolding auto_verify orm_to_record
no_self_close = refl

no_way_back : can_transition TaskStatus.verified pending_verification false ≡ false
unfolding can_transition
no_way_back = refl

close_refused_commits_example : close world clock close_verified bob none db ≡ (
  ok (
      failure "INVALID_STATUS" (
        "Cannot move task from "
        <> status_value TaskStatus.verified
        <> " to PENDING_VERIFICATION")),
  record db { tasks = write task_key (with_notes clock close_verified verified_task) db.tasks },
)
close_refused_commits_example =
    close_refused_commits world clock bob db close_verified none verified_task found_task_3 refl
      no_self_close refl no_way_back
