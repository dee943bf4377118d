-- ===== src/Application/Drafts/Once.antt =====
-- `DraftUseCases.confirm`, called once and again.
use lantern_task_manager.Base.{
  ◌≡◌, refl, ap, String, true, false, Option, some, ◌==◌, arith, Outcome, ok, raised, Raised,
  truthy, Outcome-cases, inl, inr, ◌⊎◌,
}
use lantern_task_manager.Domain.Enums.{dept_eq}
use lantern_task_manager.Domain.Models.{UserRef, TaskRecord, TaskCreateDraft}
use lantern_task_manager.Policy.Profiles.{AssignmentProfile, get_profile}
use lantern_task_manager.Policy.Assignment.{
  can_assign, assert_can_assign, assert_assignee_department_matches,
}
use lantern_task_manager.Policy.Assignment.Rules.{
  Refusal, department_raises, assignment_raises, assert_can_assign_iff,
  assert_assignee_department_matches_iff,
}
use lantern_task_manager.Config.{World}
use lantern_task_manager.Storage.Orm.{active, consumed, TaskDraftOrm, TaskOrm, Db, Clock}
use lantern_task_manager.Storage.Repository.Row.{orm_to_record, find_task}
use lantern_task_manager.Storage.Repository.PublicId.Unique.{public_id-truthy}
use lantern_task_manager.Storage.Repository.Create.{new_row}
use lantern_task_manager.Storage.Repository.Create.Fresh.{AllIssued}
use lantern_task_manager.Notifications.Events.{NotificationResult}
use lantern_task_manager.Notifications.Service.Messages.{notify_task_assigned}
use lantern_task_manager.Notifications.Service.Frame.{assigned_drafts, assigned_find}
use lantern_task_manager.Bot.Drafts.{
  find_draft, is_active, expired, peek_draft, completed_draft_task_id,
}
use lantern_task_manager.Application.Results.{UseCaseResult, failure, with_warning, reached}
use lantern_task_manager.Application.Drafts.{
  confirm, claim_block, created, allowed_by_policy, origin_or, unnotified,
}
use lantern_task_manager.Application.Drafts.Claim.{claim_block_lem, final_row, task_id}

module _ (world : World) (clock : Clock) (draft_id : String) (actor : UserRef) (db : Db) where
  -- The directory and the policy permit the assignment of a draft: its requester and its assignee have
  -- active profiles, the assignee's in the department that the draft names, and the policy allows the
  -- one to assign to the other.
  abbrev pub Permitted : TaskCreateDraft → Type 0
  Permitted draft =
      (p : AssignmentProfile) × (q : AssignmentProfile) × (get_profile world.employees
          actor.entra_object_id
        ≡ ok p)
      × (get_profile world.employees draft.assignee_entra_id ≡ ok q)
      × (dept_eq q.department_code draft.assignee_department_code ≡ true)
      × ((can_assign world.policy p q).allowed ≡ true)

  Permitted-cases :
      (draft : TaskCreateDraft)
      → Permitted draft
        ⊎ ((e : Raised) × (message : String) × (allowed_by_policy world clock actor draft
              ≡ raised e)
            × Refusal e message)
  unfolding allowed_by_policy
  Permitted-cases draft =
      let assigns =
        assert_can_assign world.policy world.employees actor.entra_object_id
          draft.assignee_entra_id in
      let matches =
        assert_assignee_department_matches world.employees draft.assignee_entra_id
          draft.assignee_department_code in
      elim (Outcome-cases matches) [
        | inr (e, h) ↦
            let (m, why) =
              department_raises world.employees draft.assignee_entra_id
                draft.assignee_department_code h in
            inr (e, m, rw h refl, why)
        | inl (q, h) ↦ elim (Outcome-cases assigns) [
          | inr (e, k) ↦
              let (m, why) =
                assignment_raises world.policy world.employees actor.entra_object_id
                  draft.assignee_entra_id k in
              inr (e, m, rw h k, why)
          | inl (tt, k) ↦
              let (there, fits) =
                (assert_assignee_department_matches_iff world.employees draft.assignee_entra_id
                    draft.assignee_department_code q).0
                  h in
              let (p, q', hp, hq, allowed) =
                (assert_can_assign_iff world.policy world.employees actor.entra_object_id
                    draft.assignee_entra_id).0
                  k in
              let same : q' ≡ q = ground (arith, there, hq) in
              inl (p, q', hp, hq, rw same fits, allowed)
        ]
      ]

  -- Where the directory and the policy do not permit the assignment of an active, unexpired draft, its
  -- requester's confirmation answers ASSIGNMENT_DENIED, and nothing changes: the draft stays, and no
  -- task is made.
  pub confirm_denied :
      (origin : Option String) (row : TaskDraftOrm)
      → find_draft draft_id db ≡ some row
      → (row.requester_entra_id == actor.entra_object_id) ≡ true
      → is_active row.state ≡ true
      → expired clock row ≡ false
      → ¬ Permitted row.payload
      → ((message : String) × (confirm world clock draft_id actor origin db
            ≡ (ok (failure "ASSIGNMENT_DENIED" message), db)))
  unfolding confirm peek_draft
  confirm_denied origin row found mine live fresh forbidden = elim (Permitted-cases row.payload) [
    | inl permitted ↦ absurd (forbidden permitted)
    | inr (e, message, denied, inl why) ↦
        (message, ground (arith, found, mine, live, fresh, denied, why))
    | inr (e, message, denied, inr why) ↦
        (message, ground (arith, found, mine, live, fresh, denied, why))
  ]

  -- A draft that has become a task is not made into another: its requester gets the task that it
  -- became, as it now is, and nothing changes.
  pub confirm_again :
      (origin : Option String) (row : TaskDraftOrm) (task : TaskOrm)
      → find_draft draft_id db ≡ some row
      → (row.requester_entra_id == actor.entra_object_id) ≡ true
      → row.state ≡ consumed
      → truthy row.payload_task_id ≡ true
      → find_task row.payload_task_id db ≡ some task
      → confirm world clock draft_id actor origin db ≡ (ok (created (orm_to_record task)), db)
  unfolding confirm peek_draft completed_draft_task_id
  confirm_again origin row task found mine done named there =
      ground (arith, found, mine, done, named, there)

  -- The task that the draft of a row becomes.
  abbrev pub made_task : TaskDraftOrm → TaskRecord
  made_task row =
      orm_to_record (new_row clock row.payload actor (task_id world clock draft_id actor db row))

  abbrev told : Option String → TaskDraftOrm → Outcome NotificationResult × Db
  told origin row =
      notify_task_assigned world clock (made_task row) (origin_or world clock origin actor)
        (claim_block world clock draft_id actor db).1

  confirm_effect :
      (origin : Option String) (row : TaskDraftOrm)
      → find_draft draft_id db ≡ some row
      → (row.requester_entra_id == actor.entra_object_id) ≡ true
      → row.state ≡ active
      → expired clock row ≡ false
      → allowed_by_policy world clock actor row.payload ≡ ok tt
      → (claim_block world clock draft_id actor db).0 ≡ ok (reached (made_task row))
      → (((n : NotificationResult) × ((told origin row).0 ≡ ok n)
            × (confirm world clock draft_id actor origin db
                ≡ (ok (created (made_task row)), (told origin row).1)))
          ⊎ (confirm world clock draft_id actor origin db ≡ (
            ok (with_warning unnotified (created (made_task row))),
            (claim_block world clock draft_id actor db).1,
          )))
  unfolding confirm peek_draft
  confirm_effect origin row found mine live fresh allowed claimed =
      elim (Outcome-cases (told origin row).0) [
        | inl (n, sent) ↦
            inl (n, sent, ground (arith, found, mine, live, fresh, allowed, claimed, sent))
        | inr (e, failed) ↦ inr (ground (arith, found, mine, live, fresh, allowed, claimed, failed))
      ]

  task_id_truthy : (row : TaskDraftOrm) → truthy (task_id world clock draft_id actor db row) ≡ true
  task_id_truthy row = public_id-truthy _ _ _

  -- What the first confirmation of a draft leaves for the next.
  abbrev Settled : TaskDraftOrm → UseCaseResult TaskRecord → Db → Type 0
  Settled row r d =
      (r.ok ≡ true)
      × (r.value ≡ some (made_task row))
      × (find_draft draft_id d ≡ some (final_row world clock draft_id actor db row))
      × ((task : TaskOrm) × (find_task (task_id world clock draft_id actor db row) d ≡ some task))

  confirm_first :
      (origin : Option String) (row : TaskDraftOrm)
      → find_draft draft_id db ≡ some row
      → (row.requester_entra_id == actor.entra_object_id) ≡ true
      → row.state ≡ active
      → expired clock row ≡ false
      → allowed_by_policy world clock actor row.payload ≡ ok tt
      → AllIssued db
      → ((r : UseCaseResult TaskRecord) × ((confirm world clock draft_id actor origin db).0 ≡ ok r)
          × Settled row r (confirm world clock draft_id actor origin db).1)
  confirm_first origin row found mine live fresh allowed issued =
      let c = claim_block_lem world clock draft_id actor db row found mine live fresh issued in
      let d = (claim_block world clock draft_id actor db).1 in
      elim (confirm_effect origin row found mine live fresh allowed c.0) [
        | inl (n, sent, e) ↦
            let o = origin_or world clock origin actor in
            let kept : find_draft draft_id (told origin row).1
                ≡ some (final_row world clock draft_id actor db row) =
              rw (assigned_drafts world clock d (made_task row) o) c.2 in
            let there =
              assigned_find world clock d (made_task row) o
                (task_id world clock draft_id actor db row) c.1 in
            (
              created (made_task row),
              ap (λ (x : Outcome (UseCaseResult TaskRecord) × Db). x.0) e,
              rw e (refl, refl, kept, there),
            )
        | inr e ↦ (
          with_warning unnotified (created (made_task row)),
          ap (λ (x : Outcome (UseCaseResult TaskRecord) × Db). x.0) e,
          rw e (refl, refl, c.2, (_, c.1)),
        )
      ]

module _ (world : World) (clock : Clock) (draft_id : String) (actor : UserRef) (db : Db) where
  -- If every task's id was given out by its counter, the requester's confirmation of an active,
  -- unexpired draft that the policy allows succeeds with a new task. A second confirmation, under
  -- any clock, changes nothing and answers with the task that the table then has under the new
  -- task's id.
  pub confirm_once :
      (later : Clock) (origin again : Option String) (row : TaskDraftOrm)
      → find_draft draft_id db ≡ some row
      → (row.requester_entra_id == actor.entra_object_id) ≡ true
      → row.state ≡ active
      → expired clock row ≡ false
      → allowed_by_policy world clock actor row.payload ≡ ok tt
      → AllIssued db
      → ((r : UseCaseResult TaskRecord) × (task : TaskOrm) × ((confirm world clock draft_id actor
              origin db).0
            ≡ ok r)
          × (r.ok ≡ true)
          × (r.value ≡ some (made_task world clock draft_id actor db row))
          × (find_task
                (task_id world clock draft_id actor db row)
                (confirm world clock draft_id actor origin db).1
              ≡ some task)
          × (confirm world later draft_id actor again
                (confirm world clock draft_id actor origin db).1
              ≡ (
                ok (created (orm_to_record task)),
                (confirm world clock draft_id actor origin db).1,
              )))
  confirm_once later origin again row found mine live fresh allowed issued =
      let (r, did, settled) =
        confirm_first world clock draft_id actor db origin row found mine live fresh allowed
          issued in
      let (task, there) = settled.3 in
      (
        r,
        task,
        did,
        settled.0,
        settled.1,
        there,
        confirm_again world later draft_id actor (confirm world clock draft_id actor origin db).1
            again (final_row world clock draft_id actor db row) task settled.2 mine refl
            (task_id_truthy world clock draft_id actor db row) there,
      )
