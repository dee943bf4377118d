-- ===== src/Bot/Tools/Create.antt =====
-- The tool of bot/tools.py that prepares a draft. A pushed card is the id of its draft, and the
-- parameters as JSON are an argument.
pub mod Superseded
use lantern_task_manager.Base.{
  ℕ, String, ◌<>◌, Bool, true, false, not, ◌&&◌, ◌||◌, Option, none, some, List, [], ◌∷◌, ◌++◌,
  join, truthy, text_or, Outcome, ok, raised, policy_denied, profile_not_found, value_error,
  draft_access_error, runtime_error, integrity_error, Session, session_scope, if◌then◌else◌, Raised,
}
use lantern_task_manager.Domain.Enums.{
  DeptCode, dept_display, Priority, critical, high, medium, low,
}
use lantern_task_manager.Domain.Models.{UserRef, D365References, TaskCreateDraft}
use lantern_task_manager.Config.{World}
use lantern_task_manager.Policy.Profiles.{AssignmentProfile, get_profile}
use lantern_task_manager.Policy.Assignment.{assert_assignee_department_matches, assert_can_assign}
use lantern_task_manager.Storage.Orm.{Db, Clock}
use lantern_task_manager.Bot.Drafts.{stash_draft, discard_draft}
use lantern_task_manager.Interaction.Store.{
  Slots, Rows, Pending, PendingInteraction, InteractionOperation, create_task, review_draft,
  close_task, reopen_task, get, set_pending,
}
use lantern_task_manager.Interaction.Normalization.{
  TextTools, refers_to_self, parse_due_date, derive_task_title, normalize_priority,
}
use lantern_task_manager.Bot.Tools.{Turn, TurnState, key_of, set_terminal_response}

pub record CreateTaskToolParams : Type 0 where
  pub task_type : Option String
  pub description : String
  pub assignee : Option String
  pub assignee_entra_id : Option String
  pub assignee_display_name : String
  pub priority : Option String
  pub due_date : Option String
  pub d365 : D365References

abbrev priority_value : Priority → String
priority_value critical = "Critical"
priority_value high = "High"
priority_value medium = "Medium"
priority_value low = "Low"

abbrev is_review : Option InteractionOperation → Bool
is_review (some review_draft) = true
is_review (some create_task) = false
is_review (some close_task) = false
is_review (some reopen_task) = false
is_review none = false

-- The draft under review that a new one replaces.
abbrev pub replaced : Option PendingInteraction → Option String
replaced none = none
replaced (some p) =
    if is_review p.operation && truthy p.reference_id then some p.reference_id else none

abbrev pub superseded_answer : String
superseded_answer = "A newer message superseded this request."

abbrev pub run_db : {A : Type 0} → Session Db A → TurnState → Outcome A × TurnState
run_db m s = let (r, db) = m s.db in (r, record s { db = db })

abbrev and_then :
    {A B : Type 0} → Outcome A × TurnState → (A → Session TurnState B) → Outcome B × TurnState
and_then (ok a, s) f = f a s
and_then (raised e, s) f = (raised e, s)

module _ (world : World) (clock : Clock) (tools : TextTools) (llm_terminal_responses_enabled : Bool)
    (turn : Turn) (params : CreateTaskToolParams) (dumped : Slots) (token : String) where
  abbrev enabled : Bool
  enabled = world.settings.interaction_coordinator_enabled

  abbrev answers : String → Session TurnState String
  answers message s =
      (ok message, set_terminal_response world clock llm_terminal_responses_enabled turn message s)

  -- `revision is not None and stored is None and enabled()`
  abbrev refused : Option ℕ → Option ℕ → Bool
  refused none stored = false
  refused (some revision) none = enabled
  refused (some revision) (some stored) = false

  abbrev ask_missing : List String → Session TurnState String
  ask_missing missing s =
      let pending : Pending = record {
        operation = create_task;
        slots = dumped;
        missing_fields = missing;
        reference_id = "";
      } in
      let (stored, rows) =
        set_pending enabled clock.now (key_of turn) pending turn.interaction_revision s.rows in
      let asked = record s { rows = rows } in
      if refused turn.interaction_revision stored
      then (ok superseded_answer, asked)
      else answers ("I just need " <> join " and " missing <> ". Please provide them in one reply.")
          asked

  abbrev draft_of : AssignmentProfile → String → ℕ → TaskCreateDraft
  draft_of profile assignee_id due = record {
    task_type = derive_task_title tools params.description params.task_type;
    description = params.description;
    assignee_entra_id = assignee_id;
    assignee_display_name = text_or profile.display_name params.assignee_display_name;
    assignee_department = dept_display profile.department_code;
    assignee_department_code = profile.department_code;
    priority = priority_value (normalize_priority tools params.priority);
    due_date = due;
    d365 = params.d365;
  }

  abbrev prepared : TaskCreateDraft → String
  prepared draft =
      "Draft "
      <> token
      <> " prepared. A confirmation card will be shown in Teams. Assignee "
      <> text_or draft.assignee_display_name draft.assignee_entra_id
      <> ", due "
      <> world.iso_date draft.due_date
      <> "."

  abbrev discard : String → Session TurnState Bool
  discard draft_id =
      run_db (session_scope (discard_draft clock draft_id turn.actor.entra_object_id))

  abbrev discard_previous : Option String → Session TurnState Bool
  discard_previous none s = (ok false, s)
  discard_previous (some draft_id) s = discard draft_id s

  abbrev under_review : TaskCreateDraft → Option String → Bool → Session TurnState String
  under_review draft previous true s = and_then (discard token s) (λ _ s. (ok superseded_answer, s))
  under_review draft previous false s =
      and_then (discard_previous previous s) (λ _ s.
        answers (prepared draft) (record s { pending_cards = s.pending_cards ++ token ∷ [] }))

  -- The stored draft becomes the pending interaction, unless a newer event has begun.
  abbrev pub review : TaskCreateDraft → Option String → Session TurnState String
  review draft previous s =
      let pending : Pending = record {
        operation = review_draft;
        slots = [];
        missing_fields = [];
        reference_id = token;
      } in
      let (stored, rows) =
        set_pending enabled clock.now (key_of turn) pending turn.interaction_revision s.rows in
      under_review draft previous (refused turn.interaction_revision stored)
        (record s { rows = rows })

  unfoldable pub submit : TaskCreateDraft → Session TurnState String
  unfolding set_terminal_response session_scope
  submit draft s =
      let (previous, rows) = get enabled clock.now (key_of turn) s.rows in
      let looked = record s { rows = rows } in
      and_then
        (run_db (session_scope (stash_draft clock token draft turn.actor.entra_object_id)) looked)
        (λ _ s. review draft (replaced previous) s)

  -- `except AssignmentPolicyError`
  abbrev denied : Raised → Session TurnState String
  denied (policy_denied message) s = answers message s
  denied (profile_not_found message) s = answers message s
  denied (value_error message) s = (raised (value_error message), s)
  denied (draft_access_error message) s = (raised (draft_access_error message), s)
  denied (runtime_error message) s = (raised (runtime_error message), s)
  denied integrity_error s = (raised integrity_error, s)

  abbrev if_assignable :
      AssignmentProfile
      → String
      → ℕ
      → Outcome AssignmentProfile
      → Outcome (Unit {0})
      → Session TurnState String
  if_assignable profile assignee_id due (raised e) may = denied e
  if_assignable profile assignee_id due (ok matched) (raised e) = denied e
  if_assignable profile assignee_id due (ok matched) (ok tt) =
      submit (draft_of profile assignee_id due)

  abbrev for_profile : String → ℕ → Outcome AssignmentProfile → Session TurnState String
  for_profile assignee_id due (raised e) = denied e
  for_profile assignee_id due (ok profile) =
      if_assignable profile assignee_id due
        (assert_assignee_department_matches world.employees assignee_id profile.department_code)
        (assert_can_assign world.policy world.employees turn.actor.entra_object_id assignee_id)

  abbrev complete : String → Option ℕ → Session TurnState String
  complete assignee_id none =
      if truthy assignee_id
      then ask_missing ("due date" ∷ [])
      else ask_missing ("assignee" ∷ "due date" ∷ [])
  complete assignee_id (some due) =
      if truthy assignee_id
      then for_profile assignee_id due (get_profile world.employees assignee_id)
      else ask_missing ("assignee" ∷ [])

  abbrev named : Option String → String
  named none = ""
  named (some id) = id

  unfoldable pub create_task_handler : Session TurnState String
  unfolding submit
  create_task_handler =
      complete
        (if refers_to_self tools params.assignee || refers_to_self tools params.assignee_entra_id
          then turn.actor.entra_object_id
          else named params.assignee_entra_id)
        (parse_due_date tools params.due_date clock.now)
