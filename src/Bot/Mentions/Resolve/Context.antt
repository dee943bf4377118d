-- ===== src/Bot/Mentions/Resolve/Context.antt =====
-- The text that bot/mentions.py adds for a model: the resolved users and the ambiguous ones.
use lantern_task_manager.Base.{
  ℕ, ◌+◌, String, ◌<>◌, List, [], ◌∷◌, ◌++◌, text_or, truthy, rest_of, join, if◌then◌else◌,
}
use lantern_task_manager.Storage.Repository.PublicId.{decimal}
use lantern_task_manager.Bot.Mentions.{
  MentionResolution, AmbiguousMentionResolution, MentionResolutionResult, department_code, id_of,
}

abbrev when_given : String → String → List String
when_given label value = if truthy value then (label <> value) ∷ [] else []

abbrev mention_lines : List MentionResolution → List String
mention_lines [] = []
mention_lines (m ∷ ms) =
    ("- token: " <> m.token)
      ∷ ("  assignee_entra_id: " <> id_of m)
      ∷ ("  assignee_display_name: " <> text_or m.user.display_name (rest_of m.token))
      ∷ ("  assignee_department: " <> m.user.department)
      ∷ ("  assignee_department_code: " <> department_code m.user.department)
      ∷ when_given "  mail: " m.mail
    ++ when_given "  user_principal_name: " m.upn
    ++ when_given "  job_title: " m.job_title
    ++ mention_lines ms

unfoldable pub mention_context : List MentionResolution → String
mention_context ms = join "\n" (
    "Directory-resolved mentioned users:"
    ∷ "Use these exact values for task assignee fields. Do not ask the user to share the user ID."
    ∷ mention_lines ms)

abbrev candidate_lines : ℕ → List MentionResolution → List String
candidate_lines index [] = []
candidate_lines index (c ∷ cs) =
    ("    " <> decimal index <> ". display_name: " <> text_or c.user.display_name (rest_of c.token))
      ∷ ("       assignee_entra_id: " <> id_of c)
      ∷ ("       assignee_department: " <> c.user.department)
      ∷ ("       assignee_department_code: " <> department_code c.user.department)
      ∷ when_given "       mail: " c.mail
    ++ when_given "       user_principal_name: " c.upn
    ++ when_given "       job_title: " c.job_title
    ++ candidate_lines (index + 1) cs

abbrev ambiguity_lines : List AmbiguousMentionResolution → List String
ambiguity_lines [] = []
ambiguity_lines (a ∷ rest) =
    ("- token: " <> a.token)
      ∷ ("  query: " <> a.query)
      ∷ "  candidates:"
      ∷ candidate_lines 1 a.candidates
    ++ ambiguity_lines rest

unfoldable pub ambiguity_context : List AmbiguousMentionResolution → String
ambiguity_context ambiguities = join "\n" (
    "Ambiguous directory user matches:"
    ∷ "Do not call create_task for these mentions yet. Ask the requester to choose one listed user; do not ask for a raw user ID."
    ∷ ambiguity_lines ambiguities)

abbrev resolved_block : List MentionResolution → List String
resolved_block [] = []
resolved_block (m ∷ ms) = mention_context (m ∷ ms) ∷ []

abbrev ambiguous_block : List AmbiguousMentionResolution → List String
ambiguous_block [] = []
ambiguous_block (a ∷ rest) = ambiguity_context (a ∷ rest) ∷ []

abbrev with_blocks : String → List String → String
with_blocks message [] = message
with_blocks message (block ∷ blocks) = message <> "\n\n" <> join "\n\n" (block ∷ blocks)

-- `resolve_mentions_in_text`, from what `resolve_mentions_structured` answers.
unfoldable pub mentions_in_text : MentionResolutionResult → String
unfolding mention_context ambiguity_context
mentions_in_text result =
    with_blocks result.message (resolved_block result.resolved ++ ambiguous_block result.ambiguous)
