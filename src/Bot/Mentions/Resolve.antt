-- ===== src/Bot/Mentions/Resolve.antt =====
-- bot/mentions.py: the mentions of an activity, resolved one after the other.
pub mod Unique
pub mod Context
use lantern_task_manager.Base.{
  String, ◌<>◌, Bool, true, false, Option, none, some, List, [], ◌∷◌, ◌++◌, ◌==◌, strip, truthy,
  text_or, rest_of, if◌then◌else◌,
}
use lantern_task_manager.Policy.Profiles.{Employees}
use lantern_task_manager.Bot.Mentions.{
  MentionResolution, AmbiguousMentionResolution, MentionResolutionResult, Entry, Patterns, Entity,
  member, id_of, unseen, normalize_plaintext_mention, unique_candidate_mentions, mention_of,
  replace_mentions,
}
use lantern_task_manager.Bot.Mentions.Scoring.{RankPickResult, Requester, rank_and_pick}

-- The choices that were made before, by their tokens.
abbrev pub Overrides : Type 0
Overrides = List (String × MentionResolution)

abbrev pub override_of : String → Overrides → Option MentionResolution
override_of token [] = none
override_of token ((t, m) ∷ rest) = if t == token then some m else override_of token rest

abbrev pub override_values : Overrides → List MentionResolution
override_values [] = []
override_values ((t, m) ∷ rest) = m ∷ override_values rest

-- What one mention in the text comes to.
pub data Step : Type 0 where
  skip : Step
  take_mention : MentionResolution → Step
  ambiguous : AmbiguousMentionResolution → Step

pub record Found : Type 0 where
  pub found : List MentionResolution
  pub ambiguities : List AmbiguousMentionResolution

abbrev pub unless_seen : List String → MentionResolution → Step
unless_seen seen m = if member (id_of m) seen then skip else take_mention m

abbrev pub seen_after : Step → List String → List String
seen_after skip seen = seen
seen_after (take_mention m) seen = id_of m ∷ seen
seen_after (ambiguous a) seen = seen

abbrev pub add_step : Step → Found → Found
add_step skip f = f
add_step (take_mention m) f = record f { found = m ∷ f.found }
add_step (ambiguous a) f = record f { ambiguities = a ∷ f.ambiguities }

abbrev ranked_or : List MentionResolution → List MentionResolution → List MentionResolution
ranked_or [] candidates = candidates
ranked_or (m ∷ ms) candidates = m ∷ ms

abbrev entity_mentions : Patterns → List Entity → List MentionResolution
entity_mentions patterns [] = []
entity_mentions patterns (e ∷ es) =
    let rest = entity_mentions patterns es in
    elim (mention_of patterns e) [ none ↦ rest | some m ↦ m ∷ rest ]

unfoldable pub extract_entity_mentions : Patterns → List Entity → List MentionResolution
extract_entity_mentions patterns entities = unseen [] (entity_mentions patterns entities)

abbrev entry_with_id : String → List Entry → Option Entry
entry_with_id id [] = none
entry_with_id id (c ∷ cs) = if c.entra_object_id == id then some c else entry_with_id id cs

abbrev enriched : MentionResolution → Option Entry → MentionResolution
enriched m none = m
enriched m (some c) = record {
  token = m.token;
  user = record {
    entra_object_id = id_of m;
    display_name = text_or c.display_name m.user.display_name;
    department = text_or c.department m.user.department;
  };
  mail = c.mail;
  upn = c.upn;
  job_title = c.job_title;
}

unfoldable pub enrich : (String → List Entry) → MentionResolution → MentionResolution
enrich search m =
    let query = text_or m.user.display_name (rest_of m.token) in
    if truthy query then enriched m (entry_with_id (id_of m) (search query)) else m

unfoldable pub enrich_entity_mentions :
    (String → List Entry) → List MentionResolution → List MentionResolution
unfolding enrich
enrich_entity_mentions search [] = []
enrich_entity_mentions search (m ∷ ms) = enrich search m ∷ enrich_entity_mentions search ms

abbrev pub overridden : Overrides → List MentionResolution → List MentionResolution
overridden overrides [] = []
overridden overrides (m ∷ ms) =
    let chosen : MentionResolution = elim (override_of m.token overrides) [
      | none ↦ m
      | some o ↦ o
    ] in
    chosen ∷ overridden overrides ms

abbrev pub merged : Overrides → List MentionResolution → List MentionResolution
merged [] ms = ms
merged (o ∷ os) ms = unseen [] (overridden (o ∷ os) ms ++ override_values (o ∷ os))

pub record Activity : Type 0 where
  pub text : String
  pub entities : List Entity

module _ (patterns : Patterns) (employees : Employees) (primary_domain : String)
    (requester : Option Requester) where
  abbrev picked : List String → String → String → List MentionResolution → RankPickResult → Step
  picked seen token query candidates pick = elim pick.resolved [
    | none ↦ ambiguous (record {
      token = token;
      query = query;
      candidates = ranked_or pick.ranked_candidates candidates;
    })
    | some m ↦ unless_seen seen m
  ]

  abbrev searched : List String → String → String → List MentionResolution → Step
  searched seen token query [] = skip
  searched seen token query (c ∷ cs) =
      picked seen token query (c ∷ cs)
        (rank_and_pick patterns employees primary_domain requester query (c ∷ cs))

  unfoldable pub step_of : (String → List Entry) → Overrides → List String → String → Step
  step_of search overrides seen query =
      let token = "@" <> query in
      if truthy query
      then elim (override_of token overrides) [
        | some m ↦ unless_seen seen m
        | none ↦ searched seen token query (unique_candidate_mentions token (search query) query)
      ]
      else skip

  unfoldable pub resolve_queries :
      (String → List Entry) → Overrides → List String → List String → Found
  unfolding step_of
  resolve_queries search overrides seen [] = record { found = []; ambiguities = [] }
  resolve_queries search overrides seen (raw ∷ raws) =
      let step = step_of search overrides seen (normalize_plaintext_mention patterns raw) in
      let rest = resolve_queries search overrides (seen_after step seen) raws in add_step step rest

  abbrev pub resolve_plaintext_mentions : (String → List Entry) → Overrides → String → Found
  resolve_plaintext_mentions search overrides text =
      resolve_queries search overrides [] (patterns.plaintext_mentions text)

  unfoldable pub resolve_assignee_name : (String → List Entry) → String → RankPickResult
  resolve_assignee_name search query =
      let normalized = strip query in
      if truthy normalized
      then rank_and_pick patterns employees primary_domain requester normalized
          (unique_candidate_mentions ("@" <> normalized) (search normalized) normalized)
      else record { resolved = none; ranked_candidates = [] }

  abbrev pub known_mentions :
      Option (String → List Entry) → Overrides → Activity → List MentionResolution
  known_mentions none overrides activity =
      merged overrides (extract_entity_mentions patterns activity.entities)
  known_mentions (some search) overrides activity =
      merged overrides
        (enrich_entity_mentions search (extract_entity_mentions patterns activity.entities))

  -- The text is searched only if the entities and the choices name nobody.
  abbrev pub all_mentions :
      Option (String → List Entry) → Overrides → String → List MentionResolution → Found
  all_mentions search overrides text (m ∷ ms) = record { found = m ∷ ms; ambiguities = [] }
  all_mentions none overrides text [] = record { found = []; ambiguities = [] }
  all_mentions (some search) overrides text [] = resolve_plaintext_mentions search overrides text

  unfoldable pub resolve_mentions_structured :
      Option (String → List Entry) → Overrides → Activity → MentionResolutionResult
  unfolding extract_entity_mentions enrich_entity_mentions resolve_queries
  resolve_mentions_structured search overrides activity =
      let text = patterns.normalize_text activity.text in
      let f = all_mentions search overrides text (known_mentions search overrides activity) in
      record {
        message = replace_mentions text f.found;
        resolved = f.found;
        ambiguous = f.ambiguities;
      }
