-- ===== src/Bot/Mentions/Resolve/Unique.antt =====
-- The users that bot/mentions.py resolves, by their ids.
use lantern_task_manager.Base.{
  String, ◌<>◌, ◌≡◌, refl, sym, subst, ap, ◌∙◌, false, Option, none, some, List, [], ◌∷◌, ◌++◌,
  truthy, text_or, rest_of, Bool-cases, inl, inr, Option-cases,
}
use lantern_task_manager.Policy.Profiles.{Employees}
use lantern_task_manager.Bot.Mentions.{
  MentionResolution, Entry, Patterns, member, id_of, unseen, normalize_plaintext_mention,
  unique_candidate_mentions,
}
use lantern_task_manager.Bot.Mentions.Scoring.{RankPickResult, Requester, rank_and_pick}
use lantern_task_manager.Bot.Mentions.Resolve.{
  Overrides, Step, skip, take_mention, ambiguous, Found, unless_seen, seen_after, add_step,
  extract_entity_mentions, enriched, enrich, enrich_entity_mentions, override_of, merged,
  overridden, override_values, Activity, picked, searched, step_of, resolve_queries, known_mentions,
  all_mentions, resolve_mentions_structured, entity_mentions,
}

-- No user stands twice in the list, nor among the given ids.
abbrev pub Fresh : List String → List MentionResolution → Type 0
Fresh seen [] = Unit
Fresh seen (m ∷ ms) = (member (id_of m) seen ≡ false) × Fresh (id_of m ∷ seen) ms

unseen-Fresh : (seen : List String) (ms : List MentionResolution) → Fresh seen (unseen seen ms)
unfolding unseen
unseen-Fresh seen [] = tt
unseen-Fresh seen (m ∷ ms) = elim (Bool-cases (member (id_of m) seen)) [
  | inl h ↦ rw h (unseen-Fresh seen ms)
  | inr h ↦ rw h (h, unseen-Fresh (id_of m ∷ seen) ms)
]

id_of-enriched : (m : MentionResolution) (c : Option Entry) → id_of (enriched m c) ≡ id_of m
id_of-enriched m none = refl
id_of-enriched m (some c) = refl

id_of-enrich :
    (search : String → List Entry) (m : MentionResolution) → id_of (enrich search m) ≡ id_of m
unfolding enrich
id_of-enrich search m = elim (Bool-cases (truthy (text_or m.user.display_name (rest_of m.token)))) [
  | inl h ↦ rw h (id_of-enriched m _)
  | inr h ↦ rw h refl
]

enrich-Fresh :
    (search : String → List Entry) (seen : List String) (ms : List MentionResolution)
    → Fresh seen ms
    → Fresh seen (enrich_entity_mentions search ms)
unfolding enrich_entity_mentions
enrich-Fresh search seen [] h = tt
enrich-Fresh search seen (m ∷ ms) h =
    let same = id_of-enrich search m in
    (
      ap (λ i. member i seen) same ∙ h.0,
      subst (λ i. Fresh (i ∷ seen) (enrich_entity_mentions search ms)) (sym same)
          (enrich-Fresh search (id_of m ∷ seen) ms h.1),
    )

merged-Fresh :
    (overrides : Overrides) (ms : List MentionResolution)
    → Fresh [] ms
    → Fresh [] (merged overrides ms)
merged-Fresh [] ms h = h
merged-Fresh (o ∷ os) ms h = unseen-Fresh [] (overridden (o ∷ os) ms ++ override_values (o ∷ os))

-- A step takes nobody who was seen.
abbrev Takes : List String → Step → Type 0
Takes seen skip = Unit
Takes seen (take_mention m) = member (id_of m) seen ≡ false
Takes seen (ambiguous a) = Unit

unless_seen-Takes : (seen : List String) (m : MentionResolution) → Takes seen (unless_seen seen m)
unless_seen-Takes seen m = elim (Bool-cases (member (id_of m) seen)) [
  | inl h ↦ rw h tt
  | inr h ↦ rw h h
]

add_step-Fresh :
    (seen : List String) (step : Step) (f : Found)
    → Takes seen step
    → Fresh (seen_after step seen) f.found
    → Fresh seen (add_step step f).found
add_step-Fresh seen skip f t h = h
add_step-Fresh seen (take_mention m) f t h = (t, h)
add_step-Fresh seen (ambiguous a) f t h = h

module _ (patterns : Patterns) (employees : Employees) (domain : String)
    (requester : Option Requester) where
  picked-Takes :
      (seen : List String) (token query : String) (cs : List MentionResolution)
      (pick : RankPickResult)
      → Takes seen (picked patterns employees domain requester seen token query cs pick)
  picked-Takes seen token query cs pick = elim (Option-cases pick.resolved) [
    | inl e ↦ rw e tt
    | inr (m, e) ↦ rw e (unless_seen-Takes seen m)
  ]

  searched-Takes :
      (seen : List String) (token query : String) (cs : List MentionResolution)
      → Takes seen (searched patterns employees domain requester seen token query cs)
  searched-Takes seen token query [] = tt
  searched-Takes seen token query (c ∷ cs) =
      picked-Takes seen token query (c ∷ cs)
        (rank_and_pick patterns employees domain requester query (c ∷ cs))

  step-Takes :
      (search : String → List Entry) (overrides : Overrides) (seen : List String) (query : String)
      → Takes seen (step_of patterns employees domain requester search overrides seen query)
  unfolding step_of
  step-Takes search overrides seen query = elim (Bool-cases (truthy query)) [
    | inr h ↦ rw h tt
    | inl h ↦ elim (Option-cases (override_of ("@" <> query) overrides)) [
      | inl e ↦
          rw (h, e)
            (searched-Takes seen ("@" <> query) query
              (unique_candidate_mentions ("@" <> query) (search query) query))
      | inr (m, e) ↦ rw (h, e) (unless_seen-Takes seen m)
    ]
  ]

  resolve_queries-Fresh :
      (search : String → List Entry) (overrides : Overrides) (seen raws : List String)
      → Fresh seen
          (resolve_queries patterns employees domain requester search overrides seen raws).found
  unfolding resolve_queries
  resolve_queries-Fresh search overrides seen [] = tt
  resolve_queries-Fresh search overrides seen (raw ∷ raws) =
      let step =
        step_of patterns employees domain requester search overrides seen
          (normalize_plaintext_mention patterns raw) in
      add_step-Fresh seen step _
        (step-Takes search overrides seen (normalize_plaintext_mention patterns raw))
        (resolve_queries-Fresh search overrides (seen_after step seen) raws)

  all_mentions-Fresh :
      (search : Option (String → List Entry)) (overrides : Overrides) (text : String)
      (ms : List MentionResolution)
      → Fresh [] ms
      → Fresh [] (all_mentions patterns employees domain requester search overrides text ms).found
  all_mentions-Fresh search overrides text (m ∷ ms) h = h
  all_mentions-Fresh none overrides text [] h = tt
  all_mentions-Fresh (some search) overrides text [] h = resolve_queries-Fresh search overrides [] _

  known-Fresh :
      (search : Option (String → List Entry)) (overrides : Overrides) (activity : Activity)
      → Fresh [] (known_mentions patterns employees domain requester search overrides activity)
  unfolding extract_entity_mentions
  known-Fresh none overrides activity =
      merged-Fresh overrides _ (unseen-Fresh [] (entity_mentions patterns activity.entities))
  known-Fresh (some search) overrides activity =
      merged-Fresh overrides _
        (enrich-Fresh search [] _ (unseen-Fresh [] (entity_mentions patterns activity.entities)))

-- No user is resolved twice from one activity, whether from its entities, the earlier choices or its
-- text, with a directory search or without.
pub resolved-Fresh :
    (patterns : Patterns) (employees : Employees) (domain : String) (requester : Option Requester)
    (search : Option (String → List Entry)) (overrides : Overrides) (activity : Activity)
    → Fresh []
        (resolve_mentions_structured patterns employees domain requester search overrides
          activity).resolved
unfolding resolve_mentions_structured
resolved-Fresh patterns employees domain requester search overrides activity =
    all_mentions-Fresh patterns employees domain requester search overrides _ _
      (known-Fresh patterns employees domain requester search overrides activity)
