-- ===== src/Bot/Mentions/Scoring.antt =====
-- bot/mention_scoring.py. A score is written with 2 added, since the source's is no less than -2: `nil`
-- stands for 0.
pub mod Ranking
use lantern_task_manager.Base.{
  ℕ, ◌+◌, ◌-◌, ◌*◌, String, ◌<>◌, Bool, true, false, not, ◌&&◌, ◌||◌, Option, none, some, List, [],
  ◌∷◌, ◌==◌, eqb, leb, ltb, Outcome, ok, raised, strip, lower, truthy, ends_with, lstrip_chars,
  text_leb, keep, if◌then◌else◌,
}
use lantern_task_manager.Policy.Profiles.{AssignmentProfile, Employees, get_profile}
use lantern_task_manager.Bot.Mentions.{
  MentionResolution, Patterns, member, department_code, matching_identity_values, id_of,
}

pub record RankPickResult : Type 0 where
  pub resolved : Option MentionResolution
  pub ranked_candidates : List MentionResolution

-- What the scores read of the one who asks.
pub record Requester : Type 0 where
  pub entra_object_id : String
  pub department_code : String
  pub department : String

abbrev pub auto_pick_margin : ℕ
auto_pick_margin = 2

abbrev pub weight_exact : ℕ
weight_exact = 4

abbrev pub nil : ℕ
nil = 2

abbrev requester_entra_id : Option Requester → String
requester_entra_id none = ""
requester_entra_id (some r) = r.entra_object_id

abbrev requester_department_code : Option Requester → String
requester_department_code none = ""
requester_department_code (some r) =
    if truthy (strip r.department_code)
    then strip r.department_code
    else department_code r.department

abbrev manager_or_none : Outcome AssignmentProfile → Option String
manager_or_none (ok profile) = profile.manager_entra_id
manager_or_none (raised e) = none

unfoldable pub has_primary_domain : Patterns → MentionResolution → String → Bool
has_primary_domain patterns m primary_email_domain =
    let suffix = "@" <> lstrip_chars "@" (patterns.lower (strip primary_email_domain)) in
    (truthy m.mail && ends_with suffix (patterns.lower (strip m.mail)))
    || (truthy m.upn && ends_with suffix (patterns.lower (strip m.upn)))

unfoldable pub is_onmicrosoft_only : Patterns → MentionResolution → String → Bool
unfolding has_primary_domain
is_onmicrosoft_only patterns m primary_email_domain =
    not (has_primary_domain patterns m primary_email_domain)
    && (ends_with ".onmicrosoft.com" (patterns.lower (strip m.mail))
        || ends_with ".onmicrosoft.com" (patterns.lower (strip m.upn)))

unfoldable pub matches_exactly : Patterns → String → MentionResolution → Bool
matches_exactly patterns query m =
    member (patterns.lower (strip query)) (matching_identity_values patterns m)

abbrev bonus : ℕ → Bool → ℕ
bonus weight test = if test then weight else 0

abbrev is_manager : String → Option String → Bool
is_manager requester_id none = false
is_manager requester_id (some manager) =
    truthy requester_id && truthy manager && requester_id == manager

module _ (patterns : Patterns) (employees : Employees) (primary_email_domain : String)
    (requester : Option Requester) (query : String) where
  unfoldable pub score_candidate : MentionResolution → ℕ
  unfolding has_primary_domain is_onmicrosoft_only matches_exactly
  score_candidate m =
      let requester_dept = requester_department_code requester in
      let candidate_dept = department_code m.user.department in
      let manager = manager_or_none (get_profile employees (id_of m)) in
      nil
      + bonus weight_exact (matches_exactly patterns query m)
      + bonus 3 (has_primary_domain patterns m primary_email_domain)
      - bonus 2 (is_onmicrosoft_only patterns m primary_email_domain)
      + bonus 3 (truthy requester_dept && truthy candidate_dept && requester_dept == candidate_dept)
      + bonus 5 (is_manager (requester_entra_id requester) manager)

  abbrev pub name_key : MentionResolution → String
  name_key m = patterns.lower m.user.display_name

  -- The order of `sorted` by falling score and display name.
  abbrev pub no_later : MentionResolution → MentionResolution → Bool
  no_later m n =
      ltb (score_candidate n) (score_candidate m)
      || (eqb (score_candidate n) (score_candidate m) && text_leb (name_key m) (name_key n))

  unfoldable pub insert_ranked : MentionResolution → List MentionResolution → List MentionResolution
  unfolding score_candidate
  insert_ranked m [] = m ∷ []
  insert_ranked m (n ∷ ns) = if no_later m n then m ∷ n ∷ ns else n ∷ insert_ranked m ns

  unfoldable pub ranked : List MentionResolution → List MentionResolution
  unfolding insert_ranked
  ranked [] = []
  ranked (m ∷ ms) = insert_ranked m (ranked ms)

  -- Whether the first of the ranked candidates is picked, by its score and the second's.
  unfoldable pub picks : ℕ → ℕ → Bool
  picks top second =
      let margin = top - second in
      if leb top nil && leb second nil
      then false
      else if leb auto_pick_margin margin
      then true
      else if eqb second nil && leb (nil + weight_exact) top
      then true
      else ltb nil second && leb auto_pick_margin margin && leb (second - nil) (4 * margin)

  abbrev pub pick_ranked : List MentionResolution → RankPickResult
  pick_ranked [] = record { resolved = none; ranked_candidates = [] }
  pick_ranked (top ∷ []) = record { resolved = some top; ranked_candidates = top ∷ [] }
  pick_ranked (top ∷ second ∷ rest) = record {
    resolved = if picks (score_candidate top) (score_candidate second) then some top else none;
    ranked_candidates = top ∷ second ∷ rest;
  }

  abbrev pub pick_exact : List MentionResolution → List MentionResolution → RankPickResult
  pick_exact candidates (m ∷ []) = record { resolved = some m; ranked_candidates = candidates }
  pick_exact candidates [] = pick_ranked (ranked candidates)
  pick_exact candidates (m ∷ n ∷ ms) = pick_ranked (ranked candidates)

  unfoldable pub rank_and_pick : List MentionResolution → RankPickResult
  unfolding ranked matches_exactly
  rank_and_pick [] = record { resolved = none; ranked_candidates = [] }
  rank_and_pick (m ∷ []) = record { resolved = some m; ranked_candidates = m ∷ [] }
  rank_and_pick (m ∷ n ∷ ms) =
      pick_exact (m ∷ n ∷ ms) (keep (matches_exactly patterns query) (m ∷ n ∷ ms))
