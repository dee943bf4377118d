-- ===== src/Bot/Mentions.antt =====
-- bot/mentions.py: the users that a message mentions. The parts of a text that a regular expression
-- finds are parameters, as is the directory search, whose entries have "" for a missing value.
pub mod Scoring
pub mod Resolve
use lantern_task_manager.Base.{
  String, ◌<>◌, Bool, true, false, not, ◌&&◌, ◌||◌, Option, none, some, List, [], ◌∷◌, ◌==◌, any_of,
  strip, lower, truthy, text_or, starts_with, contains, rest_of, rstrip_chars, replace_first, join,
  upper, clip, if◌then◌else◌,
}
use lantern_task_manager.Domain.Enums.{
  DeptCode, fin, proc, op, hr, it, bd, sal, exo, tbs, cbs, qua, ceo, dept_value, dept_display,
}
use lantern_task_manager.Domain.Models.{UserRef}

pub record MentionResolution : Type 0 where
  pub token : String
  pub user : UserRef
  pub mail : String
  pub upn : String
  pub job_title : String

pub record AmbiguousMentionResolution : Type 0 where
  pub token : String
  pub query : String
  pub candidates : List MentionResolution

pub record MentionResolutionResult : Type 0 where
  pub message : String
  pub resolved : List MentionResolution
  pub ambiguous : List AmbiguousMentionResolution

-- An entry that the directory search answers.
pub record Entry : Type 0 where
  pub entra_object_id : String
  pub display_name : String
  pub department : String
  pub mail : String
  pub upn : String
  pub job_title : String

-- `_AT_TAG_RE` and `_WHITESPACE_RE` applied, the pieces between white space, what stands behind each
-- "@", and Python's `str.lower` and `str.isupper`, which know all of Unicode.
pub record Patterns : Type 0 where
  pub normalize_text : String → String
  pub split_whitespace : String → List String
  pub plaintext_mentions : String → List String
  pub lower : String → String
  pub is_upper : String → Bool

abbrev pub member : String → List String → Bool
member s = any_of (λ t. t == s)

abbrev stop_words : List String
stop_words =
    "a" ∷ "an" ∷ "and" ∷ "approve" ∷ "assign" ∷ "assigned" ∷ "at" ∷ "be" ∷ "by" ∷ "create" ∷ "due"
    ∷ "for" ∷ "from" ∷ "in" ∷ "is" ∷ "kindly" ∷ "normal" ∷ "of" ∷ "on" ∷ "or" ∷ "please"
    ∷ "priority" ∷ "review" ∷ "task" ∷ "the" ∷ "to" ∷ "type" ∷ "update" ∷ "updates" ∷ "with" ∷ []

abbrev name_particles : List String
name_particles = "al" ∷ "bin" ∷ "bint" ∷ "de" ∷ "del" ∷ "der" ∷ "ibn" ∷ "van" ∷ "von" ∷ []

unfoldable pub looks_like_name_continuation : Patterns → String → Bool
looks_like_name_continuation patterns token =
    let lowered = patterns.lower token in
    not (member lowered stop_words)
    && (patterns.is_upper (clip 1 token) || member lowered name_particles)

abbrev name_parts : Patterns → List String → List String
name_parts patterns [] = []
name_parts patterns (part ∷ parts) =
    let rest = name_parts patterns parts in
    if looks_like_name_continuation patterns part then part ∷ rest else []

abbrev trimmed : List String → List String
trimmed [] = []
trimmed (part ∷ parts) = rstrip_chars ".,;:!?" part ∷ trimmed parts

abbrev joined_name : Patterns → List String → String
joined_name patterns [] = ""
joined_name patterns (part ∷ parts) = join " " (part ∷ name_parts patterns parts)

unfoldable pub normalize_plaintext_mention : Patterns → String → String
unfolding looks_like_name_continuation
normalize_plaintext_mention patterns raw =
    joined_name patterns (trimmed (patterns.split_whitespace (strip raw)))

all_departments : List DeptCode
all_departments = fin ∷ proc ∷ op ∷ hr ∷ it ∷ bd ∷ sal ∷ exo ∷ tbs ∷ cbs ∷ qua ∷ ceo ∷ []

abbrev by_alias : String → List (List String × DeptCode) → String
by_alias s [] = ""
by_alias s ((names, code) ∷ rest) = if member s names then dept_value code else by_alias s rest

abbrev by_display : String → List DeptCode → String
by_display s [] = by_alias s (
    ("operation" ∷ "operations" ∷ "op" ∷ [], op)
    ∷ ("procurement" ∷ "proc" ∷ [], proc)
    ∷ ("finance" ∷ "fin" ∷ [], fin)
    ∷ ("business development" ∷ "bizdev" ∷ "bd" ∷ [], bd)
    ∷ ("sales" ∷ "sal" ∷ [], sal)
    ∷ ("executive office" ∷ "ceo office" ∷ "exo" ∷ [], exo)
    ∷ ("technical bidding & solutions" ∷ "technical bidding and solutions" ∷ "tbs" ∷ [], tbs)
    ∷ ("commercial bidding & solutions" ∷ "commercial bidding and solutions" ∷ "cbs" ∷ [], cbs)
    ∷ ("quality" ∷ "qua" ∷ [], qua)
    ∷ [])
by_display s (code ∷ rest) =
    if s == lower (dept_value code) || s == lower (dept_display code)
    then dept_value code
    else by_display s rest

-- A department is compared with ASCII texts, as those that `lower` changes.
unfoldable pub department_code : String → String
unfolding all_departments
department_code department =
    let normalized = lower (strip department) in
    if truthy normalized then by_display normalized all_departments else ""

unfoldable pub mention_from_candidate : String → Entry → String → MentionResolution
mention_from_candidate token c fallback_name = record {
  token = token;
  user = record {
    entra_object_id = c.entra_object_id;
    display_name = text_or c.display_name fallback_name;
    department = c.department;
  };
  mail = c.mail;
  upn = c.upn;
  job_title = c.job_title;
}

abbrev pub id_of : MentionResolution → String
id_of m = m.user.entra_object_id

-- The mentions whose ids are none of the seen ones, each id once.
unfoldable pub unseen : List String → List MentionResolution → List MentionResolution
unseen seen [] = []
unseen seen (m ∷ ms) =
    let again = member (id_of m) seen in
    let rest = unseen (if again then seen else id_of m ∷ seen) ms in
    if again then rest else m ∷ rest

abbrev candidate_mentions : String → List Entry → String → List MentionResolution
candidate_mentions token [] fallback_name = []
candidate_mentions token (c ∷ cs) fallback_name =
    let rest = candidate_mentions token cs fallback_name in
    if truthy c.entra_object_id then mention_from_candidate token c fallback_name ∷ rest else rest

unfoldable pub unique_candidate_mentions : String → List Entry → String → List MentionResolution
unfolding mention_from_candidate
unique_candidate_mentions token cs fallback_name =
    unseen [] (candidate_mentions token cs fallback_name)

abbrev identity_values : Patterns → List String → List String
identity_values patterns [] = []
identity_values patterns (v ∷ vs) =
    let rest = identity_values patterns vs in
    if truthy (strip v) then patterns.lower (strip v) ∷ rest else rest

unfoldable pub matching_identity_values : Patterns → MentionResolution → List String
matching_identity_values patterns m =
    identity_values patterns (m.user.display_name ∷ m.mail ∷ m.upn ∷ [])

-- What an activity says of a mention.
pub record Mentioned : Type 0 where
  pub aad_object_id : Option String
  pub id : Option String
  pub name : Option String

pub record Entity : Type 0 where
  pub type : String
  pub text : Option String
  pub mentioned : Option Mentioned

abbrev name_of : Option Mentioned → String
name_of none = ""
name_of (some m) = elim m.name [ none ↦ "" | some name ↦ name ]

abbrev string_of : Option String → String
string_of none = ""
string_of (some s) = s

unfoldable pub entity_token : Patterns → Entity → Option String
entity_token patterns e =
    let cleaned = patterns.normalize_text (string_of e.text) in
    let name = strip (name_of e.mentioned) in
    if truthy (strip (string_of e.text))
    then some (if starts_with "@" cleaned then cleaned else "@" <> cleaned)
    else if truthy name
    then some ("@" <> name)
    else none

unfoldable pub user_from_mentioned : Option Mentioned → Option UserRef
user_from_mentioned none = none
user_from_mentioned (some m) =
    let id = text_or (string_of m.aad_object_id) (string_of m.id) in
    if truthy id
    then some (record { entra_object_id = id; display_name = string_of m.name; department = "" })
    else none

abbrev pub plain_mention : String → UserRef → MentionResolution
plain_mention token user = record {
  token = token;
  user = user;
  mail = "";
  upn = "";
  job_title = "";
}

abbrev pub mention_of : Patterns → Entity → Option MentionResolution
mention_of patterns e =
    if e.type == "mention"
    then elim (entity_token patterns e) [
      | none ↦ none
      | some token ↦ elim (user_from_mentioned e.mentioned) [
        | none ↦ none
        | some user ↦ some (plain_mention token user)
      ]
    ]
    else none

unfoldable pub replace_mentions : String → List MentionResolution → String
replace_mentions text [] = text
replace_mentions text (m ∷ ms) =
    let replacement = m.token <> " [EntraObjectId: " <> id_of m <> "]" in
    if contains m.token text
    then replace_mentions (replace_first m.token replacement text) ms
    else if contains (rest_of m.token) text
    then replace_mentions (replace_first (rest_of m.token) replacement text) ms
    else replace_mentions text ms
