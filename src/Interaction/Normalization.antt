-- ===== src/Interaction/Normalization.antt =====
-- interaction/normalization.py. Unicode's normal form, `str.split`, the regular expressions and the
-- libraries that read dates are parameters.
use lantern_task_manager.Base.{
  ℕ, String, Bool, Option, none, some, List, [], ◌∷◌, ◌==◌, any_of, take, clip, lower, lstrip_chars,
  rstrip_chars, strip, truthy, text_or, join, if◌then◌else◌,
}
use lantern_task_manager.Domain.Enums.{Priority, critical, high, medium, low}

-- `dashed` is NFKC with the dashes translated; `word_in` whether a text has another as whole words;
-- `first_phrase` the piece before the first full stop, exclamation or question mark, semicolon or line
-- end; and the last four read a date, at an instant where it is relative.
pub record TextTools : Type 0 where
  pub dashed : String → String
  pub words : String → List String
  pub word_in : String → String → Bool
  pub first_phrase : String → String
  pub date_from_iso : String → Option ℕ
  pub date_signal : String → Bool
  pub parse_natural_date : ℕ → String → Option ℕ
  pub search_dates : ℕ → String → List ℕ

abbrev priorities : List (Priority × List String)
priorities =
    (critical, "critical" ∷ "blocking" ∷ "blocker" ∷ "emergency" ∷ "immediate" ∷ [])
    ∷ (high, "high" ∷ "urgent" ∷ "asap" ∷ "important" ∷ [])
    ∷ (medium, "medium" ∷ "normal" ∷ "standard" ∷ "regular" ∷ "routine" ∷ "usual" ∷ "default" ∷ [])
    ∷ (low, "low" ∷ "minor" ∷ "not urgent" ∷ "whenever" ∷ [])
    ∷ []

abbrev first_priority : (String → Bool) → List (Priority × List String) → Option Priority
first_priority test [] = none
first_priority test ((p, aliases) ∷ rest) =
    if any_of test aliases then some p else first_priority test rest

abbrev value_or_empty : Option String → String
value_or_empty none = ""
value_or_empty (some s) = s

-- `.strip(" .,!?")`
abbrev bare : String → String
bare s = rstrip_chars " .,!?" (lstrip_chars " .,!?" s)

abbrev last_of : List ℕ → Option ℕ
last_of [] = none
last_of (d ∷ []) = some d
last_of (d ∷ e ∷ ds) = last_of (e ∷ ds)

module _ (tools : TextTools) where
  unfoldable pub normalize_routing_text : String → String
  normalize_routing_text value = join " " (tools.words (tools.dashed value))

  abbrev bare_words : Option String → String
  bare_words value = bare (lower (normalize_routing_text (value_or_empty value)))

  unfoldable pub normalize_priority : Option String → Priority
  unfolding normalize_routing_text
  normalize_priority value = elim (first_priority (λ alias. alias == bare_words value) priorities) [
    | none ↦ medium
    | some p ↦ p
  ]

  unfoldable pub extract_priority : String → Option Priority
  unfolding normalize_routing_text
  extract_priority value =
      first_priority (λ alias. tools.word_in alias (lower (normalize_routing_text value)))
        priorities

  unfoldable pub derive_task_title : String → Option String → String
  unfolding normalize_routing_text
  derive_task_title description supplied =
      let title = value_or_empty supplied in
      if truthy (strip title)
      then clip 200 (normalize_routing_text title)
      else clip 200 (
          text_or
            (join " "
              (take 8 (tools.words (tools.first_phrase (normalize_routing_text description)))))
            "Operational task")

  abbrev natural_date : ℕ → String → Option ℕ
  natural_date now normalized = elim (tools.parse_natural_date now normalized) [
    | some d ↦ some d
    | none ↦ last_of (tools.search_dates now normalized)
  ]

  abbrev read_date : ℕ → String → Option ℕ
  read_date now normalized = elim (tools.date_from_iso normalized) [
    | some d ↦ some d
    | none ↦ if tools.date_signal normalized then natural_date now normalized else none
  ]

  unfoldable pub parse_due_date : Option String → ℕ → Option ℕ
  unfolding normalize_routing_text
  parse_due_date value now =
      if truthy (strip (value_or_empty value))
      then read_date now (normalize_routing_text (value_or_empty value))
      else none

  unfoldable pub refers_to_self : Option String → Bool
  unfolding normalize_routing_text
  refers_to_self value =
      any_of (λ s. s == bare_words value)
        ("me" ∷ "myself" ∷ "to me" ∷ "to myself" ∷ "assign me" ∷ "assign myself" ∷ [])
