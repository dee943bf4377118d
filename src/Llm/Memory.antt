-- ===== src/Llm/Memory.antt =====
-- ai/memory_trim.py. A message's content is its text, "" for none; a limit below 0 counts as 0.
pub mod Trimmed
use lantern_task_manager.Base.{
  ℕ, suc, ◌+◌, ◌-◌, String, ◌<>◌, Bool, true, false, ◌&&◌, ◌||◌, List, [], ◌∷◌, ◌++◌, length, drop,
  eqb, ltb, leb, clip, chars, if◌then◌else◌,
}
use lantern_task_manager.Storage.Repository.PublicId.{decimal}

pub data MessageKind : Type 0 where
  user model system function : MessageKind

pub record Message : Type 0 where
  pub kind : MessageKind
  pub content : String
  pub function_id : String

abbrev pub is_user : Message → Bool
is_user m = elim m.kind [ user ↦ true | _ ↦ false ]

abbrev is_function : Message → Bool
is_function m = elim m.kind [ function ↦ true | _ ↦ false ]

abbrev nonempty : List Message → Bool
nonempty [] = false
nonempty (m ∷ ms) = true

abbrev last_turn : List Message → List (List Message)
last_turn [] = []
last_turn (m ∷ ms) = (m ∷ ms) ∷ []

-- The turns of the messages, the first of which goes on with the given one.
unfoldable pub split_into_turns : List Message → List Message → List (List Message)
split_into_turns current [] = last_turn current
split_into_turns current (m ∷ ms) =
    let starts = is_user m && nonempty current in
    let rest = split_into_turns (if starts then m ∷ [] else current ++ m ∷ []) ms in
    if starts then current ∷ rest else rest

unfoldable pub truncate_tool_result : ℕ → Message → Message
truncate_tool_result max_chars m =
    if ltb 0 max_chars && is_function m && ltb max_chars (chars m.content)
    then record m {
      content =
          clip max_chars m.content
          <> "\n...[truncated "
          <> decimal (chars m.content - max_chars)
          <> " chars]";
    }
    else m

abbrev pub concat : List (List Message) → List Message
concat [] = []
concat (turn ∷ turns) = turn ++ concat turns

abbrev pub truncated : ℕ → List Message → List Message
truncated max_chars [] = []
truncated max_chars (m ∷ ms) = truncate_tool_result max_chars m ∷ truncated max_chars ms

abbrev pub chars_of : List Message → ℕ
chars_of [] = 0
chars_of (m ∷ ms) = chars m.content + chars_of ms

abbrev pub content_chars : List (List Message) → ℕ
content_chars turns = chars_of (concat turns)

unfoldable pub bounded : ℕ → List (List Message) → List (List Message)
bounded max_chars [] = []
bounded max_chars (t ∷ []) = t ∷ []
bounded max_chars (t ∷ u ∷ turns) =
    let rest = bounded max_chars (u ∷ turns) in
    if ltb max_chars (content_chars (t ∷ u ∷ turns)) then rest else t ∷ u ∷ turns

abbrev pub last_turns : ℕ → List (List Message) → List (List Message)
last_turns max_turns turns =
    if ltb 0 max_turns && ltb max_turns (length turns)
    then drop (length turns - max_turns) turns
    else turns

abbrev pub within_chars : ℕ → List Message → List Message
within_chars max_chars ms =
    if ltb 0 max_chars then concat (bounded max_chars (split_into_turns [] ms)) else ms

unfoldable pub trim_messages : ℕ → ℕ → ℕ → List Message → List Message
unfolding split_into_turns truncate_tool_result bounded
trim_messages max_turns max_tool_result_chars max_chars messages =
    if leb max_turns 0 && leb max_chars 0
    then messages
    else within_chars max_chars (
        truncated max_tool_result_chars
          (concat (last_turns max_turns (split_into_turns [] messages))))

-- The number of messages removed, and the memory afterwards.
unfoldable pub trim_conversation_memory : ℕ → ℕ → ℕ → List Message → ℕ × List Message
unfolding trim_messages
trim_conversation_memory max_turns max_tool_result_chars max_chars [] = (0, [])
trim_conversation_memory max_turns max_tool_result_chars max_chars (m ∷ ms) =
    let trimmed = trim_messages max_turns max_tool_result_chars max_chars (m ∷ ms) in
    (length (m ∷ ms) - length trimmed, trimmed)
