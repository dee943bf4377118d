-- ===== src/Llm/Memory/Trimmed.antt =====
-- What ai/memory_trim.py keeps of a conversation.
use mathlib.Core.List.{append_assoc}
use lantern_task_manager.Base.{
  ℕ, zero, suc, ◌+◌, ◌-◌, ◌≤◌, ◌<◌, ◌≡◌, refl, sym, subst, ap, All, ◌∙◌, true, false, ◌&&◌, List,
  [], ◌∷◌, ◌++◌, length, length-drop, drop, ltb, leb, if◌then◌else◌, arith, Bool-cases, inl, inr,
  ◌⊎◌,
}
use lantern_task_manager.Llm.Memory.{
  Message, is_user, nonempty, split_into_turns, truncate_tool_result, concat, truncated,
  content_chars, chars_of, bounded, last_turns, within_chars, trim_messages,
}

-- The turns of a conversation are the conversation.
concat-split : (current ms : List Message) → concat (split_into_turns current ms) ≡ current ++ ms
unfolding split_into_turns
concat-split [] [] = refl
concat-split (c ∷ cs) [] = refl
concat-split current (m ∷ ms) = elim (Bool-cases (is_user m && nonempty current)) [
  | inl h ↦ rw h (ap (λ r. current ++ r) (concat-split (m ∷ []) ms))
  | inr h ↦ rw h (concat-split (current ++ m ∷ []) ms ∙ append_assoc current (m ∷ []) ms)
]

-- A conversation's end.
abbrev pub Ends : List Message → List Message → Type 0
Ends xs ys = (before : List Message) × (before ++ xs ≡ ys)

Ends-refl : (xs : List Message) → Ends xs xs
Ends-refl xs = ([], refl)

Ends-later : (t xs ys : List Message) → Ends xs ys → Ends xs (t ++ ys)
Ends-later t xs ys (before, e) = (t ++ before, append_assoc t before xs ∙ ap (λ r. t ++ r) e)

Ends-trans : (xs ys zs : List Message) → Ends xs ys → Ends ys zs → Ends xs zs
Ends-trans xs ys zs (b, e) (c, f) = (c ++ b, append_assoc c b xs ∙ ap (λ r. c ++ r) e ∙ f)

drop-Ends : (n : ℕ) (ts : List (List Message)) → Ends (concat (drop n ts)) (concat ts)
drop-Ends zero ts = Ends-refl (concat ts)
drop-Ends (suc n) [] = Ends-refl []
drop-Ends (suc n) (t ∷ ts) = Ends-later t _ _ (drop-Ends n ts)

bounded-Ends : (n : ℕ) (ts : List (List Message)) → Ends (concat (bounded n ts)) (concat ts)
unfolding bounded
bounded-Ends n [] = Ends-refl []
bounded-Ends n (t ∷ []) = Ends-refl _
bounded-Ends n (t ∷ u ∷ ts) = elim (Bool-cases (ltb n (content_chars (t ∷ u ∷ ts)))) [
  | inl h ↦ rw h (Ends-later t _ _ (bounded-Ends n (u ∷ ts)))
  | inr h ↦ rw h (Ends-refl _)
]

truncated-append :
    (n : ℕ) (xs ys : List Message) → truncated n (xs ++ ys) ≡ truncated n xs ++ truncated n ys
truncated-append n [] ys = refl
truncated-append n (x ∷ xs) ys = ap (λ r. truncate_tool_result n x ∷ r) (truncated-append n xs ys)

truncated-Ends :
    (n : ℕ) (xs ys : List Message) → Ends xs ys → Ends (truncated n xs) (truncated n ys)
truncated-Ends n xs ys (b, e) = (truncated n b, sym (truncated-append n b xs) ∙ ap (truncated n) e)

last_turns-Ends :
    (n : ℕ) (ms : List Message) → Ends (concat (last_turns n (split_into_turns [] ms))) ms
last_turns-Ends n ms =
    let ts = split_into_turns [] ms in
    elim (Bool-cases (ltb 0 n && ltb n (length ts))) [
      | inl h ↦ rw h (subst (Ends _) (concat-split [] ms) (drop-Ends (length ts - n) ts))
      | inr h ↦ rw h (subst (Ends _) (concat-split [] ms) (Ends-refl (concat ts)))
    ]

within_chars-Ends : (n : ℕ) (ms : List Message) → Ends (within_chars n ms) ms
within_chars-Ends n ms = elim (Bool-cases (ltb 0 n)) [
  | inl h ↦ rw h (subst (Ends _) (concat-split [] ms) (bounded-Ends n (split_into_turns [] ms)))
  | inr h ↦ rw h (Ends-refl ms)
]

-- The messages that begin a turn.
abbrev pub users : List Message → ℕ
users [] = 0
users (m ∷ ms) = if is_user m then suc (users ms) else users ms

users-append : (xs ys : List Message) → users (xs ++ ys) ≡ users xs + users ys
users-append [] ys = omega arith
users-append (x ∷ xs) ys = ground (arith, users-append xs ys)

abbrev One : List (List Message) → Type 0
One = All (λ t. users t ≤ 1)

nonempty-append : (c : List Message) (m : Message) → nonempty (c ++ m ∷ []) ≡ true
nonempty-append [] m = refl
nonempty-append (x ∷ c) m = refl

split-One :
    (current ms : List Message)
    → users current ≤ 1
    → (nonempty current ≡ false → users current ≡ 0)
    → One (split_into_turns current ms)
unfolding split_into_turns
split-One [] [] h e = tt
split-One (c ∷ cs) [] h e = (h, tt)
split-One current (m ∷ ms) h e = elim (Bool-cases (is_user m)) [
  | inl u ↦ elim (Bool-cases (nonempty current)) [
    | inl k ↦ rw (u, k) (h, split-One (m ∷ []) ms (ground (arith, u)) (λ f. cc))
    | inr k ↦
        rw (u, k)
          (split-One (current ++ m ∷ []) ms (ground (arith, users-append current (m ∷ []), e k, u))
            (λ f. absurd (ground (arith, f, nonempty-append current m))))
  ]
  | inr u ↦ rw u (
      split-One (current ++ m ∷ []) ms (ground (arith, users-append current (m ∷ []), h, u))
        (λ f. absurd (ground (arith, f, nonempty-append current m))))
]

users-concat : (ts : List (List Message)) → One ts → users (concat ts) ≤ length ts
users-concat [] h = omega arith
users-concat (t ∷ ts) h = omega (arith, users-append t (concat ts), users-concat ts h.1, h.0)

drop-One : (n : ℕ) (ts : List (List Message)) → One ts → One (drop n ts)
drop-One zero ts h = h
drop-One (suc n) [] h = tt
drop-One (suc n) (t ∷ ts) h = drop-One n ts h.1

bounded-One : (n : ℕ) (ts : List (List Message)) → One ts → One (bounded n ts)
unfolding bounded
bounded-One n [] h = tt
bounded-One n (t ∷ []) h = h
bounded-One n (t ∷ u ∷ ts) h = elim (Bool-cases (ltb n (content_chars (t ∷ u ∷ ts)))) [
  | inl e ↦ rw e (bounded-One n (u ∷ ts) h.1)
  | inr e ↦ rw e h
]

-- What is left is short enough or a single turn.
bounded-short :
    (n : ℕ) (ts : List (List Message))
    → (content_chars (bounded n ts) ≤ n) ⊎ (length (bounded n ts) ≤ 1)
unfolding bounded
bounded-short n [] = inr (omega arith)
bounded-short n (t ∷ []) = inr (omega arith)
bounded-short n (t ∷ u ∷ ts) = elim (Bool-cases (ltb n (content_chars (t ∷ u ∷ ts)))) [
  | inl e ↦ rw e (bounded-short n (u ∷ ts))
  | inr e ↦ rw e (inl (ground (arith, e)))
]

users-truncated : (n : ℕ) (ms : List Message) → users (truncated n ms) ≡ users ms
unfolding truncate_tool_result
users-truncated n [] = refl
users-truncated n (m ∷ ms) = ground (arith, users-truncated n ms)

users-Ends : (xs ys : List Message) → Ends xs ys → users xs ≤ users ys
users-Ends xs ys (b, e) = omega (arith, users-append b xs, ap users e)

last_turns-users :
    (n : ℕ) (ms : List Message) → 0 < n → users (concat (last_turns n (split_into_turns [] ms))) ≤ n
last_turns-users n ms h =
    let ts = split_into_turns [] ms in
    let one = split-One [] ms (omega arith) (λ _. refl) in
    elim (Bool-cases (ltb n (length ts))) [
      | inl e ↦
          let on : ltb 0 n ≡ true = ground (arith, h) in
          rw (on, e)
            (ground (
              arith,
              users-concat (drop (length ts - n) ts) (drop-One (length ts - n) ts one),
              length-drop (length ts - n) ts,
              e,
            ))
      | inr e ↦
          let on : ltb 0 n ≡ true = ground (arith, h) in
          rw (on, e) (ground (arith, users-concat ts one, e))
    ]

within_chars_short :
    (n : ℕ) (ms : List Message)
    → 0 < n
    → (chars_of (within_chars n ms) ≤ n) ⊎ (users (within_chars n ms) ≤ 1)
within_chars_short n ms h =
    let on : ltb 0 n ≡ true = ground (arith, h) in
    let ts = split_into_turns [] ms in
    let one = bounded-One n ts (split-One [] ms (omega arith) (λ _. refl)) in
    rw on (elim (bounded-short n ts) [
      | inl short ↦ inl short
      | inr single ↦ inr (omega (arith, single, users-concat (bounded n ts) one))
    ])

-- Where a limit of turns or of characters is set, the trimmed conversation is the end of the
-- conversation with its long tool results shortened; it has at most the limit of user messages; and it
-- is within the limit of characters or has at most one user message.
pub trim_messages_lem :
    (max_turns max_tool max_chars : ℕ) (ms : List Message)
    → 0 < max_turns + max_chars
    → let trimmed = trim_messages max_turns max_tool max_chars ms in
      Ends trimmed (truncated max_tool ms)
      × (0 < max_turns → users trimmed ≤ max_turns)
      × (0 < max_chars → (chars_of trimmed ≤ max_chars) ⊎ (users trimmed ≤ 1))
unfolding trim_messages
trim_messages_lem max_turns max_tool max_chars ms set =
    let limited : (leb max_turns 0 && leb max_chars 0) ≡ false = ground (arith, set) in
    let kept = concat (last_turns max_turns (split_into_turns [] ms)) in
    let cut = truncated max_tool kept in
    let ends = within_chars-Ends max_chars cut in
    rw limited (
      Ends-trans (within_chars max_chars cut) cut (truncated max_tool ms) ends
          (truncated-Ends max_tool kept ms (last_turns-Ends max_turns ms)),
      (λ h. omega (
        arith,
        users-Ends (within_chars max_chars cut) cut ends,
        users-truncated max_tool kept,
        last_turns-users max_turns ms h,
      )),
      (λ h. within_chars_short max_chars cut h),
    )
