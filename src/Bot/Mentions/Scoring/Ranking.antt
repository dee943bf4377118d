-- ===== src/Bot/Mentions/Scoring/Ranking.antt =====
-- The pick among the candidates of bot/mention_scoring.py.
use mathlib.Core.List.Perm
use mathlib.Core.List.{Perm}
use lantern_task_manager.Base.{
  ℕ, ◌+◌, ◌≤◌, ◌<◌, ◌≡◌, refl, sym, subst, suc, length, ap, ◌∙◌, String, ◌&&◌, Option, some, List,
  [], ◌∷◌, leb, ltb, keep, All, arith, Bool-cases, inl, inr,
}
use lantern_task_manager.Policy.Profiles.{Employees}
use lantern_task_manager.Bot.Mentions.{MentionResolution, Patterns}
use lantern_task_manager.Bot.Mentions.Scoring.{
  Requester, nil, score_candidate, no_later, insert_ranked, ranked, picks, pick_ranked, pick_exact,
  matches_exactly, rank_and_pick,
}

module _ (patterns : Patterns) (employees : Employees) (domain : String)
    (requester : Option Requester) (query : String) where
  abbrev pub score : MentionResolution → ℕ
  score = score_candidate patterns employees domain requester query

  insert_ranked-perm :
      (m : MentionResolution) (ms : List MentionResolution)
      → Perm (m ∷ ms) (insert_ranked patterns employees domain requester query m ms)
  unfolding insert_ranked
  insert_ranked-perm m [] = Perm.rfl
  insert_ranked-perm m (n ∷ ns) =
      elim (Bool-cases (no_later patterns employees domain requester query m n)) [
        | inl h ↦ rw h Perm.rfl
        | inr h ↦ rw h (Perm.trans (Perm.swap n m ns) (Perm.cons n (insert_ranked-perm m ns)))
      ]

  ranked-perm :
      (ms : List MentionResolution) → Perm ms (ranked patterns employees domain requester query ms)
  unfolding ranked
  ranked-perm [] = Perm.nil
  ranked-perm (m ∷ ms) =
      Perm.trans (Perm.cons m (ranked-perm ms))
        (insert_ranked-perm m (ranked patterns employees domain requester query ms))

  -- No candidate scores more than one before it.
  abbrev Falling : List MentionResolution → Type 0
  Falling [] = Unit
  Falling (m ∷ ms) = All (λ n. score n ≤ score m) ms × Falling ms

  All-le :
      (a b : ℕ) (ms : List MentionResolution)
      → a ≤ b
      → All (λ n. score n ≤ a) ms
      → All (λ n. score n ≤ b) ms
  All-le a b [] h all = tt
  All-le a b (m ∷ ms) h all = (omega (arith, h, all.0), All-le a b ms h all.1)

  insert_ranked-All :
      (a : ℕ) (m : MentionResolution) (ms : List MentionResolution)
      → score m ≤ a
      → All (λ n. score n ≤ a) ms
      → All (λ n. score n ≤ a) (insert_ranked patterns employees domain requester query m ms)
  unfolding insert_ranked
  insert_ranked-All a m [] h all = (h, tt)
  insert_ranked-All a m (n ∷ ns) h all =
      elim (Bool-cases (no_later patterns employees domain requester query m n)) [
        | inl e ↦ rw e (h, all)
        | inr e ↦ rw e (all.0, insert_ranked-All a m ns h all.1)
      ]

  insert_ranked-Falling :
      (m : MentionResolution) (ms : List MentionResolution)
      → Falling ms
      → Falling (insert_ranked patterns employees domain requester query m ms)
  unfolding insert_ranked
  insert_ranked-Falling m [] h = (tt, tt)
  insert_ranked-Falling m (n ∷ ns) h =
      elim (Bool-cases (no_later patterns employees domain requester query m n)) [
        | inl e ↦
            let le : score n ≤ score m = ground (arith, e) in
            rw e ((le, All-le (score n) (score m) ns le h.0), h)
        | inr e ↦
            let le : score m ≤ score n = ground (arith, e) in
            rw e (insert_ranked-All (score n) m ns le h.0, insert_ranked-Falling m ns h.1)
      ]

  ranked-Falling :
      (ms : List MentionResolution) → Falling (ranked patterns employees domain requester query ms)
  unfolding ranked
  ranked-Falling [] = tt
  ranked-Falling (m ∷ ms) =
      insert_ranked-Falling m (ranked patterns employees domain requester query ms)
        (ranked-Falling ms)

  -- The three rules come down to a positive score and the margin.
  picks_lem :
      (top second : ℕ)
      → second ≤ top
      → picks patterns employees domain requester query top second
        ≡ (ltb nil top && leb (second + 2) top)
  unfolding picks
  picks_lem top second h = ground arith

  -- One candidate scores two more than every other, and more than 0.
  pub record Leads (ms : List MentionResolution) (x : MentionResolution) : Type 0 where
    pub others : List MentionResolution
    pub among : Perm ms (x ∷ others)
    pub positive : nil < score x
    pub ahead : All (λ y. score y + 2 ≤ score x) others

  -- Why a candidate is picked.
  pub data Reason (ms : List MentionResolution) (x : MentionResolution) : Type 0 where
    alone : ms ≡ x ∷ [] → Reason ms x
    exact : keep (matches_exactly patterns query) ms ≡ x ∷ [] → Reason ms x
    leads : Leads ms x → Reason ms x

  All-plus :
      (a b : ℕ) (ms : List MentionResolution)
      → a + 2 ≤ b
      → All (λ n. score n ≤ a) ms
      → All (λ n. score n + 2 ≤ b) ms
  All-plus a b [] h all = tt
  All-plus a b (m ∷ ms) h all = (omega (arith, h, all.0), All-plus a b ms h all.1)

  insert_ranked-length :
      (m : MentionResolution) (ms : List MentionResolution)
      → length (insert_ranked patterns employees domain requester query m ms) ≡ suc (length ms)
  unfolding insert_ranked
  insert_ranked-length m [] = refl
  insert_ranked-length m (n ∷ ns) = ground (arith, insert_ranked-length m ns)

  picked-Leads :
      (ms rs : List MentionResolution) (x : MentionResolution)
      → Perm ms rs
      → Falling rs
      → 2 ≤ length rs
      → (pick_ranked patterns employees domain requester query rs).resolved ≡ some x
      → Leads ms x
  picked-Leads ms [] x p f two e = absurd (omega (arith, two))
  picked-Leads ms (t ∷ []) x p f two e = absurd (omega (arith, two))
  picked-Leads ms (t ∷ s ∷ rest) x p f two e =
      elim (Bool-cases (picks patterns employees domain requester query (score t) (score s))) [
        | inr h ↦ absurd (ground (arith, h, e))
        | inl h ↦
            let rule = sym (picks_lem (score t) (score s) f.0.0) ∙ h in
            let same : t ≡ x = ground (arith, h, e) in
            let ahead : score s + 2 ≤ score t = ground (arith, rule) in
            subst (Leads ms) same (record {
              others = s ∷ rest;
              among = p;
              positive = ground (arith, rule);
              ahead = (ahead, All-plus (score s) (score t) rest ahead f.1.0);
            })
      ]

-- A candidate is picked only with a reason: it is the only one, or the only one that the query names
-- exactly, or it scores more than 0 and at least two more than every other candidate.
pub rank_and_pick_sound :
    (patterns : Patterns) (employees : Employees) (domain : String) (requester : Option Requester)
    (query : String) (ms : List MentionResolution) (x : MentionResolution)
    → (rank_and_pick patterns employees domain requester query ms).resolved ≡ some x
    → Reason patterns employees domain requester query ms x
unfolding rank_and_pick ranked
rank_and_pick_sound patterns employees domain requester query [] x e = cc
rank_and_pick_sound patterns employees domain requester query (m ∷ []) x e = alone (cc)
rank_and_pick_sound patterns employees domain requester query (m ∷ n ∷ ms) x e =
    by_exact (keep (matches_exactly patterns query) (m ∷ n ∷ ms)) refl e
  where
    all : List MentionResolution
    all = m ∷ n ∷ ms

    led :
        (pick_ranked patterns employees domain requester query
            (ranked patterns employees domain requester query all)).resolved
          ≡ some x
        → Reason patterns employees domain requester query all x
    led e = leads (
        picked-Leads patterns employees domain requester query all _ x
          (ranked-perm patterns employees domain requester query all)
          (ranked-Falling patterns employees domain requester query all)
          (omega (
            arith,
            insert_ranked-length patterns employees domain requester query m (
                insert_ranked patterns employees domain requester query n
                  (ranked patterns employees domain requester query ms)),
            insert_ranked-length patterns employees domain requester query n
                (ranked patterns employees domain requester query ms),
          ))
          e)

    by_exact :
        (found : List MentionResolution)
        → keep (matches_exactly patterns query) all ≡ found
        → (pick_exact patterns employees domain requester query all found).resolved ≡ some x
        → Reason patterns employees domain requester query all x
    by_exact [] f e = led e
    by_exact (y ∷ []) f e = (let same : y ≡ x = cc in exact (f ∙ ap (λ z. z ∷ []) same))
    by_exact (y ∷ z ∷ zs) f e = led e
