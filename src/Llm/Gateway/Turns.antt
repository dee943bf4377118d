-- ===== src/Llm/Gateway/Turns.antt =====
-- The turns of ai/gateway.py: their attempts, their fallback and the circuit breaker.
use Prim.Native.Nat.{max}
use lantern_task_manager.Base.{
  ℕ, zero, suc, ◌≡◌, refl, subst, String, Bool, ◌&&◌, ltb, if◌then◌else◌, arith, Bool-cases, inl,
  inr,
}
use lantern_task_manager.Llm.Failures.{Failure, is_retryable_error}
use lantern_task_manager.Llm.Gateway.{
  Runtime, Reply, answered, failed, Call, primary, LlmSettings, Outside, delayed, waits,
  after_attempt, attempt, call_with_retries,
}

abbrev pub again :
    (ℕ → ℕ → ℕ)
    → (Failure → Bool)
    → ℕ
    → Call String
    → Reply String × Runtime
    → Reply String × Runtime
again pause retry left next (answered text, s) = (answered text, s)
again pause retry left next (failed e, s) =
    if retry e && ltb 0 left then next (record s { now = pause left s.now }) else (failed e, s)

-- The call is made again, after a pause, until it is answered, its failure is no retryable one, or it
-- has been made as often as asked.
abbrev pub Retries : (ℕ → (Failure → Bool) → Call String → Call String) → (ℕ → ℕ → ℕ) → Type 0
Retries retrying pause =
    (left : ℕ) (retry : Failure → Bool) (call : Call String) (s : Runtime)
    → retrying (suc left) retry call s ≡ again pause retry left (retrying left retry call) (call s)

-- What each call takes a step down, and no pause changes, the repetition takes down no further than by
-- its number of calls.
module _ {ℓ} (P : ℕ → Runtime → Type ℓ)
    (retrying : ℕ → (Failure → Bool) → Call String → Call String) (pause : ℕ → ℕ → ℕ)
    (retries : Retries retrying pause)
    (paused : (n : ℕ) (s : Runtime) (now : ℕ) → P n s → P n (record s { now = now }))
    (less : (n : ℕ) (s : Runtime) → P n s → P 0 s) (retry : Failure → Bool) (call : Call String)
    (steps : (n : ℕ) (s : Runtime) → P (suc n) s → P n (call s).1) where
  again-steps :
      (left : ℕ)
      → ((s : Runtime) → P left s → P 0 (retrying left retry call s).1)
      → (r : Reply String × Runtime) → P left r.1
      → P 0 (again pause retry left (retrying left retry call) r).1
  again-steps left next (answered text, s) p = less left s p
  again-steps left next (failed e, s) p = elim (Bool-cases (retry e && ltb 0 left)) [
    | inl h ↦ rw h (next _ (paused left s _ p))
    | inr h ↦ rw h (less left s p)
  ]

  again-last :
      (next : Call String) (r : Reply String × Runtime)
      → P 0 r.1
      → P 0 (again pause retry 0 next r).1
  again-last next (answered text, s) p = p
  again-last next (failed e, s) p = elim (Bool-cases (retry e)) [ inl h ↦ rw h p | inr h ↦ rw h p ]

  pub retrying-steps :
      (left : ℕ) (s : Runtime) → P (suc left) s → P 0 (retrying (suc left) retry call s).1
  retrying-steps zero s p =
      rw (retries zero retry call s) (again-last (retrying 0 retry call) (call s) (steps 0 s p))
  retrying-steps (suc left) s p =
      rw (retries (suc left) retry call s)
        (again-steps (suc left) (retrying-steps left) (call s) (steps (suc left) s p))

module _ (settings : LlmSettings) (outside : Outside) (pause : ℕ → ℕ → ℕ) where
  delayed-keeps {ℓ} :
      (P : Runtime → Type ℓ) (e : Failure) (s : Runtime)
      → ((now : ℕ) → P (record s { now = now }))
      → P s
      → P (delayed settings outside e s)
  delayed-keeps P e s later p = elim (Bool-cases (waits settings outside e)) [
    | inl h ↦ rw h (later _)
    | inr h ↦ rw h p
  ]

  after_attempt-keeps {ℓ} :
      (P : Runtime → Type ℓ) (r : Reply String × Runtime)
      → ((s : Runtime) (now : ℕ) → P s → P (record s { now = now }))
      → P r.1
      → P (after_attempt settings outside r).1
  after_attempt-keeps P (answered text, s) later p = p
  after_attempt-keeps P (failed e, s) later p = delayed-keeps P e s (λ now. later s now p) p

  pub max-suc : (n : ℕ) → (k : ℕ) × (max 1 n ≡ suc k)
  max-suc zero = (0, refl)
  max-suc (suc n) = (n, omega arith)

  -- What the model takes down a step, an answered or failed turn takes down by its attempts.
  pub call-steps {ℓ} :
      (P : ℕ → Runtime → Type ℓ)
      → Retries outside.retrying pause
      → ((n : ℕ) (s : Runtime) (now : ℕ) → P n s → P n (record s { now = now }))
      → ((n : ℕ) (s : Runtime) → P n s → P 0 s)
      → ((n : ℕ) (s : Runtime) → P (suc n) s → P n (outside.generate_within primary s).1)
      → (s : Runtime) → P (max 1 settings.llm_retry_max_attempts) s
      → P 0 (call_with_retries settings outside s).1
  unfolding call_with_retries
  call-steps P retries paused less steps s p =
      let (k, e) = max-suc settings.llm_retry_max_attempts in
      rw (call_with_retries, e)
        (retrying-steps P outside.retrying pause retries paused less is_retryable_error
          (attempt settings outside)
          (λ n s p.
            after_attempt-keeps (P n) (outside.generate_within primary s) (λ s now. paused n s now)
              (steps n s p))
          k s (subst (λ n. P n s) e p))
