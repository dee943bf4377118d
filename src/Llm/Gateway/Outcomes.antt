-- ===== src/Llm/Gateway/Outcomes.antt =====
-- How the turns of ai/gateway.py count, and how often they call a model.
use Prim.Native.Nat.{max}
use lantern_task_manager.Base.{
  ℕ, ◌+◌, ◌*◌, ◌≡◌, ◌≤◌, refl, ap, ◌∙◌, String, Bool, true, not, ◌||◌, length, [], arith,
  Bool-cases, inl, inr,
}
use lantern_task_manager.Llm.Breaker.{CircuitBreaker, allow_request, record_success, record_failure}
use lantern_task_manager.Llm.Failures.{
  circuit_open, rate_limit, daily_cap, out_of_fuel, provider_error, is_retryable_error,
}
use lantern_task_manager.Llm.Gateway.{
  Runtime, Reply, answered, failed, primary, fallback_model, LlmSettings, Outside, by_fallback,
  call_with_retries, or_fallback, call_with_retries_and_fallback, ended, generate_text,
}
use lantern_task_manager.Llm.Gateway.Turns.{Retries, call-steps}

module _ (settings : LlmSettings) (outside : Outside) where
  -- What the fallback keeps.
  or_fallback-keeps {ℓ} :
      (P Q : Runtime → Type ℓ) (r : Reply String × Runtime)
      → ((s : Runtime) → P s → Q s)
      → ((s : Runtime) → P s → Q (outside.generate fallback_model s).1)
      → P r.1
      → Q (or_fallback settings outside r).1
  or_fallback-keeps P Q (answered text, s) less keeps p = less s p
  or_fallback-keeps P Q (failed e, s) less keeps p =
      elim (Bool-cases (not settings.llm_fallback_enabled || not (is_retryable_error e))) [
        | inl h ↦ rw h (less s p)
        | inr h ↦ rw h (fallen (outside.generate fallback_model s) (keeps s p))
      ]
    where
      fallen : (r : Reply String × Runtime) → Q r.1 → Q (by_fallback settings outside r).1
      fallen (answered text, s) q = q
      fallen (failed e, s) q = q

-- The breaker and the usage of a turn's start.
abbrev pub Accounts : Runtime → Runtime → Type 0
Accounts s t = (t.breaker ≡ s.breaker) × (t.usage ≡ s.usage) × (t.today ≡ s.today)

-- No model call touches the breaker, the usage or the day.
abbrev pub LeavesAccounts : Outside → Type 0
LeavesAccounts outside =
    ((s : Runtime) → Accounts s (outside.generate_within primary s).1)
    × ((s : Runtime) → Accounts s (outside.generate fallback_model s).1)

Accounts-trans : (s t u : Runtime) → Accounts s t → Accounts t u → Accounts s u
Accounts-trans s t u h k = (k.0 ∙ h.0, k.1 ∙ h.1, k.2 ∙ h.2)

pub turn-Accounts :
    (settings : LlmSettings) (outside : Outside) (pause : ℕ → ℕ → ℕ) (s : Runtime)
    → Retries outside.retrying pause
    → LeavesAccounts outside
    → Accounts s (call_with_retries_and_fallback settings outside s).1
unfolding call_with_retries_and_fallback
turn-Accounts settings outside pause s retries (main, other) =
    or_fallback-keeps settings outside (Accounts s) (Accounts s)
      (call_with_retries settings outside s) (λ t h. h)
      (λ t h. Accounts-trans s t (outside.generate fallback_model t).1 h (other t))
      (call-steps settings outside pause (λ _ t. Accounts s t) retries (λ _ t now h. h) (λ _ t h. h)
        (λ _ t h. Accounts-trans s t (outside.generate_within primary t).1 h (main t)) s
        (refl, refl, refl))

-- What a reply counts for with the breaker, at a time.
abbrev pub counted : Reply String → ℕ → CircuitBreaker → CircuitBreaker
counted (answered text) now breaker = record_success breaker
counted (failed daily_cap) now breaker = breaker
counted (failed rate_limit) now breaker = breaker
counted (failed circuit_open) now breaker = record_failure now breaker
counted (failed out_of_fuel) now breaker = record_failure now breaker
counted (failed (provider_error e)) now breaker = record_failure now breaker

ended-counted :
    (settings : LlmSettings) (outside : Outside) (r : Reply (String × Bool) × Runtime)
    → (ended settings outside r).1.breaker
      ≡ counted (ended settings outside r).0 (ended settings outside r).1.now r.1.breaker
ended-counted settings outside (answered (text, b), s) = refl
ended-counted settings outside (failed daily_cap, s) = refl
ended-counted settings outside (failed rate_limit, s) = refl
ended-counted settings outside (failed circuit_open, s) = refl
ended-counted settings outside (failed out_of_fuel, s) = refl
ended-counted settings outside (failed (provider_error e), s) = refl

-- A turn that the breaker lets through counts once with it, whatever attempts and fallback it took: an
-- answer as a success, a refusal by the own rate limit or daily limit not at all, and every other
-- failure as one at its end; where a call is repeated as documented and no model call touches the
-- breaker, the usage or the day.
pub generate_text-counted :
    (settings : LlmSettings) (outside : Outside) (pause : ℕ → ℕ → ℕ) (s : Runtime)
    → Retries outside.retrying pause
    → LeavesAccounts outside
    → (allow_request s.now s.breaker).0 ≡ true
    → let r = generate_text settings outside s in
      r.1.breaker ≡ counted r.0 r.1.now (allow_request s.now s.breaker).1
unfolding generate_text
generate_text-counted settings outside pause s retries leaves allowed =
    let begun = record s { calls = []; breaker = (allow_request s.now s.breaker).1 } in
    let r = call_with_retries_and_fallback settings outside begun in
    let kept = turn-Accounts settings outside pause begun retries leaves in
    rw allowed (
      ended-counted settings outside r
      ∙ ap (λ b. counted (ended settings outside r).0 (ended settings outside r).1.now b) kept.0)

abbrev Room : ℕ → ℕ → ℕ → Runtime → Type 0
Room bound k n s = length s.calls + (n + 1) * k ≤ bound

-- A turn makes at most as many provider requests as its model calls make at most: each attempt, one
-- at least, and the fallback; where a call is repeated as documented and each model call makes at most
-- `k` requests.
turn_requests :
    (settings : LlmSettings) (outside : Outside) (pause : ℕ → ℕ → ℕ) (k : ℕ) (s : Runtime)
    → Retries outside.retrying pause
    → ((s : Runtime) → length (outside.generate_within primary s).1.calls ≤ k + length s.calls)
    → ((s : Runtime) → length (outside.generate fallback_model s).1.calls ≤ k + length s.calls)
    → length (call_with_retries_and_fallback settings outside s).1.calls
      ≤ (max 1 settings.llm_retry_max_attempts + 1) * k + length s.calls
unfolding call_with_retries_and_fallback
turn_requests settings outside pause k s retries main other =
    let bound = (max 1 settings.llm_retry_max_attempts + 1) * k + length s.calls in
    or_fallback-keeps settings outside (Room bound k 0) (λ t. length t.calls ≤ bound)
      (call_with_retries settings outside s) (λ t h. omega (arith, h))
      (λ t h. omega (arith, h, other t))
      (call-steps settings outside pause (Room bound k) retries (λ _ t now h. h)
        (λ n t h. omega (arith, h)) (λ n t h. omega (arith, h, main t)) s (omega arith))
