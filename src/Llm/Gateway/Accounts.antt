-- ===== src/Llm/Gateway/Accounts.antt =====
-- What the turns of ai/gateway.py leave in the usage, and how they end at the own limits.
use lantern_task_manager.Base.{
  ℕ, ◌+◌, ◌≡◌, refl, ap, ◌∙◌, String, Bool, true, false, List, [], ◌∷◌, length, ltb, arith,
  Bool-cases, inl, inr, if◌then◌else◌,
}
use Prim.Native.Nat.{max}
use lantern_task_manager.Llm.Metrics.{GroqCallMetrics, sum_of}
use lantern_task_manager.Llm.Breaker.{allow_request}
use lantern_task_manager.Llm.Failures.{
  Failure, circuit_open, rate_limit, daily_cap, out_of_fuel, provider_error, is_retryable_error,
}
use lantern_task_manager.Llm.Usage.{
  DailyUsageTotals, LlmUsageDaily, Usage, plus_row, first_row, get_daily_totals, record_usage,
}
use lantern_task_manager.Llm.Usage.Totals.{get_daily_totals-record_usage}
use lantern_task_manager.Llm.Gateway.{
  Runtime, Reply, answered, failed, Call, primary, LlmSettings, Outside, attempt, after_attempt,
  delayed, delay, usage_of, error_usage, prompt_of, completion_of, call_with_retries, or_fallback,
  call_with_retries_and_fallback, ended, generate_text,
}
use lantern_task_manager.Llm.Gateway.Turns.{Retries, again, max-suc}
use lantern_task_manager.Llm.Gateway.Outcomes.{LeavesAccounts, turn-Accounts}

-- The start of a turn, and the totals of its day.
abbrev pub begun : Runtime → Runtime
begun s = record s { calls = []; breaker = (allow_request s.now s.breaker).1 }

abbrev pub totals : Runtime → DailyUsageTotals
totals s = get_daily_totals s.today s.usage

-- The tokens of all requests.
unfoldable pub prompt_sum : List GroqCallMetrics → ℕ
prompt_sum [] = 0
prompt_sum (call ∷ calls) = call.prompt_tokens + prompt_sum calls

unfoldable pub completion_sum : List GroqCallMetrics → ℕ
completion_sum [] = 0
completion_sum (call ∷ calls) = call.completion_tokens + completion_sum calls

sum_of-prompt :
    (calls : List GroqCallMetrics)
    → sum_of (λ (c : GroqCallMetrics). c.prompt_tokens) calls ≡ prompt_sum calls
unfolding prompt_sum
sum_of-prompt [] = refl
sum_of-prompt (call ∷ calls) = ap (λ n. call.prompt_tokens + n) (sum_of-prompt calls)

sum_of-completion :
    (calls : List GroqCallMetrics)
    → sum_of (λ (c : GroqCallMetrics). c.completion_tokens) calls ≡ completion_sum calls
unfolding completion_sum
sum_of-completion [] = refl
sum_of-completion (call ∷ calls) = ap (λ n. call.completion_tokens + n) (sum_of-completion calls)

abbrev pub one_error : DailyUsageTotals → DailyUsageTotals
one_error d = record d { request_count = d.request_count + 1; error_count = d.error_count + 1 }

-- What a turn adds to its day, by the reply of its calls and the provider requests that they made.
abbrev pub billed :
    Reply (String × Bool) → List GroqCallMetrics → DailyUsageTotals → DailyUsageTotals
billed (answered (text, used_fallback)) calls d = record {
  request_count = d.request_count + max 1 (length calls);
  prompt_tokens = d.prompt_tokens + prompt_sum calls;
  completion_tokens = d.completion_tokens + completion_sum calls;
  fallback_count = d.fallback_count + (if used_fallback then 1 else 0);
  error_count = d.error_count;
}
billed (failed daily_cap) calls d = d
billed (failed rate_limit) calls d = d
billed (failed circuit_open) calls d = one_error d
billed (failed out_of_fuel) calls d = one_error d
billed (failed (provider_error e)) calls d = one_error d

module _ (settings : LlmSettings) (outside : Outside) where
  added :
      (day : ℕ) (u : Usage) (rows : List LlmUsageDaily)
      → u.usage_date ≡ day
      → get_daily_totals day (record_usage u rows)
        ≡ plus_row (get_daily_totals day rows) (first_row u)
  added day u rows e = get_daily_totals-record_usage day u rows ∙ ground (arith, e)

  prompt_of-sum :
      (calls : List GroqCallMetrics) → prompt_of settings outside calls ≡ prompt_sum calls
  unfolding prompt_sum
  prompt_of-sum [] = refl
  prompt_of-sum (call ∷ calls) = sum_of-prompt (call ∷ calls)

  completion_of-sum :
      (calls : List GroqCallMetrics) → completion_of settings outside calls ≡ completion_sum calls
  unfolding completion_sum
  completion_of-sum [] = refl
  completion_of-sum (call ∷ calls) = sum_of-completion (call ∷ calls)

  answer_billed :
      (d : DailyUsageTotals) (text : String) (used_fallback : Bool) (s : Runtime)
      → plus_row d (first_row (usage_of settings outside used_fallback s))
        ≡ billed (answered (text, used_fallback)) s.calls d
  answer_billed d text true s = rw (prompt_of-sum s.calls, completion_of-sum s.calls) (ground arith)
  answer_billed d text false s =
      rw (prompt_of-sum s.calls, completion_of-sum s.calls) (ground arith)

  error_billed :
      (s : Runtime)
      → get_daily_totals s.today (record_usage (error_usage settings outside s) s.usage)
        ≡ one_error (totals s)
  error_billed s = added s.today (error_usage settings outside s) s.usage refl ∙ ground arith

  ended_billed :
      (r : Reply (String × Bool) × Runtime)
      → totals (ended settings outside r).1 ≡ billed r.0 r.1.calls (totals r.1)
  ended_billed (answered (text, b), s) =
      added s.today (usage_of settings outside b s) s.usage refl ∙ answer_billed (totals s) text b s
  ended_billed (failed daily_cap, s) = refl
  ended_billed (failed rate_limit, s) = refl
  ended_billed (failed circuit_open, s) = error_billed s
  ended_billed (failed out_of_fuel, s) = error_billed s
  ended_billed (failed (provider_error e), s) = error_billed s

-- A turn that the breaker lets through adds to its day's totals exactly its own usage: if it was
-- answered, the prompt and completion tokens of all its provider requests, their number or 1 if there
-- were none, and one fallback if the fallback answered;
-- one request and one error if it failed; and nothing if the own limits refused it; where a call is
-- repeated as documented and no model call touches the breaker, the usage or the day.
pub generate_text-billed :
    (settings : LlmSettings) (outside : Outside) (pause : ℕ → ℕ → ℕ) (s : Runtime)
    → Retries outside.retrying pause
    → LeavesAccounts outside
    → (allow_request s.now s.breaker).0 ≡ true
    → let r = call_with_retries_and_fallback settings outside (begun s) in
      totals (generate_text settings outside s).1 ≡ billed r.0 r.1.calls (totals s)
unfolding generate_text
generate_text-billed settings outside pause s retries leaves allowed =
    let r = call_with_retries_and_fallback settings outside (begun s) in
    let (_, usage, today) = turn-Accounts settings outside pause (begun s) retries leaves in
    rw allowed (
      ended_billed settings outside r
      ∙ ap (λ d. billed r.0 r.1.calls (get_daily_totals d r.1.usage)) today
      ∙ ap (λ u. billed r.0 r.1.calls (get_daily_totals s.today u)) usage)

-- A refusal by the own rate limit or daily limit.
abbrev pub OwnLimit : Failure → Type 0
OwnLimit daily_cap = Unit
OwnLimit rate_limit = Unit
OwnLimit circuit_open = ⊥
OwnLimit out_of_fuel = ⊥
OwnLimit (provider_error e) = ⊥

OwnLimit-final : (e : Failure) → OwnLimit e → is_retryable_error e ≡ false
unfolding is_retryable_error
OwnLimit-final daily_cap own = refl
OwnLimit-final rate_limit own = refl
OwnLimit-final circuit_open own = absurd own
OwnLimit-final out_of_fuel own = absurd own
OwnLimit-final (provider_error e) own = absurd own

not_again :
    (pause : ℕ → ℕ → ℕ) (left : ℕ) (next : Call String) (e : Failure) (t : Runtime)
    → is_retryable_error e ≡ false
    → again pause is_retryable_error left next (failed e, t) ≡ (failed e, t)
not_again pause left next e t final = rw final refl

module _ (settings : LlmSettings) (outside : Outside) (e : Failure) (t : Runtime) where
  not_delayed : is_retryable_error e ≡ false → delayed settings outside e t ≡ t
  not_delayed final = elim (Bool-cases (ltb 0 (delay settings outside e))) [
    | inl h ↦ rw (h, final) refl
    | inr h ↦ rw h refl
  ]

  no_fallback :
      is_retryable_error e ≡ false → or_fallback settings outside (failed e, t) ≡ (failed e, t)
  no_fallback final = elim (Bool-cases settings.llm_fallback_enabled) [
    | inl h ↦ rw (h, final) refl
    | inr h ↦ rw h refl
  ]

OwnLimit-ended :
    (settings : LlmSettings) (outside : Outside) (e : Failure) (t : Runtime)
    → OwnLimit e
    → ended settings outside (failed e, t) ≡ (failed e, record t { calls = [] })
OwnLimit-ended settings outside daily_cap t own = refl
OwnLimit-ended settings outside rate_limit t own = refl
OwnLimit-ended settings outside circuit_open t own = absurd own
OwnLimit-ended settings outside out_of_fuel t own = absurd own
OwnLimit-ended settings outside (provider_error e) t own = absurd own

-- A turn whose first model call meets the own rate limit or daily limit ends there: it is not tried
-- again, waits for nothing, takes no fallback, and leaves the state as that call did but for the
-- cleared metrics; where the breaker lets it through and a call is repeated as documented.
pub OwnLimit-ends :
    (settings : LlmSettings) (outside : Outside) (pause : ℕ → ℕ → ℕ) (s t : Runtime) (e : Failure)
    → Retries outside.retrying pause
    → (allow_request s.now s.breaker).0 ≡ true
    → OwnLimit e
    → outside.generate_within primary (begun s) ≡ (failed e, t)
    → generate_text settings outside s ≡ (failed e, record t { calls = [] })
unfolding generate_text call_with_retries_and_fallback call_with_retries
OwnLimit-ends settings outside pause s t e retries allowed own first =
    let final = OwnLimit-final e own in
    let (k, m) = max-suc settings outside pause settings.llm_retry_max_attempts in
    let tried : attempt settings outside (begun s) ≡ (failed e, t) =
      ap (after_attempt settings outside) first
      ∙ ap (λ t. (failed e, t)) (not_delayed settings outside e t final) in
    let called : call_with_retries settings outside (begun s) ≡ (failed e, t) =
      ap (λ n. outside.retrying n is_retryable_error (attempt settings outside) (begun s)) m
      ∙ retries k is_retryable_error (attempt settings outside) (begun s)
      ∙ ap
          (again pause is_retryable_error k
            (outside.retrying k is_retryable_error (attempt settings outside)))
          tried
      ∙ not_again pause k (outside.retrying k is_retryable_error (attempt settings outside)) e t
          final in
    rw allowed (
      ap (λ r. ended settings outside (or_fallback settings outside r)) called
      ∙ ap (ended settings outside) (no_fallback settings outside e t final)
      ∙ OwnLimit-ended settings outside e t own)
