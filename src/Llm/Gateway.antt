-- ===== src/Llm/Gateway.antt =====
-- ai/gateway.py and the provider call of ai/groq_completions_model.py. A model's `generate_text` is
-- the AI library's and so a parameter, as it runs alone and as `asyncio.wait_for` bounds it, and so is
-- the library that repeats a call. The background task that writes the usage runs to its end before
-- the next turn, and the store of the usage is there.
pub mod Turns
pub mod Outcomes
pub mod Accounts
use Prim.Native.Nat.{min, max}
use lantern_task_manager.Base.{
  ℕ, zero, suc, ◌+◌, ◌-◌, ◌≡◌, String, Bool, true, false, not, ◌&&◌, ◌||◌, Option, none, some, List,
  [], ◌∷◌, ◌++◌, length, ltb, if◌then◌else◌,
}
use lantern_task_manager.Llm.Breaker.{
  CircuitBreaker, new_breaker, allow_request, record_success, record_failure,
}
use lantern_task_manager.Llm.Usage.{
  LlmUsageDaily, UsageOutcome, success, fallback, error, Usage, get_daily_totals, record_usage,
}
use lantern_task_manager.Llm.Governor.{
  Verdict, granted, rate_limited, daily_cap_exceeded, waiting, GovernorSettings, LlmGovernor,
  new_governor, Admission, acquire, record_token_usage,
}
use lantern_task_manager.Llm.Failures.{
  Failure, circuit_open, rate_limit, daily_cap, out_of_fuel, provider_error, is_retryable_error,
  retry_after, parse_groq_retry,
}
use lantern_task_manager.Llm.Metrics.{
  GroqCallStage, initial, tool_result, GroqCallMetrics, new_call, get_call_metrics, sum_of,
}

pub record Runtime : Type 0 where
  pub now : ℕ
  pub today : ℕ
  pub breaker : CircuitBreaker
  pub governor : LlmGovernor
  pub calls : List GroqCallMetrics
  pub terminal_response : Option String
  pub usage : List LlmUsageDaily

pub data Reply (A : Type 0) : Type 0 where
  answered : A → Reply A
  failed : Failure → Reply A

abbrev pub Call : Type 0 → Type 0
Call A = Runtime → Reply A × Runtime

pub data Model : Type 0 where
  primary fallback_model : Model

pub record LlmSettings : Type 0 where
  pub limits : GovernorSettings
  pub groq_model : String
  pub groq_fallback_model : String
  pub llm_fallback_enabled : Bool
  pub llm_retry_max_attempts : ℕ
  pub llm_circuit_failure_threshold : ℕ
  pub llm_circuit_open_ms : ℕ

-- `reset_llm_runtime_state`, and the objects that the next use makes.
abbrev pub reset : LlmSettings → Runtime → Runtime
reset settings s = record s {
  breaker = new_breaker settings.llm_circuit_failure_threshold settings.llm_circuit_open_ms;
  governor = new_governor s.now settings.limits;
}

-- What outside code does: time in a sleep, texts read as numbers, a provider's completion (with the
-- prompt and completion tokens that it reports, and its time), a model's text alone and within the
-- timeout, and the repetition of a call up to a number of attempts while its failure is retryable.
pub record Outside : Type 0 where
  pub sleep : ℕ → ℕ → ℕ
  pub float : String → Option ℕ
  pub try_again_in : String → Option ℕ
  pub create : Runtime → Reply (String × ℕ × ℕ) × ℕ
  pub generate : Model → Call String
  pub generate_within : Model → Call String
  pub retrying : ℕ → (Failure → Bool) → Call String → Call String

abbrev failure_of : Verdict → Failure
failure_of granted = out_of_fuel
failure_of rate_limited = rate_limit
failure_of daily_cap_exceeded = daily_cap
failure_of waiting = out_of_fuel

module _ (settings : LlmSettings) (outside : Outside) where
  abbrev stage_of : Bool → GroqCallStage
  stage_of true = tool_result
  stage_of false = initial

  abbrev measured : GroqCallStage → ℕ → Reply (String × ℕ × ℕ) → GroqCallMetrics
  measured stage time (answered (text, prompt, completion)) = record {
    stage = stage;
    prompt_tokens = prompt;
    completion_tokens = completion;
    latency_ms = time;
  }
  measured stage time (failed e) = record (new_call stage) { latency_ms = time }

  abbrev text_of : Reply (String × ℕ × ℕ) → Reply String
  text_of (answered (text, prompt, completion)) = answered text
  text_of (failed e) = failed e

  abbrev external_call : Bool → Call String
  external_call has_tool_result s =
      let (reply, time) = outside.create s in
      (
        text_of reply,
        record s {
          now = s.now + time;
          calls = s.calls ++ measured (stage_of has_tool_result) time reply ∷ [];
        },
      )

  abbrev pub governed : Bool → Verdict → Call String
  governed has_tool_result granted s = external_call has_tool_result s
  governed has_tool_result rate_limited s = (failed (failure_of rate_limited), s)
  governed has_tool_result daily_cap_exceeded s = (failed (failure_of daily_cap_exceeded), s)
  governed has_tool_result waiting s = (failed (failure_of waiting), s)

  abbrev pub admission : Runtime → Admission
  admission s =
      acquire settings.limits outside.sleep 0 (some (get_daily_totals s.today s.usage)) s.now
        s.governor

  abbrev request : Bool → Call String
  request has_tool_result s =
      let a = admission s in
      governed has_tool_result a.verdict (record s { now = a.time; governor = a.governor })

  abbrev pub or_terminal : Option String → Call String
  or_terminal (some text) s = (answered text, s)
  or_terminal none s = request true s

  -- The completion that a model asks for, with the response that a tool has ended the turn with.
  unfoldable pub groq_create : Bool → Call String
  groq_create true s = or_terminal s.terminal_response (record s { terminal_response = none })
  groq_create false s = request false s

  abbrev delay_of : Failure → Option ℕ → ℕ
  delay_of e (some delay) = delay
  delay_of (provider_error e) none =
      if is_retryable_error (provider_error e)
      then parse_groq_retry outside.float outside.try_again_in e 0
      else 0
  delay_of circuit_open none = 0
  delay_of rate_limit none = 0
  delay_of daily_cap none = 0
  delay_of out_of_fuel none = 0

  abbrev pub delay : Failure → ℕ
  delay e = delay_of e (retry_after outside.float outside.try_again_in e)

  abbrev pub waits : Failure → Bool
  waits e = ltb 0 (delay e) && is_retryable_error e

  abbrev pub delayed : Failure → Runtime → Runtime
  delayed e s = if waits e then record s { now = outside.sleep s.now (min (delay e) 60000) } else s

  abbrev pub after_attempt : Reply String × Runtime → Reply String × Runtime
  after_attempt (answered text, s) = (answered text, s)
  after_attempt (failed e, s) = (failed e, delayed e s)

  abbrev pub attempt : Call String
  attempt s = after_attempt (outside.generate_within primary s)

  unfoldable pub call_with_retries : Call String
  call_with_retries =
      outside.retrying (max 1 settings.llm_retry_max_attempts) is_retryable_error attempt

  abbrev pub by_fallback : Reply String × Runtime → Reply (String × Bool) × Runtime
  by_fallback (answered text, s) = (answered (text, true), s)
  by_fallback (failed e, s) = (failed e, s)

  abbrev pub or_fallback : Reply String × Runtime → Reply (String × Bool) × Runtime
  or_fallback (answered text, s) = (answered (text, false), s)
  or_fallback (failed e, s) =
      if not settings.llm_fallback_enabled || not (is_retryable_error e)
      then (failed e, s)
      else by_fallback (outside.generate fallback_model s)

  unfoldable pub call_with_retries_and_fallback : Call (String × Bool)
  unfolding call_with_retries
  call_with_retries_and_fallback s = or_fallback (call_with_retries s)

  abbrev model_id : Bool → String
  model_id true = settings.groq_fallback_model
  model_id false = settings.groq_model

  abbrev outcome_of : Bool → UsageOutcome
  outcome_of true = fallback
  outcome_of false = success

  abbrev pub prompt_of : List GroqCallMetrics → ℕ
  prompt_of calls = elim (get_call_metrics calls) [ none ↦ 0 | some m ↦ m.prompt_tokens ]

  abbrev pub completion_of : List GroqCallMetrics → ℕ
  completion_of calls = elim (get_call_metrics calls) [ none ↦ 0 | some m ↦ m.completion_tokens ]

  -- The usage of a turn that was answered, and of one that failed.
  abbrev pub usage_of : Bool → Runtime → Usage
  usage_of used_fallback s = record {
    usage_date = s.today;
    provider = "groq";
    model_id = model_id used_fallback;
    prompt_tokens = prompt_of s.calls;
    completion_tokens = completion_of s.calls;
    outcome = outcome_of used_fallback;
    request_count = length s.calls;
  }

  abbrev pub error_usage : Runtime → Usage
  error_usage s = record {
    usage_date = s.today;
    provider = "groq";
    model_id = settings.groq_model;
    prompt_tokens = 0;
    completion_tokens = 0;
    outcome = error;
    request_count = 1;
  }

  abbrev pub succeeded : Bool → Runtime → Runtime
  succeeded used_fallback s = record s {
    breaker = record_success s.breaker;
    governor = record_token_usage (prompt_of s.calls) (completion_of s.calls) s.governor;
    usage = record_usage (usage_of used_fallback s) s.usage;
    calls = [];
  }

  abbrev pub broke : Runtime → Runtime
  broke s = record s {
    breaker = record_failure s.now s.breaker;
    usage = record_usage (error_usage s) s.usage;
    calls = [];
  }

  abbrev pub after_failure : Failure → Runtime → Runtime
  after_failure daily_cap s = record s { calls = [] }
  after_failure rate_limit s = record s { calls = [] }
  after_failure circuit_open s = broke s
  after_failure out_of_fuel s = broke s
  after_failure (provider_error e) s = broke s

  abbrev pub ended : Reply (String × Bool) × Runtime → Reply String × Runtime
  ended (answered (text, used_fallback), s) = (answered text, succeeded used_fallback s)
  ended (failed e, s) = (failed e, after_failure e s)

  unfoldable pub generate_text : Call String
  unfolding call_with_retries_and_fallback
  generate_text s =
      let (allowed, breaker) = allow_request s.now s.breaker in
      let begun = record s { calls = []; breaker = breaker } in
      if allowed then ended (call_with_retries_and_fallback begun) else (failed circuit_open, begun)
