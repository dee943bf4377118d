-- ===== src/Tests/Llm.antt =====
-- The language model's limits, breaker and turns at concrete inputs.
use lantern_task_manager.Llm.Failures.{is_retryable_error}
use lantern_task_manager.Base.{
  ℕ, zero, suc, ◌+◌, ◌*◌, ◌≡◌, ◌≤◌, ◌<◌, ◌⊎◌, refl, String, Bool, true, none, List, [], ◌∷◌, ◌++◌,
  arith, not,
}
use lantern_task_manager.Llm.Breaker.{new_breaker, allow_request}
use lantern_task_manager.Llm.Breaker.History.{
  Call, asks, fails, run, tally, blocked, Timely, run-allow_request, recovers,
}
use lantern_task_manager.Llm.Usage.{Usage, fallback}
use lantern_task_manager.Llm.Governor.{
  GovernorSettings, new_governor, granted, check_daily_caps, acquire,
}
use lantern_task_manager.Llm.Governor.Bucket.{Sleeps}
use lantern_task_manager.Llm.Governor.Limits.{IsGovernor, Admits, acquire-Admits}
use lantern_task_manager.Llm.Governor.Rates.{Request, serve, serve_rate}
use lantern_task_manager.Llm.Governor.Progress.{acquire_grants}
use lantern_task_manager.Llm.Failures.{Failure, provider_error, daily_cap}
use lantern_task_manager.Llm.Metrics.{initial, new_call}
use lantern_task_manager.Llm.Memory.{Message, user, function, truncated, chars_of, trim_messages}
use lantern_task_manager.Llm.Memory.Trimmed.{Ends, users, trim_messages_lem}
use lantern_task_manager.Llm.Gateway as Gateway
use lantern_task_manager.Llm.Gateway.{
  Runtime, Reply, answered, failed, primary, fallback_model, Model, LlmSettings, Outside,
  call_with_retries_and_fallback, generate_text,
}
use lantern_task_manager.Llm.Gateway.Turns.{Retries, again}
use lantern_task_manager.Llm.Gateway.Outcomes.{LeavesAccounts, counted, generate_text-counted}
use lantern_task_manager.Llm.Gateway.Accounts.{
  begun, totals, billed, generate_text-billed, OwnLimit-ends,
}

abbrev outage : List (ℕ × Call)
outage = (1, fails) ∷ (2, fails) ∷ (3, asks) ∷ (4, fails) ∷ []

outage-Timely : Timely 0 outage 30
outage-Timely = (omega arith, (omega arith, (omega arith, (omega arith, omega arith))))

run-allow_request_example :
    (allow_request 30 (run (new_breaker 3 60) outage)).0
    ≡ not (blocked 3 60 30 (tally (0, none) outage))
run-allow_request_example = run-allow_request 3 60 30 outage outage-Timely

recovers_example : (allow_request 90 (run (new_breaker 3 60) outage)).0 ≡ true
recovers_example = recovers 3 60 30 outage outage-Timely

abbrev spending : Usage
spending = record {
  usage_date = 7;
  provider = "groq";
  model_id = "qwen";
  prompt_tokens = 500;
  completion_tokens = 20;
  outcome = fallback;
  request_count = 2;
}

abbrev limits : GovernorSettings
limits = record {
  llm_rate_limit_rpm = 30;
  llm_rate_limit_tpm = 7500;
  llm_request_min_interval_ms = 200;
  llm_daily_request_limit = 100;
  llm_daily_token_limit = 0;
  llm_governor_max_wait_ms = 30000;
}

abbrev sleep : ℕ → ℕ → ℕ
sleep now delay = now + delay

sleeps : Sleeps sleep
sleeps now delay = omega arith

fresh : IsGovernor 30 7500 1000 (new_governor 1000 limits)
fresh = record {
  rpm_is = (refl, refl, omega arith);
  tpm_is = (refl, refl, omega arith);
  rpm_filled = omega arith;
  tpm_filled = omega arith;
  requested = tt;
}

acquire-Admits_example :
    Admits 30 7500 200 1000
      (new_governor 1000 limits)
      (acquire limits sleep 0 none 1000 (new_governor 1000 limits))
acquire-Admits_example =
    acquire-Admits limits sleep 30 7500 0 none 1000 (new_governor 1000 limits) sleeps fresh

acquire_grants_example :
    (acquire limits sleep 0 none 1000 (new_governor 1000 limits)).verdict ≡ granted
unfolding check_daily_caps
acquire_grants_example =
    acquire_grants limits sleep 30 7500 0 none 1000 (new_governor 1000 limits) sleeps fresh refl
      (omega arith) (omega arith) (omega arith) (omega arith)

abbrev one_request : Request
one_request = record {
  pause = 10;
  estimated_tokens = 0;
  totals = none;
  prompt_tokens = 300;
  completion_tokens = 40;
}

serve_rate_example :
    (serve limits sleep
          (one_request ∷ one_request ∷ [])
          (record { count = 0; time = 1000; governor = new_governor 1000 limits })).count
        * 60000
      + 1000 * 30
    ≤ 30 * 60000
      + (serve limits sleep
          (one_request ∷ one_request ∷ [])
          (record { count = 0; time = 1000; governor = new_governor 1000 limits })).time
        * 30
serve_rate_example = serve_rate limits sleep 1000 (one_request ∷ one_request ∷ []) sleeps

-- A primary model that cannot be reached, a fallback that answers, and a full retry library.
abbrev down : Failure
down = provider_error (record { connection = true; status_code = none; response = none; text = "" })

abbrev later : ℕ → ℕ → ℕ
later left now = now + 1000

abbrev retrying : ℕ → (Failure → Bool) → Gateway.Call String → Gateway.Call String
retrying zero retry call = call
retrying (suc left) retry call = λ s. again later retry left (retrying left retry call) (call s)

retrying-Retries : Retries retrying later
retrying-Retries left retry call s = refl

abbrev served : Gateway.Call String
served s = (answered "Done.", record s { calls = s.calls ++ new_call initial ∷ [] })

abbrev outside : (Runtime → Reply String × Runtime) → Outside
outside main = record {
  sleep = sleep;
  float = λ raw. none;
  try_again_in = λ text. none;
  create = λ s. (failed down, 10);
  generate = λ m. served;
  generate_within = λ m. main;
  retrying = retrying;
}

abbrev unreachable : Outside
unreachable = outside (λ s. (failed down, s))

abbrev settings : LlmSettings
settings = record {
  limits = limits;
  groq_model = "gpt";
  groq_fallback_model = "qwen";
  llm_fallback_enabled = true;
  llm_retry_max_attempts = 3;
  llm_circuit_failure_threshold = 3;
  llm_circuit_open_ms = 60000;
}

abbrev runtime : Runtime
runtime = record {
  now = 1000;
  today = 7;
  breaker = new_breaker 3 60000;
  governor = new_governor 1000 limits;
  calls = [];
  terminal_response = none;
  usage = [];
}

unreachable-LeavesAccounts : LeavesAccounts unreachable
unreachable-LeavesAccounts = (λ s. (refl, refl, refl), λ s. (refl, refl, refl))

allowed : (allow_request runtime.now runtime.breaker).0 ≡ true
unfolding allow_request
allowed = refl

generate_text-counted_example :
    (generate_text settings unreachable runtime).1.breaker
    ≡ counted
        (generate_text settings unreachable runtime).0
        (generate_text settings unreachable runtime).1.now
        (allow_request runtime.now runtime.breaker).1
generate_text-counted_example =
    generate_text-counted settings unreachable later runtime retrying-Retries
      unreachable-LeavesAccounts allowed

generate_text-billed_example :
    totals (generate_text settings unreachable runtime).1
    ≡ billed
        (call_with_retries_and_fallback settings unreachable (begun runtime)).0
        (call_with_retries_and_fallback settings unreachable (begun runtime)).1.calls
        (totals runtime)
generate_text-billed_example =
    generate_text-billed settings unreachable later runtime retrying-Retries
      unreachable-LeavesAccounts allowed

OwnLimit-ends_example :
    generate_text settings (outside (λ s. (failed daily_cap, s))) runtime
    ≡ (failed daily_cap, record (begun runtime) { calls = [] })
OwnLimit-ends_example =
    OwnLimit-ends settings (outside (λ s. (failed daily_cap, s))) later runtime (begun runtime)
      daily_cap retrying-Retries allowed tt refl

fallback_answers : (generate_text settings unreachable runtime).0 ≡ answered "Done."
unfolding generate_text allow_request is_retryable_error
fallback_answers = refl

abbrev talk : List Message
talk =
    record { kind = user; content = "Hello"; function_id = "" }
    ∷ record { kind = function; content = "A long result"; function_id = "f1" }
    ∷ record { kind = user; content = "Thanks"; function_id = "" }
    ∷ []

trim_messages_lem_example :
    Ends (trim_messages 1 4 0 talk) (truncated 4 talk)
    × (0 < 1 → users (trim_messages 1 4 0 talk) ≤ 1)
    × (0 < 0 → (chars_of (trim_messages 1 4 0 talk) ≤ 0) ⊎ (users (trim_messages 1 4 0 talk) ≤ 1))
trim_messages_lem_example = trim_messages_lem 1 4 0 talk (omega arith)
