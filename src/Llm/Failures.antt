-- ===== src/Llm/Failures.antt =====
-- The failures of a model call: ai/groq_rate_limit.py and the tests of ai/gateway.py. Seconds are
-- written in milliseconds. `float` and the pattern "try again in ...s" are parameters.
use Prim.Native.String.{String}
use lantern_task_manager.Base.{
  ℕ, ◌+◌, Bool, false, ◌||◌, Option, none, some, List, [], ◌∷◌, eqb, any_of, lower, contains,
  truthy, if◌then◌else◌,
}

pub record Response : Type 0 where
  pub status_code : Option ℕ
  pub headers : String → Option String
  pub text : String

-- What the tests read of an exception. `connection` stands for APITimeoutError, APIConnectionError
-- and asyncio.TimeoutError, and `text` for its `str`.
pub record ProviderError : Type 0 where
  pub connection : Bool
  pub status_code : Option ℕ
  pub response : Option Response
  pub text : String

pub data Failure : Type 0 where
  circuit_open rate_limit daily_cap out_of_fuel : Failure
  provider_error : ProviderError → Failure

abbrev has_status : List ℕ → Option ℕ → Bool
has_status codes none = false
has_status codes (some code) = any_of (eqb code) codes

abbrev response_status : Option Response → Option ℕ
response_status none = none
response_status (some r) = r.status_code

abbrev says : List String → ProviderError → Bool
says markers e = any_of (λ marker. contains marker (lower e.text)) markers

abbrev retryable_status : List ℕ
retryable_status = 413 ∷ 429 ∷ 502 ∷ 503 ∷ 504 ∷ []

abbrev retryable_markers : List String
retryable_markers =
    "rate_limit_exceeded" ∷ "rate limit" ∷ "request too large" ∷ "tokens per minute" ∷ "tpm" ∷ []

unfoldable pub is_retryable_error : Failure → Bool
is_retryable_error circuit_open = false
is_retryable_error rate_limit = false
is_retryable_error daily_cap = false
is_retryable_error out_of_fuel = false
is_retryable_error (provider_error e) =
    e.connection
    || has_status retryable_status e.status_code
    || has_status retryable_status (response_status e.response)
    || says retryable_markers e

abbrev rate_limit_markers : List String
rate_limit_markers =
    "429" ∷ "413" ∷ "rate_limit" ∷ "rate limit" ∷ "request too large" ∷ "tokens per minute" ∷ []

unfoldable pub is_groq_rate_limit_error : ProviderError → Bool
is_groq_rate_limit_error e = says rate_limit_markers e || has_status (413 ∷ 429 ∷ []) e.status_code

-- `headers.get("retry-after") or headers.get("Retry-After")`
abbrev retry_header : (String → Option String) → Option String
retry_header headers = elim (headers "retry-after") [
  | none ↦ headers "Retry-After"
  | some raw ↦ if truthy raw then some raw else headers "Retry-After"
]

module _ (float : String → Option ℕ) (try_again_in : String → Option ℕ) where
  abbrev header_delay : Option Response → Option ℕ
  header_delay none = none
  header_delay (some r) = elim (retry_header r.headers) [ none ↦ none | some raw ↦ float raw ]

  -- A failure of the repository's own has no response.
  unfoldable pub retry_after : Failure → Option ℕ
  retry_after (provider_error e) = header_delay e.response
  retry_after circuit_open = none
  retry_after rate_limit = none
  retry_after daily_cap = none
  retry_after out_of_fuel = none

  abbrev pub plus_margin : Option ℕ → ℕ → ℕ
  plus_margin none default = default
  plus_margin (some delay) default = delay + 500

  abbrev in_response : Option Response → ℕ → ℕ
  in_response none default = default
  in_response (some r) default = plus_margin (try_again_in r.text) default

  unfoldable pub parse_groq_retry : ProviderError → ℕ → ℕ
  parse_groq_retry e default = elim (try_again_in e.text) [
    | none ↦ in_response e.response default
    | some delay ↦ plus_margin (some delay) default
  ]
