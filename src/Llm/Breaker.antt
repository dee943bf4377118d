-- ===== src/Llm/Breaker.antt =====
-- ai/circuit_breaker.py. The clock of `time.monotonic` is an argument, in seconds.
pub mod History
use lantern_task_manager.Base.{ℕ, ◌+◌, Bool, true, false, Option, none, some, leb, if◌then◌else◌}

pub data CircuitState : Type 0 where
  closed opened half_open : CircuitState

pub record CircuitBreaker : Type 0 where
  pub failure_threshold : ℕ
  pub open_seconds : ℕ
  pub state : CircuitState
  pub consecutive_failures : ℕ
  pub opened_at : Option ℕ

abbrev pub new_breaker : ℕ → ℕ → CircuitBreaker
new_breaker threshold seconds = record {
  failure_threshold = threshold;
  open_seconds = seconds;
  state = closed;
  consecutive_failures = 0;
  opened_at = none;
}

-- The state at a time, by the state before it and the opening time.
abbrev pub half_opened : ℕ → ℕ → CircuitState → Option ℕ → CircuitState
half_opened now seconds opened (some since) =
    if leb (since + seconds) now then half_open else opened
half_opened now seconds opened none = opened
half_opened now seconds closed since = closed
half_opened now seconds half_open since = half_open

unfoldable pub maybe_transition_from_open : ℕ → CircuitBreaker → CircuitBreaker
maybe_transition_from_open now breaker = record breaker {
  state = half_opened now breaker.open_seconds breaker.state breaker.opened_at;
}

abbrev pub is_open : CircuitState → Bool
is_open opened = true
is_open closed = false
is_open half_open = false

abbrev pub not_open : CircuitState → Bool
not_open opened = false
not_open closed = true
not_open half_open = true

unfoldable pub allow_request : ℕ → CircuitBreaker → Bool × CircuitBreaker
unfolding maybe_transition_from_open
allow_request now breaker =
    let checked = maybe_transition_from_open now breaker in (not_open checked.state, checked)

unfoldable pub record_success : CircuitBreaker → CircuitBreaker
record_success breaker = record breaker {
  consecutive_failures = 0;
  opened_at = none;
  state = closed;
}

unfoldable pub record_failure : ℕ → CircuitBreaker → CircuitBreaker
record_failure now breaker =
    let failed : CircuitBreaker = record breaker {
      consecutive_failures = breaker.consecutive_failures + 1;
    } in
    if leb failed.failure_threshold failed.consecutive_failures
    then record failed { state = opened; opened_at = some now }
    else failed
