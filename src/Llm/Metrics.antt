-- ===== src/Llm/Metrics.antt =====
-- ai/groq_metrics.py. The calls of one turn are a list, which `begin_call` extends.
use lantern_task_manager.Base.{ℕ, ◌+◌, Option, none, some, List, [], ◌∷◌}

pub data GroqCallStage : Type 0 where
  initial tool_result : GroqCallStage

pub record GroqCallMetrics : Type 0 where
  pub stage : GroqCallStage
  pub prompt_tokens : ℕ
  pub completion_tokens : ℕ
  pub latency_ms : ℕ

abbrev pub new_call : GroqCallStage → GroqCallMetrics
new_call stage = record { stage = stage; prompt_tokens = 0; completion_tokens = 0; latency_ms = 0 }

abbrev pub sum_of : (GroqCallMetrics → ℕ) → List GroqCallMetrics → ℕ
sum_of f [] = 0
sum_of f (call ∷ calls) = f call + sum_of f calls

abbrev pub get_call_metrics : List GroqCallMetrics → Option GroqCallMetrics
get_call_metrics [] = none
get_call_metrics (call ∷ calls) = some (record {
  stage = initial;
  prompt_tokens = sum_of (λ (c : GroqCallMetrics). c.prompt_tokens) (call ∷ calls);
  completion_tokens = sum_of (λ (c : GroqCallMetrics). c.completion_tokens) (call ∷ calls);
  latency_ms = sum_of (λ (c : GroqCallMetrics). c.latency_ms) (call ∷ calls);
})
