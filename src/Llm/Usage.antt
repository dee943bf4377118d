-- ===== src/Llm/Usage.antt =====
-- storage/llm_usage.py: the usage of each day, provider and model.
pub mod Totals
use Prim.Native.Nat.{max}
use lantern_task_manager.Base.{
  ℕ, ◌+◌, String, Bool, true, false, ◌&&◌, Option, none, some, List, [], ◌∷◌, ◌++◌, ◌==◌, eqb, keep,
  if◌then◌else◌,
}

pub record LlmUsageDaily : Type 0 where
  pub usage_date : ℕ
  pub provider : String
  pub model_id : String
  pub request_count : ℕ
  pub prompt_tokens : ℕ
  pub completion_tokens : ℕ
  pub fallback_count : ℕ
  pub error_count : ℕ

pub record DailyUsageTotals : Type 0 where
  pub request_count : ℕ
  pub prompt_tokens : ℕ
  pub completion_tokens : ℕ
  pub fallback_count : ℕ
  pub error_count : ℕ

pub data UsageOutcome : Type 0 where
  success fallback error : UsageOutcome

abbrev pub no_usage : DailyUsageTotals
no_usage = record {
  request_count = 0;
  prompt_tokens = 0;
  completion_tokens = 0;
  fallback_count = 0;
  error_count = 0;
}

abbrev pub plus_row : DailyUsageTotals → LlmUsageDaily → DailyUsageTotals
plus_row totals row = record {
  request_count = totals.request_count + row.request_count;
  prompt_tokens = totals.prompt_tokens + row.prompt_tokens;
  completion_tokens = totals.completion_tokens + row.completion_tokens;
  fallback_count = totals.fallback_count + row.fallback_count;
  error_count = totals.error_count + row.error_count;
}

abbrev pub plus_rows : DailyUsageTotals → List LlmUsageDaily → DailyUsageTotals
plus_rows totals [] = totals
plus_rows totals (row ∷ rows) = plus_rows (plus_row totals row) rows

unfoldable pub get_daily_totals : ℕ → List LlmUsageDaily → DailyUsageTotals
get_daily_totals target rows =
    plus_rows no_usage (keep (λ (row : LlmUsageDaily). eqb row.usage_date target) rows)

abbrev pub fallback_inc : UsageOutcome → ℕ
fallback_inc fallback = 1
fallback_inc success = 0
fallback_inc error = 0

abbrev pub error_inc : UsageOutcome → ℕ
error_inc error = 1
error_inc success = 0
error_inc fallback = 0

-- The arguments of `record_usage`, whose token counts are no less than 0.
pub record Usage : Type 0 where
  pub usage_date : ℕ
  pub provider : String
  pub model_id : String
  pub prompt_tokens : ℕ
  pub completion_tokens : ℕ
  pub outcome : UsageOutcome
  pub request_count : ℕ

abbrev pub is_row_of : Usage → LlmUsageDaily → Bool
is_row_of u row =
    eqb row.usage_date u.usage_date && row.provider == u.provider && row.model_id == u.model_id

abbrev pub first_row : Usage → LlmUsageDaily
first_row u = record {
  usage_date = u.usage_date;
  provider = u.provider;
  model_id = u.model_id;
  request_count = max 1 u.request_count;
  prompt_tokens = u.prompt_tokens;
  completion_tokens = u.completion_tokens;
  fallback_count = fallback_inc u.outcome;
  error_count = error_inc u.outcome;
}

abbrev pub plus_usage : Usage → LlmUsageDaily → LlmUsageDaily
plus_usage u row = record row {
  request_count = row.request_count + max 1 u.request_count;
  prompt_tokens = row.prompt_tokens + u.prompt_tokens;
  completion_tokens = row.completion_tokens + u.completion_tokens;
  fallback_count = row.fallback_count + fallback_inc u.outcome;
  error_count = row.error_count + error_inc u.outcome;
}

-- The first row of the day, provider and model is updated, or a new one is added.
unfoldable pub record_usage : Usage → List LlmUsageDaily → List LlmUsageDaily
record_usage u [] = first_row u ∷ []
record_usage u (row ∷ rows) =
    let rest = record_usage u rows in
    if is_row_of u row then plus_usage u row ∷ rows else row ∷ rest
