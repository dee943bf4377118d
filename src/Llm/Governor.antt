-- ===== src/Llm/Governor.antt =====
-- ai/governor.py. Times are in milliseconds and tokens in parts of 60,000 to the token, so that a
-- bucket of `n` tokens a minute gains `n` parts a millisecond; the source's floating point numbers are
-- exact here. The clock stands still but in `asyncio.sleep`, which is a parameter: the time at which
-- a sleep of a given length ends. An integer setting below 0 counts as 0.
pub mod Bucket
pub mod Limits
pub mod Rates
pub mod Progress
use Prim.Native.Nat.{min, max}
use lantern_task_manager.Base.{
  ℕ, zero, suc, ◌+◌, ◌-◌, ◌*◌, Bool, true, false, ◌&&◌, ◌||◌, Option, none, some, leb, ltb,
  if◌then◌else◌,
}
use lantern_task_manager.Llm.Usage.{DailyUsageTotals}

-- `waiting` is the model's own: the loop ran out of fuel.
pub data Verdict : Type 0 where
  granted rate_limited daily_cap_exceeded waiting : Verdict

pub record TokenBucket : Type 0 where
  pub capacity : ℕ
  pub refill_per_ms : ℕ
  pub tokens : ℕ
  pub last_refill : ℕ

pub record GovernorSettings : Type 0 where
  pub llm_rate_limit_rpm : ℕ
  pub llm_rate_limit_tpm : ℕ
  pub llm_request_min_interval_ms : ℕ
  pub llm_daily_request_limit : ℕ
  pub llm_daily_token_limit : ℕ
  pub llm_governor_max_wait_ms : ℕ

pub record LlmGovernor : Type 0 where
  pub rpm_bucket : TokenBucket
  pub tpm_bucket : TokenBucket
  pub last_request_at : Option ℕ

abbrev pub parts : ℕ → ℕ
parts n = n * 60000

abbrev pub new_bucket : ℕ → ℕ → TokenBucket
new_bucket now n = record {
  capacity = parts n;
  refill_per_ms = n;
  tokens = parts n;
  last_refill = now;
}

abbrev pub new_governor : ℕ → GovernorSettings → LlmGovernor
new_governor now settings = record {
  rpm_bucket = new_bucket now (max 1 settings.llm_rate_limit_rpm);
  tpm_bucket = new_bucket now (max 1 settings.llm_rate_limit_tpm);
  last_request_at = none;
}

unfoldable pub refill : ℕ → TokenBucket → TokenBucket
refill now b = if leb now b.last_refill then b else record b {
  tokens = min b.capacity (b.tokens + (now - b.last_refill) * b.refill_per_ms);
  last_refill = now;
}

-- The end of a wait: the verdict, the time, and the bucket.
pub record Waited : Type 0 where
  pub verdict : Verdict
  pub time : ℕ
  pub bucket : TokenBucket

abbrev pub spend : ℕ → TokenBucket → TokenBucket
spend amount b = record b { tokens = b.tokens - amount }

module _ (sleep : ℕ → ℕ → ℕ) where
  unfoldable pub acquire_loop : ℕ → ℕ → ℕ → ℕ → TokenBucket → Waited
  acquire_loop zero amount deadline now b = record { verdict = waiting; time = now; bucket = b }
  acquire_loop (suc fuel) amount deadline now b =
      let filled = refill now b in
      let rest = acquire_loop fuel amount deadline (sleep now (min 50 (deadline - now))) filled in
      if leb amount filled.tokens
      then record { verdict = granted; time = now; bucket = spend amount filled }
      else if leb deadline now
      then record { verdict = rate_limited; time = now; bucket = filled }
      else rest

  -- A sleep takes a millisecond at least, so one more turn than `max_wait` has is enough.
  unfoldable pub bucket_acquire : ℕ → ℕ → ℕ → TokenBucket → Waited
  bucket_acquire amount max_wait now b = acquire_loop (suc max_wait) amount (now + max_wait) now b

-- Whether a daily limit blocks the request; `none` stands for totals that could not be read.
unfoldable pub check_daily_caps : GovernorSettings → Option DailyUsageTotals → Bool
check_daily_caps settings none = false
check_daily_caps settings (some totals) =
    (ltb 0 settings.llm_daily_request_limit
      && leb settings.llm_daily_request_limit totals.request_count)
    || (ltb 0 settings.llm_daily_token_limit
        && leb settings.llm_daily_token_limit (totals.prompt_tokens + totals.completion_tokens))

pub record Admission : Type 0 where
  pub verdict : Verdict
  pub time : ℕ
  pub governor : LlmGovernor

abbrev pub token_cost : ℕ → ℕ
token_cost estimated_tokens = if ltb 0 estimated_tokens then max 1 estimated_tokens else 1

module _ (settings : GovernorSettings) (sleep : ℕ → ℕ → ℕ) where
  abbrev pub at_interval : ℕ → LlmGovernor → ℕ → Admission
  at_interval now g remaining =
      if ltb 0 remaining
      then if ltb settings.llm_governor_max_wait_ms remaining
        then record { verdict = rate_limited; time = now; governor = g }
        else record {
          verdict = granted;
          time = sleep now remaining;
          governor = record g { last_request_at = some (sleep now remaining) };
        }
      else record {
        verdict = granted;
        time = now;
        governor = record g { last_request_at = some now };
      }

  -- The minimum interval between two requests.
  abbrev pub after_interval : ℕ → LlmGovernor → Option ℕ → Admission
  after_interval now g none = at_interval now g 0
  after_interval now g (some last) =
      if ltb 0 settings.llm_request_min_interval_ms
      then at_interval now g (settings.llm_request_min_interval_ms + last - now)
      else at_interval now g 0

  abbrev pub after_tpm : LlmGovernor → Verdict → ℕ → Admission
  after_tpm g granted now = after_interval now g g.last_request_at
  after_tpm g rate_limited now = record { verdict = rate_limited; time = now; governor = g }
  after_tpm g daily_cap_exceeded now = record {
    verdict = daily_cap_exceeded;
    time = now;
    governor = g;
  }
  after_tpm g waiting now = record { verdict = waiting; time = now; governor = g }

  abbrev pub tpm_acquire : ℕ → ℕ → LlmGovernor → Waited
  tpm_acquire estimated_tokens now g =
      bucket_acquire sleep (parts (token_cost estimated_tokens)) settings.llm_governor_max_wait_ms
        now g.tpm_bucket

  abbrev pub after_rpm : ℕ → LlmGovernor → Verdict → ℕ → Admission
  after_rpm estimated_tokens g granted now =
      let w = tpm_acquire estimated_tokens now g in
      after_tpm (record g { tpm_bucket = w.bucket }) w.verdict w.time
  after_rpm estimated_tokens g rate_limited now = record {
    verdict = rate_limited;
    time = now;
    governor = g;
  }
  after_rpm estimated_tokens g daily_cap_exceeded now = record {
    verdict = daily_cap_exceeded;
    time = now;
    governor = g;
  }
  after_rpm estimated_tokens g waiting now = record { verdict = waiting; time = now; governor = g }

  abbrev pub rpm_acquire : ℕ → LlmGovernor → Waited
  rpm_acquire now g =
      bucket_acquire sleep (parts 1) settings.llm_governor_max_wait_ms now g.rpm_bucket

  unfoldable pub acquire : ℕ → Option DailyUsageTotals → ℕ → LlmGovernor → Admission
  unfolding check_daily_caps
  acquire estimated_tokens totals now g =
      let w = rpm_acquire now g in
      if check_daily_caps settings totals
      then record { verdict = daily_cap_exceeded; time = now; governor = g }
      else after_rpm estimated_tokens (record g { rpm_bucket = w.bucket }) w.verdict w.time

-- The actual tokens of a call, less the one that `acquire` has taken.
unfoldable pub record_token_usage : ℕ → ℕ → LlmGovernor → LlmGovernor
record_token_usage prompt_tokens completion_tokens g =
    let actual = prompt_tokens + completion_tokens in
    if leb actual 1 then g else record g { tpm_bucket = spend (parts (actual - 1)) g.tpm_bucket }
