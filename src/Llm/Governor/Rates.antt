-- ===== src/Llm/Governor/Rates.antt =====
-- The requests that ai/governor.py lets through over time.
use Prim.Native.Nat.{max}
use lantern_task_manager.Base.{
  ℕ, ◌+◌, ◌*◌, ◌≤◌, ◌≡◌, refl, subst, sym, Option, List, [], ◌∷◌, arith, leb, inl, inr, Bool-cases,
}
use lantern_task_manager.Llm.Usage.{DailyUsageTotals}
use lantern_task_manager.Llm.Governor.{
  Verdict, granted, rate_limited, daily_cap_exceeded, waiting, TokenBucket, GovernorSettings,
  LlmGovernor, new_governor, parts, acquire, record_token_usage,
}
use lantern_task_manager.Llm.Governor.Bucket.{Sleeps, spent, mul_mono}
use lantern_task_manager.Llm.Governor.Limits.{IsGovernor, By-later, acquire-Admits}

-- A request that comes some time after the one before it has ended, and what it then uses.
pub record Request : Type 0 where
  pub pause : ℕ
  pub estimated_tokens : ℕ
  pub totals : Option DailyUsageTotals
  pub prompt_tokens : ℕ
  pub completion_tokens : ℕ

pub record Served : Type 0 where
  pub count : ℕ
  pub time : ℕ
  pub governor : LlmGovernor

abbrev used : Request → Verdict → LlmGovernor → LlmGovernor
used r granted g = record_token_usage r.prompt_tokens r.completion_tokens g
used r rate_limited g = g
used r daily_cap_exceeded g = g
used r waiting g = g

abbrev one_more : Verdict → ℕ → ℕ
one_more granted n = n + 1
one_more rate_limited n = n
one_more daily_cap_exceeded n = n
one_more waiting n = n

parts-one_more : (v : Verdict) (n : ℕ) → parts (one_more v n) ≡ parts n + spent v (parts 1)
parts-one_more granted n = omega arith
parts-one_more rate_limited n = omega arith
parts-one_more daily_cap_exceeded n = omega arith
parts-one_more waiting n = omega arith

record Uses (rpm tpm now : ℕ) (g h : LlmGovernor) : Type 0 where
  is_governor : IsGovernor rpm tpm now h
  same_rpm : h.rpm_bucket ≡ g.rpm_bucket

record_token_usage-Uses :
    (rpm tpm now prompt completion : ℕ) (g : LlmGovernor)
    → IsGovernor rpm tpm now g
    → Uses rpm tpm now g (record_token_usage prompt completion g)
unfolding record_token_usage
record_token_usage-Uses rpm tpm now prompt completion g is =
    elim (Bool-cases (leb (prompt + completion) 1)) [
      | inl h ↦ rw h (record { is_governor = is; same_rpm = refl })
      | inr h ↦ rw h (record {
        is_governor = record {
          rpm_is = is.rpm_is;
          tpm_is = (is.tpm_is.0, is.tpm_is.1, omega (arith, is.tpm_is.2));
          rpm_filled = is.rpm_filled;
          tpm_filled = is.tpm_filled;
          requested = is.requested;
        };
        same_rpm = refl;
      })
    ]

used-Uses :
    (rpm tpm now : ℕ) (r : Request) (v : Verdict) (g : LlmGovernor)
    → IsGovernor rpm tpm now g
    → Uses rpm tpm now g (used r v g)
used-Uses rpm tpm now r granted g is =
    record_token_usage-Uses rpm tpm now r.prompt_tokens r.completion_tokens g is
used-Uses rpm tpm now r rate_limited g is = record { is_governor = is; same_rpm = refl }
used-Uses rpm tpm now r daily_cap_exceeded g is = record { is_governor = is; same_rpm = refl }
used-Uses rpm tpm now r waiting g is = record { is_governor = is; same_rpm = refl }

module _ (settings : GovernorSettings) (sleep : ℕ → ℕ → ℕ) where
  unfoldable pub serve : List Request → Served → Served
  serve [] s = s
  serve (r ∷ rs) s =
      let a = acquire settings sleep r.estimated_tokens r.totals (s.time + r.pause) s.governor in
      serve rs (record {
        count = one_more a.verdict s.count;
        time = a.time;
        governor = used r a.verdict a.governor;
      })

  module _ (sleeps : Sleeps sleep) (rpm tpm : ℕ) where
    -- What the requests so far have spent of what the first bucket has had.
    record Within (start : ℕ) (s : Served) : Type 0 where
      is_governor : IsGovernor rpm tpm s.time s.governor
      since : start ≤ s.time
      spends :
          s.governor.rpm_bucket.tokens + parts s.count + start * rpm
          ≤ parts rpm + s.governor.rpm_bucket.last_refill * rpm

    serve-Within :
        (start : ℕ) (rs : List Request) (s : Served) → Within start s → Within start (serve rs s)
    unfolding serve
    serve-Within start [] s w = w
    serve-Within start (r ∷ rs) s w =
        let now = s.time + r.pause in
        let g = s.governor in
        let is : IsGovernor rpm tpm now g = record {
          rpm_is = w.is_governor.rpm_is;
          tpm_is = w.is_governor.tpm_is;
          rpm_filled = omega (arith, w.is_governor.rpm_filled);
          tpm_filled = omega (arith, w.is_governor.tpm_filled);
          requested = By-later g.last_request_at (omega arith) w.is_governor.requested;
        } in
        let a = acquire settings sleep r.estimated_tokens r.totals now g in
        let ad =
          acquire-Admits settings sleep rpm tpm r.estimated_tokens r.totals now g sleeps is in
        let u = used-Uses rpm tpm a.time r a.verdict a.governor ad.is_governor in
        serve-Within start rs _ (record {
          is_governor = u.is_governor;
          since = omega (arith, w.since, ad.later);
          spends =
              subst
                (λ (b : TokenBucket).
                  b.tokens + parts (one_more a.verdict s.count) + start * rpm
                  ≤ parts rpm + b.last_refill * rpm)
                (sym u.same_rpm)
                (omega (arith, parts-one_more a.verdict s.count, ad.budget, w.spends));
        })

-- Where sleeping lasts as long as asked at least, a new governor lets through, of any requests that
-- come one after the other, at most the limit of requests a minute, and as many again for each minute
-- that has passed: counted in sixty-thousandths and milliseconds, at most 60,000 times the limit, and
-- the limit for each millisecond.
pub serve_rate :
    (settings : GovernorSettings) (sleep : ℕ → ℕ → ℕ) (start : ℕ) (rs : List Request)
    → Sleeps sleep
    → let rpm = max 1 settings.llm_rate_limit_rpm in
      let s =
        serve settings sleep rs
          (record { count = 0; time = start; governor = new_governor start settings }) in
      s.count * 60000 + start * rpm ≤ rpm * 60000 + s.time * rpm
serve_rate settings sleep start rs sleeps =
    let rpm = max 1 settings.llm_rate_limit_rpm in
    let tpm = max 1 settings.llm_rate_limit_tpm in
    let fresh : Served = record {
      count = 0;
      time = start;
      governor = new_governor start settings;
    } in
    let w = serve-Within settings sleep sleeps rpm tpm start rs fresh (record {
      is_governor = record {
        rpm_is = (refl, refl, omega arith);
        tpm_is = (refl, refl, omega arith);
        rpm_filled = omega arith;
        tpm_filled = omega arith;
        requested = tt;
      };
      since = omega arith;
      spends = omega arith;
    }) in
    let s = serve settings sleep rs fresh in
    omega (
      arith,
      w.spends,
      mul_mono s.governor.rpm_bucket.last_refill s.time rpm w.is_governor.rpm_filled,
    )
