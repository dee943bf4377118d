-- ===== src/Llm/Governor/Progress.antt =====
-- When ai/governor.py lets a request through.
use lantern_task_manager.Base.{ℕ, zero, suc, ◌*◌, ◌≤◌, ◌≡◌, refl, false, Option, none, some, arith}
use lantern_task_manager.Llm.Usage.{DailyUsageTotals}
use lantern_task_manager.Llm.Governor.{
  Verdict, granted, GovernorSettings, LlmGovernor, parts, token_cost, check_daily_caps,
  after_interval, after_tpm, tpm_acquire, rpm_acquire, acquire,
}
use lantern_task_manager.Llm.Governor.Bucket.{
  Sleeps, bucket_acquire_grants, bucket_acquire-Conserves,
}
use lantern_task_manager.Llm.Governor.Limits.{IsGovernor, By, By-later}

module _ (settings : GovernorSettings) (sleep : ℕ → ℕ → ℕ) where
  after_interval_grants :
      (now : ℕ) (g : LlmGovernor) (last : Option ℕ)
      → By now last
      → settings.llm_request_min_interval_ms ≤ settings.llm_governor_max_wait_ms
      → (after_interval settings sleep now g last).verdict ≡ granted
  after_interval_grants now g none b short = refl
  after_interval_grants now g (some last) b short = ground arith

  after_tpm_grants :
      (v : Verdict) (now : ℕ) (g : LlmGovernor)
      → v ≡ granted
      → By now g.last_request_at
      → settings.llm_request_min_interval_ms ≤ settings.llm_governor_max_wait_ms
      → (after_tpm settings sleep g v now).verdict ≡ granted
  after_tpm_grants v now g e b short = rw e (after_interval_grants now g g.last_request_at b short)

positive : (wait r : ℕ) → 60000 ≤ wait * r → parts 1 ≤ parts r
positive wait zero h = absurd (omega (arith, h))
positive wait (suc r) h = omega arith

-- A request is let through in the end: where sleeping lasts as long as asked at least, no daily limit
-- is reached, a single token is estimated, each bucket holds and gains one token within the longest
-- wait, and the minimum interval is no longer than that wait.
pub acquire_grants :
    (settings : GovernorSettings) (sleep : ℕ → ℕ → ℕ) (rpm tpm estimated : ℕ)
    (totals : Option DailyUsageTotals) (now : ℕ) (g : LlmGovernor)
    → Sleeps sleep
    → IsGovernor rpm tpm now g
    → check_daily_caps settings totals ≡ false
    → estimated ≤ 1
    → 60000 ≤ settings.llm_governor_max_wait_ms * rpm
    → 60000 ≤ settings.llm_governor_max_wait_ms * tpm
    → settings.llm_request_min_interval_ms ≤ settings.llm_governor_max_wait_ms
    → (acquire settings sleep estimated totals now g).verdict ≡ granted
unfolding acquire
acquire_grants settings sleep rpm tpm estimated totals now g sleeps is free one quick quick' short =
    let max_wait = settings.llm_governor_max_wait_ms in
    let w = rpm_acquire settings sleep now g in
    let e =
      bucket_acquire_grants sleep sleeps (parts rpm) rpm (parts 1) max_wait now g.rpm_bucket
        is.rpm_is is.rpm_filled (positive max_wait rpm quick) (omega (arith, quick)) in
    let kept =
      bucket_acquire-Conserves sleep sleeps (parts rpm) rpm (parts 1) max_wait now g.rpm_bucket
        is.rpm_is is.rpm_filled in
    let cost : token_cost estimated ≡ 1 = ground (arith, one) in
    let w' = tpm_acquire settings sleep estimated w.time g in
    let fits : parts (token_cost estimated) ≤ parts tpm =
      omega (arith, cost, positive max_wait tpm quick') in
    let kept' =
      bucket_acquire-Conserves sleep sleeps (parts tpm) tpm (parts (token_cost estimated)) max_wait
        w.time g.tpm_bucket is.tpm_is (omega (arith, is.tpm_filled, kept.later)) in
    let e' =
      bucket_acquire_grants sleep sleeps (parts tpm) tpm (parts (token_cost estimated)) max_wait
        w.time g.tpm_bucket is.tpm_is (omega (arith, is.tpm_filled, kept.later)) fits
        (omega (arith, cost, quick')) in
    rw (free, e)
      (after_tpm_grants settings sleep w'.verdict w'.time _ e'
        (By-later g.last_request_at (omega (arith, kept.later, kept'.later)) is.requested) short)
