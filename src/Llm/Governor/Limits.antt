-- ===== src/Llm/Governor/Limits.antt =====
-- What ai/governor.py lets through.
use lantern_task_manager.Base.{
  ℕ, ◌+◌, ◌-◌, ◌*◌, ◌≤◌, ◌≡◌, ◌≢◌, refl, sym, subst, Option, none, some, arith, ltb, inl, inr,
  Bool-cases,
}
use lantern_task_manager.Llm.Usage.{DailyUsageTotals}
use lantern_task_manager.Llm.Governor.{
  Verdict, granted, rate_limited, daily_cap_exceeded, waiting, TokenBucket, GovernorSettings,
  LlmGovernor, parts, Admission, check_daily_caps, after_interval, after_tpm, after_rpm,
  tpm_acquire, rpm_acquire, acquire,
}
use lantern_task_manager.Llm.Governor.Bucket.{
  Sleeps, IsBucket, spent, bucket_acquire-Conserves, bucket_acquire_ends,
}

abbrev pub By : ℕ → Option ℕ → Type 0
By now none = Unit
By now (some last) = last ≤ now

pub By-later : (last : Option ℕ) {now later : ℕ} → now ≤ later → By now last → By later last
By-later none le b = tt
By-later (some last) le b = omega (arith, le, b)

-- Both buckets are of the settings' sizes; they were filled, and a request was let through, by now.
pub record IsGovernor (rpm tpm now : ℕ) (g : LlmGovernor) : Type 0 where
  pub rpm_is : IsBucket (parts rpm) rpm g.rpm_bucket
  pub tpm_is : IsBucket (parts tpm) tpm g.tpm_bucket
  pub rpm_filled : g.rpm_bucket.last_refill ≤ now
  pub tpm_filled : g.tpm_bucket.last_refill ≤ now
  pub requested : By now g.last_request_at

-- A request that is let through has waited out the minimum interval and is the last one.
abbrev pub Spaced : ℕ → Option ℕ → Admission → Type 0
Spaced interval none a = a.governor.last_request_at ≡ some a.time
Spaced interval (some last) a =
    (a.governor.last_request_at ≡ some a.time) × (last + interval ≤ a.time)

-- What a request does to the governor.
pub record Admits (rpm tpm interval now : ℕ) (g : LlmGovernor) (a : Admission) : Type 0 where
  pub ended : a.verdict ≢ waiting
  pub later : now ≤ a.time
  pub is_governor : IsGovernor rpm tpm a.time a.governor
  pub budget :
      a.governor.rpm_bucket.tokens + spent a.verdict (parts 1) + g.rpm_bucket.last_refill * rpm
      ≤ g.rpm_bucket.tokens + a.governor.rpm_bucket.last_refill * rpm
  pub spaced : a.verdict ≡ granted → Spaced interval g.last_request_at a

module _ (settings : GovernorSettings) (sleep : ℕ → ℕ → ℕ) (sleeps : Sleeps sleep)
    (rpm tpm : ℕ) where
  -- The wait for the interval changes no bucket.
  record Waits (now : ℕ) (g : LlmGovernor) (last : Option ℕ) (a : Admission) : Type 0 where
    ended : a.verdict ≢ waiting
    later : now ≤ a.time
    same_rpm : a.governor.rpm_bucket ≡ g.rpm_bucket
    same_tpm : a.governor.tpm_bucket ≡ g.tpm_bucket
    requested : By now g.last_request_at → By a.time a.governor.last_request_at
    spaced : By now last → a.verdict ≡ granted → Spaced settings.llm_request_min_interval_ms last a

  Waits-now :
      (now : ℕ) (g : LlmGovernor) (last : Option ℕ)
      → (By now last
          → Spaced settings.llm_request_min_interval_ms last (record {
            verdict = granted;
            time = now;
            governor = record g { last_request_at = some now };
          }))
      → Waits now g last (record {
        verdict = granted;
        time = now;
        governor = record g { last_request_at = some now };
      })
  Waits-now now g last f = record {
    ended = λ e. cc;
    later = omega arith;
    same_rpm = refl;
    same_tpm = refl;
    requested = λ _. omega arith;
    spaced = λ b _. f b;
  }

  after_interval-Waits :
      (now : ℕ) (g : LlmGovernor) (last : Option ℕ)
      → Waits now g last (after_interval settings sleep now g last)
  after_interval-Waits now g none = Waits-now now g none (λ _. refl)
  after_interval-Waits now g (some last) =
      let remaining = settings.llm_request_min_interval_ms + last - now in
      let wakes = sleeps now remaining in
      elim (Bool-cases (ltb 0 settings.llm_request_min_interval_ms)) [
        | inr off ↦ rw off (Waits-now now g (some last) (λ b. (refl, ground (arith, off, b))))
        | inl on ↦ elim (Bool-cases (ltb 0 remaining)) [
          | inr h ↦ rw (on, h) (Waits-now now g (some last) (λ _. (refl, ground (arith, h))))
          | inl h ↦ elim (Bool-cases (ltb settings.llm_governor_max_wait_ms remaining)) [
            | inl k ↦
                rw (on, h, k)
                  (record {
                    ended = λ e. cc;
                    later = omega arith;
                    same_rpm = refl;
                    same_tpm = refl;
                    requested = λ b. b;
                    spaced = λ _ e. absurd (cc);
                  })
            | inr k ↦
                rw (on, h, k)
                  (record {
                    ended = λ e. cc;
                    later = omega (arith, wakes);
                    same_rpm = refl;
                    same_tpm = refl;
                    requested = λ b. omega arith;
                    spaced = λ _ _. (refl, omega (arith, wakes));
                  })
          ]
        ]
      ]

  record Settled (v : Verdict) (now : ℕ) (g : LlmGovernor) (a : Admission) : Type 0 where
    ended : a.verdict ≢ waiting
    later : now ≤ a.time
    is_governor : IsGovernor rpm tpm a.time a.governor
    same_rpm : a.governor.rpm_bucket ≡ g.rpm_bucket
    cost : spent a.verdict (parts 1) ≤ spent v (parts 1)
    spaced : a.verdict ≡ granted → Spaced settings.llm_request_min_interval_ms g.last_request_at a

  spent-le : (v : Verdict) (n : ℕ) → spent v n ≤ n
  spent-le granted n = omega arith
  spent-le rate_limited n = omega arith
  spent-le daily_cap_exceeded n = omega arith
  spent-le waiting n = omega arith

  Settled-now :
      (u v : Verdict) (now : ℕ) (g : LlmGovernor)
      → v ≢ waiting
      → v ≢ granted
      → spent v (parts 1) ≤ spent u (parts 1)
      → IsGovernor rpm tpm now g
      → Settled u now g (record { verdict = v; time = now; governor = g })
  Settled-now u v now g ended refused cost is = record {
    ended = ended;
    later = omega arith;
    is_governor = is;
    same_rpm = refl;
    cost = cost;
    spaced = λ e. absurd (refused e);
  }

  after_tpm-Settled :
      (v : Verdict) (now : ℕ) (g : LlmGovernor)
      → v ≢ waiting
      → IsGovernor rpm tpm now g
      → Settled granted now g (after_tpm settings sleep g v now)
  after_tpm-Settled granted now g _ is =
      let w = after_interval-Waits now g g.last_request_at in
      let a = after_interval settings sleep now g g.last_request_at in
      record {
        ended = w.ended;
        later = w.later;
        is_governor = record {
          rpm_is = subst (λ b. IsBucket (parts rpm) rpm b) (sym w.same_rpm) is.rpm_is;
          tpm_is = subst (λ b. IsBucket (parts tpm) tpm b) (sym w.same_tpm) is.tpm_is;
          rpm_filled =
              subst (λ (b : TokenBucket). b.last_refill ≤ a.time) (sym w.same_rpm)
                (omega (arith, w.later, is.rpm_filled));
          tpm_filled =
              subst (λ (b : TokenBucket). b.last_refill ≤ a.time) (sym w.same_tpm)
                (omega (arith, w.later, is.tpm_filled));
          requested = w.requested is.requested;
        };
        same_rpm = w.same_rpm;
        cost = spent-le a.verdict (parts 1);
        spaced = w.spaced is.requested;
      }
  after_tpm-Settled rate_limited now g _ is =
      Settled-now granted rate_limited now g (λ e. cc) (λ e. cc) (omega arith) is
  after_tpm-Settled daily_cap_exceeded now g _ is =
      Settled-now granted daily_cap_exceeded now g (λ e. cc) (λ e. cc) (omega arith) is
  after_tpm-Settled waiting now g h is = absurd (h refl)

  after_rpm-Settled :
      (estimated : ℕ) (v : Verdict) (now : ℕ) (g : LlmGovernor)
      → v ≢ waiting
      → IsGovernor rpm tpm now g
      → Settled v now g (after_rpm settings sleep estimated g v now)
  after_rpm-Settled estimated granted now g _ is =
      let w = tpm_acquire settings sleep estimated now g in
      let kept =
        bucket_acquire-Conserves sleep sleeps (parts tpm) tpm _ settings.llm_governor_max_wait_ms
          now g.tpm_bucket is.tpm_is is.tpm_filled in
      let s =
        after_tpm-Settled w.verdict w.time (record g { tpm_bucket = w.bucket })
          (bucket_acquire_ends sleep sleeps _ settings.llm_governor_max_wait_ms now g.tpm_bucket)
          (record {
            rpm_is = is.rpm_is;
            tpm_is = kept.is_bucket;
            rpm_filled = omega (arith, is.rpm_filled, kept.later);
            tpm_filled = kept.filled;
            requested = By-later g.last_request_at kept.later is.requested;
          }) in
      record {
        ended = s.ended;
        later = omega (arith, s.later, kept.later);
        is_governor = s.is_governor;
        same_rpm = s.same_rpm;
        cost = s.cost;
        spaced = s.spaced;
      }
  after_rpm-Settled estimated rate_limited now g _ is =
      Settled-now rate_limited rate_limited now g (λ e. cc) (λ e. cc) (omega arith) is
  after_rpm-Settled estimated daily_cap_exceeded now g _ is =
      Settled-now daily_cap_exceeded daily_cap_exceeded now g (λ e. cc) (λ e. cc) (omega arith) is
  after_rpm-Settled estimated waiting now g h is = absurd (h refl)

-- Where sleeping lasts as long as asked at least, a request of a governor whose buckets are of the
-- settings' sizes ends, let through or refused; it keeps the buckets so, spends one request of the
-- first bucket if it is let through and never more than that bucket has and gains, and then comes no
-- earlier than the minimum interval after the last one.
pub acquire-Admits :
    (settings : GovernorSettings) (sleep : ℕ → ℕ → ℕ) (rpm tpm estimated : ℕ)
    (totals : Option DailyUsageTotals) (now : ℕ) (g : LlmGovernor)
    → Sleeps sleep
    → IsGovernor rpm tpm now g
    → Admits rpm tpm settings.llm_request_min_interval_ms now g
        (acquire settings sleep estimated totals now g)
unfolding acquire
acquire-Admits settings sleep rpm tpm estimated totals now g sleeps is =
    elim (Bool-cases (check_daily_caps settings totals)) [
      | inl capped ↦ rw capped (record {
        ended = λ e. cc;
        later = omega arith;
        is_governor = is;
        budget = omega arith;
        spaced = λ e. absurd cc;
      })
      | inr free ↦
          let w = rpm_acquire settings sleep now g in
          let kept =
            bucket_acquire-Conserves sleep sleeps (parts rpm) rpm _
              settings.llm_governor_max_wait_ms now g.rpm_bucket is.rpm_is is.rpm_filled in
          let s =
            after_rpm-Settled settings sleep sleeps rpm tpm estimated w.verdict w.time
              (record g { rpm_bucket = w.bucket })
              (bucket_acquire_ends sleep sleeps _ settings.llm_governor_max_wait_ms now
                g.rpm_bucket)
              (record {
                rpm_is = kept.is_bucket;
                tpm_is = is.tpm_is;
                rpm_filled = kept.filled;
                tpm_filled = omega (arith, is.tpm_filled, kept.later);
                requested = By-later g.last_request_at kept.later is.requested;
              }) in
          let a =
            after_rpm settings sleep estimated (record g { rpm_bucket = w.bucket }) w.verdict
              w.time in
          rw free (record {
            ended = s.ended;
            later = omega (arith, s.later, kept.later);
            is_governor = s.is_governor;
            budget =
                subst
                  (λ (b : TokenBucket).
                    b.tokens + spent a.verdict (parts 1) + g.rpm_bucket.last_refill * rpm
                    ≤ g.rpm_bucket.tokens + b.last_refill * rpm)
                  (sym s.same_rpm) (omega (arith, kept.budget, s.cost));
            spaced = s.spaced;
          })
    ]
