-- ===== src/Llm/Breaker/History.antt =====
-- The circuit breaker over a history of calls, against the failures that the history counts.
use lantern_task_manager.Base.{
  ℕ, ◌+◌, ◌≤◌, ◌≡◌, refl, ap, ◌∙◌, Bool, true, false, not, ◌&&◌, Option, none, some, List, [], ◌∷◌,
  arith, leb, ltb, inl, inr, Bool-cases,
}
use lantern_task_manager.Llm.Breaker.{
  CircuitState, closed, opened, half_open, CircuitBreaker, new_breaker, half_opened, not_open,
  allow_request, record_success, record_failure,
}

pub data Call : Type 0 where
  asks succeeds fails : Call

abbrev step : CircuitBreaker → ℕ × Call → CircuitBreaker
step breaker (now, asks) = (allow_request now breaker).1
step breaker (now, succeeds) = record_success breaker
step breaker (now, fails) = record_failure now breaker

unfoldable pub run : CircuitBreaker → List (ℕ × Call) → CircuitBreaker
run breaker [] = breaker
run breaker (c ∷ cs) = run (step breaker c) cs

-- The failures since the last success, and the time of the last of them.
abbrev Tally : Type 0
Tally = ℕ × Option ℕ

abbrev counted : Tally → ℕ × Call → Tally
counted tally (now, asks) = tally
counted tally (now, succeeds) = (0, none)
counted tally (now, fails) = (tally.0 + 1, some now)

unfoldable pub tally : Tally → List (ℕ × Call) → Tally
tally t [] = t
tally t (c ∷ cs) = tally (counted t c) cs

-- Enough failures in a row, the last of them less than the open time ago.
abbrev pub blocked : ℕ → ℕ → ℕ → Tally → Bool
blocked threshold seconds now (failures, none) = false
blocked threshold seconds now (failures, some last) =
    leb threshold failures && ltb now (last + seconds)

-- The history's times do not fall, from the given one to the given one.
abbrev pub Timely : ℕ → List (ℕ × Call) → ℕ → Type 0
Timely from [] to = from ≤ to
Timely from ((now, c) ∷ cs) to = (from ≤ now) × Timely now cs to

data Agrees (threshold seconds now : ℕ) : CircuitState → Option ℕ → Tally → Type 0 where
  untried : {since : Option ℕ} {n : ℕ} → Agrees threshold seconds now closed since (n, none)
  few :
      {since : Option ℕ} {n last : ℕ}
      → n + 1 ≤ threshold
      → Agrees threshold seconds now closed since (n, some last)
  many :
      {n last : ℕ} → threshold ≤ n → Agrees threshold seconds now opened (some last) (n, some last)
  waited :
      {n last : ℕ}
      → threshold ≤ n
      → last + seconds ≤ now
      → Agrees threshold seconds now half_open (some last) (n, some last)

record Inv (breaker : CircuitBreaker) (now : ℕ) (t : Tally) : Type 0 where
  count : breaker.consecutive_failures ≡ t.0
  agrees :
      Agrees breaker.failure_threshold breaker.open_seconds now breaker.state breaker.opened_at t

Agrees-later :
    {h s now later : ℕ} {state : CircuitState} {since : Option ℕ} {t : Tally}
    → now ≤ later
    → Agrees h s now state since t
    → Agrees h s later state since t
Agrees-later le untried = untried
Agrees-later le (few p) = few p
Agrees-later le (many p) = many p
Agrees-later {s = s} le (waited {last = last} p q) = waited p (omega arith)

half_opened-Agrees :
    {h s now : ℕ} {state : CircuitState} {since : Option ℕ} {t : Tally}
    → Agrees h s now state since t
    → Agrees h s now (half_opened now s state since) since t
half_opened-Agrees untried = untried
half_opened-Agrees (few p) = few p
half_opened-Agrees {s = s} {now = now} (many {last = last} p) =
    elim (Bool-cases (leb (last + s) now)) [
      | inl h ↦ rw h (waited p (ground (arith, h)))
      | inr h ↦ rw h (many p)
    ]
half_opened-Agrees (waited p q) = waited p q

-- A request is refused exactly where the tally says so.
answer :
    {h s now : ℕ} {state : CircuitState} {since : Option ℕ} {t : Tally}
    → Agrees h s now state since t
    → not_open (half_opened now s state since) ≡ not (blocked h s now t)
answer untried = refl
answer (few p) = ground arith
answer (many p) = ground arith
answer (waited p q) = ground arith

still_few :
    {h s now : ℕ} {state : CircuitState} {since : Option ℕ} {t : Tally}
    → leb h (t.0 + 1) ≡ false
    → Agrees h s now state since t
    → Agrees h s now state since (t.0 + 1, some now)
still_few p untried = few (ground (arith, p))
still_few p (few q) = few (ground (arith, p))
still_few p (many q) = absurd (ground (arith, p, q))
still_few p (waited q r) = absurd (ground (arith, p, q))

fails-Inv :
    (b : CircuitBreaker) (now : ℕ) (t : Tally)
    → Inv b now t
    → Inv (record_failure now b) now (t.0 + 1, some now)
unfolding record_failure
fails-Inv b now t v = elim (Bool-cases (leb b.failure_threshold (b.consecutive_failures + 1))) [
  | inl trip ↦
      rw trip
        (record { count = omega (arith, v.count); agrees = many (ground (arith, trip, v.count)) })
  | inr fine ↦ rw fine (record {
    count = omega (arith, v.count);
    agrees = still_few (ground (arith, fine, v.count)) v.agrees;
  })
]

step-Inv :
    (b : CircuitBreaker) (now : ℕ) (c : Call) (t : Tally)
    → Inv b now t
    → Inv (step b (now, c)) now (counted t (now, c))
unfolding allow_request record_success
step-Inv b now asks t v = record { count = v.count; agrees = half_opened-Agrees v.agrees }
step-Inv b now succeeds t v = record { count = refl; agrees = untried }
step-Inv b now fails t v = fails-Inv b now t v

Inv-later :
    {b : CircuitBreaker} {now later : ℕ} {t : Tally} → now ≤ later → Inv b now t → Inv b later t
Inv-later le v = record { count = v.count; agrees = Agrees-later le v.agrees }

run-Inv :
    (b : CircuitBreaker) (from to : ℕ) (cs : List (ℕ × Call)) (t : Tally)
    → Timely from cs to
    → Inv b from t
    → Inv (run b cs) to (tally t cs)
unfolding run tally
run-Inv b from to [] t h v = Inv-later h v
run-Inv b from to ((now, c) ∷ cs) t h v =
    run-Inv (step b (now, c)) now to cs (counted t (now, c)) h.1
      (step-Inv b now c t (Inv-later h.0 v))

-- No call changes the limits.
step_limits :
    (b : CircuitBreaker) (c : ℕ × Call)
    → ((step b c).failure_threshold ≡ b.failure_threshold)
      × ((step b c).open_seconds ≡ b.open_seconds)
unfolding allow_request record_success record_failure
step_limits b (now, asks) = (refl, refl)
step_limits b (now, succeeds) = (refl, refl)
step_limits b (now, fails) = ground arith

run_limits :
    (b : CircuitBreaker) (cs : List (ℕ × Call))
    → ((run b cs).failure_threshold ≡ b.failure_threshold)
      × ((run b cs).open_seconds ≡ b.open_seconds)
unfolding run
run_limits b [] = (refl, refl)
run_limits b (c ∷ cs) =
    let first = step_limits b c in
    let rest = run_limits (step b c) cs in (rest.0 ∙ first.0, rest.1 ∙ first.1)

-- After any history of a new breaker whose times do not fall, a request is refused exactly when the
-- failures since the last success are at least the threshold, and the last of them is less than the
-- open time ago.
pub run-allow_request :
    (threshold seconds now : ℕ) (cs : List (ℕ × Call))
    → Timely 0 cs now
    → (allow_request now (run (new_breaker threshold seconds) cs)).0
      ≡ not (blocked threshold seconds now (tally (0, none) cs))
unfolding allow_request
run-allow_request threshold seconds now cs h =
    let start = new_breaker threshold seconds in
    let (same, same') = run_limits start cs in
    let v = run-Inv start 0 now cs (0, none) h (record { count = refl; agrees = untried }) in
    answer v.agrees
    ∙ ap (λ h. not (blocked h (run start cs).open_seconds now (tally (0, none) cs))) same
    ∙ ap (λ s. not (blocked threshold s now (tally (0, none) cs))) same'

abbrev By : ℕ → Tally → Type 0
By now (n, none) = Unit
By now (n, some last) = last ≤ now

run-By :
    (from to : ℕ) (cs : List (ℕ × Call)) (t : Tally)
    → Timely from cs to
    → By from t
    → By to (tally t cs)
unfolding tally
run-By from to [] (n, none) h b = tt
run-By from to [] (n, some last) h b = omega arith
run-By from to ((now, asks) ∷ cs) (n, none) h b = run-By now to cs (n, none) h.1 tt
run-By from to ((now, asks) ∷ cs) (n, some last) h b =
    run-By now to cs (n, some last) h.1 (omega arith)
run-By from to ((now, succeeds) ∷ cs) t h b = run-By now to cs (0, none) h.1 tt
run-By from to ((now, fails) ∷ cs) t h b = run-By now to cs (t.0 + 1, some now) h.1 (omega arith)

unblocked :
    (threshold seconds now : ℕ) (t : Tally)
    → By now t
    → blocked threshold seconds (now + seconds) t ≡ false
unblocked threshold seconds now (n, none) b = refl
unblocked threshold seconds now (n, some last) b = ground arith

-- A breaker recovers: after any history of a new breaker whose times do not fall and end by `now`, a
-- request is let through once the open time has passed.
pub recovers :
    (threshold seconds now : ℕ) (cs : List (ℕ × Call))
    → Timely 0 cs now
    → (allow_request (now + seconds) (run (new_breaker threshold seconds) cs)).0 ≡ true
recovers threshold seconds now cs h =
    run-allow_request threshold seconds (now + seconds) cs (Timely-later 0 cs h)
    ∙ ap not (unblocked threshold seconds now (tally (0, none) cs) (run-By 0 now cs (0, none) h tt))
  where
    Timely-later :
        (from : ℕ) (cs : List (ℕ × Call)) → Timely from cs now → Timely from cs (now + seconds)
    Timely-later from [] h = omega arith
    Timely-later from ((at, c) ∷ cs) h = (h.0, Timely-later at cs h.1)
