-- ===== src/Llm/Governor/Bucket.antt =====
-- The token bucket of ai/governor.py.
use Prim.Native.Nat.{min}
use lantern_task_manager.Base.{
  ℕ, zero, suc, ◌+◌, ◌-◌, ◌*◌, ◌≤◌, ◌<◌, ◌≡◌, ◌≢◌, ◌⊎◌, refl, sym, ap, ◌∙◌, arith, leb, inl, inr,
  Bool-cases,
}
use lantern_task_manager.Llm.Governor.{
  Verdict, granted, rate_limited, daily_cap_exceeded, waiting, TokenBucket, Waited, refill, spend,
  acquire_loop, bucket_acquire,
}

-- `asyncio.sleep` returns no earlier than asked.
abbrev pub Sleeps : (ℕ → ℕ → ℕ) → Type 0
Sleeps sleep = (now delay : ℕ) → now + delay ≤ sleep now delay

abbrev pub spent : Verdict → ℕ → ℕ
spent granted amount = amount
spent rate_limited amount = 0
spent daily_cap_exceeded amount = 0
spent waiting amount = 0

abbrev pub IsBucket : ℕ → ℕ → TokenBucket → Type 0
IsBucket capacity rate b =
    (b.capacity ≡ capacity) × (b.refill_per_ms ≡ rate) × (b.tokens ≤ capacity)

-- Of the parts that a bucket had and has gained since, it has what was not spent, and never more than
-- its capacity.
pub record Conserves (capacity rate now amount : ℕ) (b : TokenBucket) (w : Waited) : Type 0 where
  pub is_bucket : IsBucket capacity rate w.bucket
  pub later : now ≤ w.time
  pub filled : w.bucket.last_refill ≤ w.time
  pub budget :
      w.bucket.tokens + spent w.verdict amount + b.last_refill * rate
      ≤ b.tokens + w.bucket.last_refill * rate

add-mul : (k l r : ℕ) → (k + l) * r ≡ k * r + l * r
add-mul k l r = omega arith

elapsed : (r now last : ℕ) → last ≤ now → (now - last) * r + last * r ≡ now * r
elapsed r now last h = sym (add-mul (now - last) last r) ∙ ap (λ k. k * r) (omega (arith, h))

pub mul_mono : (a b r : ℕ) → a ≤ b → a * r ≤ b * r
mul_mono a b r h = omega (arith, elapsed r b a h)

refill_lem :
    (capacity rate now : ℕ) (b : TokenBucket)
    → IsBucket capacity rate b
    → b.last_refill ≤ now
    → IsBucket capacity rate (refill now b)
      × ((refill now b).last_refill ≡ now)
      × ((refill now b).tokens + b.last_refill * rate ≤ b.tokens + now * rate)
unfolding refill
refill_lem capacity rate now b (c, r, t) h = ground (arith, elapsed rate now b.last_refill h, r)

-- A refilled bucket is full or has everything it gained.
refill_gains :
    (capacity rate now : ℕ) (b : TokenBucket)
    → IsBucket capacity rate b
    → b.last_refill ≤ now
    → (capacity ≤ (refill now b).tokens)
      ⊎ (b.tokens + now * rate ≤ (refill now b).tokens + b.last_refill * rate)
unfolding refill
refill_gains capacity rate now b (c, r, t) h = ground (arith, elapsed rate now b.last_refill h, r)

module _ (sleep : ℕ → ℕ → ℕ) (sleeps : Sleeps sleep) where
  -- A turn of the loop ends it, or sleeps and goes on with the refilled bucket.
  acquire_loop-cases {ℓ} :
      (P : Waited → Type ℓ) (fuel amount deadline now : ℕ) (b : TokenBucket)
      → (amount ≤ (refill now b).tokens
          → P (record { verdict = granted; time = now; bucket = spend amount (refill now b) }))
      → ((refill now b).tokens < amount
          → deadline ≤ now
          → P (record { verdict = rate_limited; time = now; bucket = refill now b }))
      → ((refill now b).tokens < amount
          → now < deadline
          → (later : ℕ) → now < later
          → P (acquire_loop sleep fuel amount deadline later (refill now b)))
      → P (acquire_loop sleep (suc fuel) amount deadline now b)
  unfolding acquire_loop
  acquire_loop-cases P fuel amount deadline now b done late on =
      elim (Bool-cases (leb amount (refill now b).tokens)) [
        | inl h ↦ rw h (done (ground (arith, h)))
        | inr h ↦ elim (Bool-cases (leb deadline now)) [
          | inl k ↦ rw (h, k) (late (ground (arith, h)) (ground (arith, k)))
          | inr k ↦
              rw (h, k)
                (on (ground (arith, h)) (ground (arith, k)) _
                  (ground (arith, k, sleeps now (min 50 (deadline - now)))))
        ]
      ]

  pub acquire_loop-Conserves :
      (capacity rate fuel amount deadline now : ℕ) (b : TokenBucket)
      → IsBucket capacity rate b
      → b.last_refill ≤ now
      → Conserves capacity rate now amount b (acquire_loop sleep fuel amount deadline now b)
  unfolding acquire_loop
  acquire_loop-Conserves capacity rate zero amount deadline now b h k = record {
    is_bucket = h;
    later = omega arith;
    filled = k;
    budget = omega arith;
  }
  acquire_loop-Conserves capacity rate (suc fuel) amount deadline now b h k =
      let (is_bucket, at, gained) = refill_lem capacity rate now b h k in
      let kept : (refill now b).tokens + b.last_refill * rate
          ≤ b.tokens + (refill now b).last_refill * rate =
        omega (arith, gained, ap (λ t. t * rate) at) in
      acquire_loop-cases (Conserves capacity rate now amount b) fuel amount deadline now b
        (λ enough. record {
          is_bucket = (is_bucket.0, is_bucket.1, omega (arith, is_bucket.2));
          later = omega arith;
          filled = omega (arith, at);
          budget = omega (arith, kept, enough);
        })
        (λ _ _. record {
          is_bucket = is_bucket;
          later = omega arith;
          filled = omega (arith, at);
          budget = omega (arith, kept);
        })
        (λ _ _ later le.
          let ih =
            acquire_loop-Conserves capacity rate fuel amount deadline later (refill now b) is_bucket
              (omega (arith, at, le)) in
          record {
            is_bucket = ih.is_bucket;
            later = omega (arith, ih.later, le);
            filled = ih.filled;
            budget = omega (arith, kept, ih.budget);
          })

  -- With a turn for each millisecond the loop ends.
  pub acquire_loop_ends :
      (fuel amount deadline now : ℕ) (b : TokenBucket)
      → deadline - now < fuel
      → (acquire_loop sleep fuel amount deadline now b).verdict ≢ waiting
  acquire_loop_ends zero amount deadline now b h = absurd (omega (arith, h))
  acquire_loop_ends (suc fuel) amount deadline now b h =
      acquire_loop-cases (λ w. w.verdict ≢ waiting) fuel amount deadline now b (λ _ e. cc)
        (λ _ _ e. cc)
        (λ _ early later le.
          acquire_loop_ends fuel amount deadline later (refill now b) (omega (arith, h, early, le)))

  -- An amount that the bucket has or gains by the deadline, and that it can hold, is granted.
  pub acquire_loop_grants :
      (capacity rate fuel amount deadline now : ℕ) (b : TokenBucket)
      → IsBucket capacity rate b
      → b.last_refill ≤ now
      → amount ≤ capacity
      → amount + b.last_refill * rate ≤ b.tokens + deadline * rate
      → deadline - now < fuel
      → (acquire_loop sleep fuel amount deadline now b).verdict ≡ granted
  acquire_loop_grants capacity rate zero amount deadline now b h k fits soon f =
      absurd (omega (arith, f))
  acquire_loop_grants capacity rate (suc fuel) amount deadline now b h k fits soon f =
      let (is_bucket, at, gained) = refill_lem capacity rate now b h k in
      let gains = refill_gains capacity rate now b h k in
      acquire_loop-cases (λ w. w.verdict ≡ granted) fuel amount deadline now b (λ _. refl)
        (λ short late.
          absurd (ground (arith, gains, short, soon, fits, mul_mono deadline now rate late)))
        (λ short early later le.
          acquire_loop_grants capacity rate fuel amount deadline later (refill now b) is_bucket
            (omega (arith, at, le)) fits
            (ground (arith, gains, short, soon, fits, ap (λ t. t * rate) at))
            (omega (arith, f, early, le)))

  pub bucket_acquire-Conserves :
      (capacity rate amount max_wait now : ℕ) (b : TokenBucket)
      → IsBucket capacity rate b
      → b.last_refill ≤ now
      → Conserves capacity rate now amount b (bucket_acquire sleep amount max_wait now b)
  unfolding bucket_acquire
  bucket_acquire-Conserves capacity rate amount max_wait now b =
      acquire_loop-Conserves capacity rate (suc max_wait) amount (now + max_wait) now b

  pub bucket_acquire_ends :
      (amount max_wait now : ℕ) (b : TokenBucket)
      → (bucket_acquire sleep amount max_wait now b).verdict ≢ waiting
  unfolding bucket_acquire
  bucket_acquire_ends amount max_wait now b =
      acquire_loop_ends (suc max_wait) amount (now + max_wait) now b (omega arith)

  -- So is an amount that the bucket can hold and gains within the longest wait.
  pub bucket_acquire_grants :
      (capacity rate amount max_wait now : ℕ) (b : TokenBucket)
      → IsBucket capacity rate b
      → b.last_refill ≤ now
      → amount ≤ capacity
      → amount ≤ max_wait * rate
      → (bucket_acquire sleep amount max_wait now b).verdict ≡ granted
  unfolding bucket_acquire
  bucket_acquire_grants capacity rate amount max_wait now b h k fits soon =
      acquire_loop_grants capacity rate (suc max_wait) amount (now + max_wait) now b h k fits
        (omega (arith, soon, add-mul now max_wait rate, mul_mono b.last_refill now rate k))
        (omega arith)
