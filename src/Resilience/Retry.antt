-- ===== src/Resilience/Retry.antt =====
-- What the retry loop returns: which calls it made, how long it slept, and when it gave up.
use stock_ai_platform.Base.{
  ℕ, zero, suc, ◌+◌, ◌≡◌, refl, ◌≤◌, Bool, true, false, not, ◌&&◌, some, List, [], ◌∷◌, arith, All,
  ◌<◌, ◌⊎◌, inl, inr, Bool-cases, sym,
}
use mathlib.Core.Path.{subst}
use stock_ai_platform.Resilience.{
  CallResult, Outcome, is_final, delay_of, retry_from, retry_with_backoff,
}

-- A failure that another attempt may mend.
abbrev pub is_retryable : {V : Type 0} → CallResult V → Bool
is_retryable r = not r.success && not (is_final r.error_kind)

-- The sleeps before `n` further attempts, the first of them after the given one.
abbrev pub delays : ℕ → ℕ → ℕ → ℕ → List ℕ
delays base max_delay attempt zero = []
delays base max_delay attempt (suc n) =
    delay_of base max_delay attempt ∷ delays base max_delay (attempt + 1) n

module _ {V W : Type 0} (fn : W → CallResult V × W) where
  -- The world after `n` calls.
  abbrev pub world_after : ℕ → W → W
  world_after zero w = w
  world_after (suc n) w = world_after n (fn w).1

  -- Each of the first `n` calls fails in a way that is worth a retry.
  abbrev pub FirstFail : ℕ → W → Type 0
  FirstFail zero w = Unit
  FirstFail (suc n) w = (is_retryable (fn w).0 ≡ true) × FirstFail n (fn w).1

-- The loop that starts at `attempt` with `left` rounds after it, when it calls `n + 1` times.
abbrev pub Ends :
    {V W : Type 0} → (W → CallResult V × W) → ℕ → ℕ → ℕ → ℕ → W → ℕ → Outcome V W → Type 0
Ends fn base max_delay left attempt w n o =
    let last = (fn (world_after fn n w)).0 in
    (n ≤ left)
    × FirstFail fn n w
    × ((is_retryable last ≡ false) ⊎ (n ≡ left))
    × (o.result ≡ record last { attempts = attempt + n })
    × (o.world ≡ world_after fn (suc n) w)
    × (o.sleeps ≡ delays base max_delay attempt n)

delay_of-le : (base max_delay attempt : ℕ) → delay_of base max_delay attempt ≤ max_delay
delay_of-le base max_delay attempt = ground arith

delays-capped :
    (base max_delay attempt n : ℕ) → All (λ d. d ≤ max_delay) (delays base max_delay attempt n)
delays-capped base max_delay attempt zero = tt
delays-capped base max_delay attempt (suc n) =
    (delay_of-le base max_delay attempt, delays-capped base max_delay (attempt + 1) n)

module _ {V W : Type 0} (fn : W → CallResult V × W) (base max_delay : ℕ) where
  retry_from-stops :
      (left attempt : ℕ) (w : W)
      → is_retryable (fn w).0 ≡ false
      → Ends fn base max_delay
          (suc left)
          attempt
          w
          0
          (retry_from fn base max_delay (suc left) attempt w)
  unfolding retry_from
  retry_from-stops left attempt w h = ground arith

  retry_from-goes :
      (left attempt n : ℕ) (w : W)
      → is_retryable (fn w).0 ≡ true
      → Ends fn base max_delay left
          (attempt + 1)
          (fn w).1
          n
          (retry_from fn base max_delay left (attempt + 1) (fn w).1)
      → Ends fn base max_delay
          (suc left)
          attempt
          w
          (suc n)
          (retry_from fn base max_delay (suc left) attempt w)
  unfolding retry_from
  retry_from-goes left attempt n w h e = ground arith

  retry_from-Ends :
      (left attempt : ℕ) (w : W)
      → (n : ℕ) × Ends fn base max_delay left attempt w n
          (retry_from fn base max_delay left attempt w)
  unfolding retry_from
  retry_from-Ends zero attempt w = (0, ground arith)
  retry_from-Ends (suc left) attempt w = elim (Bool-cases (is_retryable (fn w).0)) [
    | inl again ↦
        let e = retry_from-Ends left (attempt + 1) (fn w).1 in
        (suc e.0, retry_from-goes left attempt e.0 w again e.1)
    | inr done ↦ (0, retry_from-stops left attempt w done)
  ]

  -- With at least one attempt allowed the loop returns. It has called the provider `n + 1` times,
  -- at most `max_attempts`: each of the first `n` calls failed in a way that is worth a retry, and
  -- the last one did not or used up the attempts. The result is that of the last call, with the
  -- number of calls, the world is the one after just these calls, and the sleeps are the backoff
  -- delays between them, none longer than `max_delay`.
  pub retry_with_backoff_total :
      (max_attempts : ℕ) (w : W)
      → 0 < max_attempts
      → (o : Outcome V W) × (retry_with_backoff fn base max_delay max_attempts w ≡ some o)
        × ((n : ℕ) × (n < max_attempts)
            × FirstFail fn n w
            × ((is_retryable (fn (world_after fn n w)).0 ≡ false) ⊎ (n + 1 ≡ max_attempts))
            × (o.result ≡ record (fn (world_after fn n w)).0 { attempts = n + 1 })
            × (o.world ≡ world_after fn (suc n) w)
            × (o.sleeps ≡ delays base max_delay 1 n)
            × All (λ d. d ≤ max_delay) o.sleeps)
  unfolding retry_with_backoff
  retry_with_backoff_total zero w h = absurd (omega arith)
  retry_with_backoff_total (suc left) w h =
      let (n, e) = retry_from-Ends left 1 w in
      let (fewer, failed, last, result, world, sleeps) = e in
      (
        retry_from fn base max_delay left 1 w,
        refl,
        (
          n,
          omega (arith, fewer),
          failed,
          ground arith,
          ground arith,
          world,
          sleeps,
          subst (All λ d. d ≤ max_delay) (sym sleeps) (delays-capped base max_delay 1 n),
        ),
      )
