-- ===== src/Resilience/Breaker.antt =====
-- The circuit breaker: what each state lets through and how it moves.
use stock_ai_platform.Base.{
  ℕ, ◌+◌, ◌≡◌, ◌≤◌, ◌<◌, true, false, some, List, [], ◌∷◌, arith, is_some, ◌++◌, length,
}
use stock_ai_platform.Resilience.{
  CallResult, CircuitBreaker, closed, open_state, call, after_call, try_reset,
}

-- An open breaker knows since when; a closed one has failed less often than the threshold.
pub record IsValid (b : CircuitBreaker) : Type 0 where
  pub since : b.state ≡ open_state → is_some b.opened_at ≡ true
  pub below : b.state ≡ closed → b.failure_count < b.failure_threshold

-- With a positive threshold, a call of any provider keeps the breaker's invariant: an open breaker
-- knows since when, and a closed one has failed less often than the threshold.
pub call-IsValid :
    {V W : Type 0} (fn : W → CallResult V × W) (b : CircuitBreaker) (before after : ℕ) (w : W)
    → 0 < b.failure_threshold
    → IsValid b
    → IsValid (call fn b before after w).breaker
unfolding call
call-IsValid fn b before after w h v = ground arith

-- Calls one after the other, each with the two readings of the clock.
abbrev pub call_all :
    {V W : Type 0} → (W → CallResult V × W) → CircuitBreaker → List (ℕ × ℕ) → W → CircuitBreaker
call_all fn b [] w = b
call_all fn b ((before, after) ∷ ts) w =
    let r = call fn b before after w in call_all fn r.breaker ts r.world

-- One failed call of a closed breaker.
failed_call-step :
    {V W : Type 0} (fn : W → CallResult V × W) (b : CircuitBreaker) (before after : ℕ) (w : W)
    → (fn w).0.success ≡ false
    → b.state ≡ closed
    → let b' = (call fn b before after w).breaker in
      (b'.failure_threshold ≡ b.failure_threshold)
      × (b'.failure_count ≡ b.failure_count + 1)
      × (b.failure_count + 1 < b.failure_threshold → b'.state ≡ closed)
      × (b.failure_threshold ≤ b.failure_count + 1
          → (b'.state ≡ open_state) × (b'.opened_at ≡ some after))
unfolding call try_reset after_call
failed_call-step fn b before after w f h = ground arith

-- With a provider that always fails, a breaker that starts closed is still closed after the calls
-- that bring its failures to one below the threshold, and the next call opens it, at the moment
-- that was read after that call.
pub call_all-opens :
    {V W : Type 0} (fn : W → CallResult V × W) (b : CircuitBreaker) (ts : List (ℕ × ℕ))
    (before after : ℕ) (w : W)
    → ((v : W) → (fn v).0.success ≡ false)
    → b.state ≡ closed
    → b.failure_count + length ts + 1 ≡ b.failure_threshold
    → ((call_all fn b ts w).state ≡ closed)
      × ((call_all fn b (ts ++ (before, after) ∷ []) w).state ≡ open_state)
      × ((call_all fn b (ts ++ (before, after) ∷ []) w).opened_at ≡ some after)
call_all-opens fn b [] before after w fails h n =
    let s = failed_call-step fn b before after w (fails w) h in
    let o = s.3 (omega (arith, n)) in (h, o.0, o.1)
call_all-opens fn b ((x, y) ∷ ts) before after w fails h n =
    let s = failed_call-step fn b x y w (fails w) h in
    let r = call fn b x y w in
    call_all-opens fn r.breaker ts before after r.world fails (s.2 (omega (arith, n)))
      (omega (arith, n, s.0, s.1))
