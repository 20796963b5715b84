-- ===== src/Examples/Guards.antt =====
-- The login guard, the retry loop and the circuit breaker at concrete inputs.
use stock_ai_platform.Base.{
  ℕ, suc, ◌≡◌, refl, ◌≤◌, ◌+◌, true, false, none, some, [], ◌∷◌, arith, Text, codes, All, eq_text,
  ◌<◌, ◌⊎◌, List, false, ltb,
}
use stock_ai_platform.Login.{
  BruteForceGuard, make_key, get_record, is_locked, record_failure, lookup, insert, after_failure,
}
use stock_ai_platform.Login.Lockout.{failures, failures-lock, failures-no_lock}
use stock_ai_platform.Login.Keys.{
  LoginEvent, failed, succeeded, after_events, counted, after_events-counted,
}
use stock_ai_platform.Resilience.{
  CallResult, Outcome, CircuitBreaker, closed, open_state, timeout, call, retry_with_backoff,
}
use stock_ai_platform.Resilience.Retry.{
  is_retryable, delays, world_after, FirstFail, retry_with_backoff_total,
}
use stock_ai_platform.Resilience.Breaker
use stock_ai_platform.Resilience.Breaker.{call_all, call_all-opens, call-IsValid}

abbrev fresh : BruteForceGuard
fresh = record { max_failures = 3; window_seconds = 600; lockout_seconds = 900; records = [] }

abbrev plain : Text → Text
plain t = t

-- After a first failure at 1000, which starts the window.
abbrev started : BruteForceGuard
started = record_failure fresh plain (codes "kim") none 1000

failures-lock_example :
    is_locked
      (failures started plain (codes "kim") none (1010 ∷ 1020 ∷ []))
      plain
      (codes "kim")
      none
      1500
    ≡ true
unfolding record_failure after_failure insert get_record lookup eq_text
failures-lock_example =
    failures-lock started plain (codes "kim") none (1010 ∷ []) 1020 1500
      (omega arith, (omega arith, tt)) (omega arith) (omega arith)

failures-no_lock_example :
    is_locked (failures started plain (codes "kim") none (1010 ∷ [])) plain (codes "kim") none 1500
    ≡ is_locked started plain (codes "kim") none 1500
unfolding record_failure after_failure insert get_record lookup eq_text
failures-no_lock_example =
    failures-no_lock started plain (codes "kim") none (1010 ∷ []) 1500 (omega arith, tt)
      (omega arith)

-- Two users fail in turn, and one of them gets in.
abbrev evening : List LoginEvent
evening =
    failed (codes "kim") none 10
    ∷ failed (codes "lee") none 11
    ∷ succeeded (codes "kim") none
    ∷ failed (codes "lee") none 12
    ∷ []

after_events-counted_example :
    (get_record (after_events fresh plain evening) (make_key plain (codes "lee") none)
      ≡ counted fresh plain
          (make_key plain (codes "lee") none)
          evening
          (get_record fresh (make_key plain (codes "lee") none)))
    × (is_locked (after_events fresh plain evening) plain (codes "lee") none 20
        ≡ ltb 20
            (counted fresh plain
              (make_key plain (codes "lee") none)
              evening
              (get_record fresh (make_key plain (codes "lee") none))).locked_until)
after_events-counted_example = after_events-counted fresh plain (codes "lee") none evening 20

-- A provider that counts its calls and never succeeds.
abbrev down : ℕ → CallResult ℕ × ℕ
down n = (record { success = false; value = none; error_kind = some timeout; attempts = 1 }, suc n)

retry_with_backoff_total_example :
    (o : Outcome ℕ ℕ) × (retry_with_backoff down 1 8 3 0 ≡ some o)
    × ((n : ℕ) × (n < 3)
        × FirstFail down n 0
        × ((is_retryable (down (world_after down n 0)).0 ≡ false) ⊎ (n + 1 ≡ 3))
        × (o.result ≡ record (down (world_after down n 0)).0 { attempts = n + 1 })
        × (o.world ≡ world_after down (suc n) 0)
        × (o.sleeps ≡ delays 1 8 1 n)
        × All (λ d. d ≤ 8) o.sleeps)
retry_with_backoff_total_example = retry_with_backoff_total down 1 8 3 0 (omega arith)

abbrev shut : CircuitBreaker
shut = record {
  failure_threshold = 2;
  reset_timeout = 60;
  state = closed;
  failure_count = 0;
  opened_at = none;
}

call_all-opens_example :
    ((call_all down shut ((1, 2) ∷ []) 0).state ≡ closed)
    × ((call_all down shut ((1, 2) ∷ (3, 4) ∷ []) 0).state ≡ open_state)
    × ((call_all down shut ((1, 2) ∷ (3, 4) ∷ []) 0).opened_at ≡ some 4)
call_all-opens_example = call_all-opens down shut ((1, 2) ∷ []) 3 4 0 (λ v. refl) refl (omega arith)

call-IsValid_example : Breaker.IsValid (call down shut 1 2 0).breaker
call-IsValid_example =
    call-IsValid down shut 1 2 0 (omega arith)
      (record { since = λ h. cc; below = λ h. omega arith })
