-- ===== src/Resilience.antt =====
-- The retry loop and the circuit breaker of app/data/provider_resilience.py. A provider is a
-- function from the world before a call to the result and the world after it. Times and delays
-- are whole ticks.
pub mod Retry
pub mod Breaker
use stock_ai_platform.Base.{
  ℕ, zero, suc, ◌+◌, ◌-◌, ◌*◌, ◌^◌, Bool, true, false, not, ◌&&◌, ◌||◌, Option, none, some, List,
  [], ◌∷◌, ◌++◌, ltb, leb, if◌then◌else◌,
}

pub data ProviderErrorKind : Type 0 where
  timeout rate_limit server_error client_error unknown : ProviderErrorKind

-- `ProviderCallResult` with a payload of type V.
pub record CallResult (V : Type 0) : Type 0 where
  pub success : Bool
  pub value : Option V
  pub error_kind : Option ProviderErrorKind
  pub attempts : ℕ

unfoldable pub call_ok : {V : Type 0} → V → CallResult V
call_ok v = record { success = true; value = some v; error_kind = none; attempts = 1 }

unfoldable pub call_fail : {V : Type 0} → ProviderErrorKind → CallResult V
call_fail k = record { success = false; value = none; error_kind = some k; attempts = 1 }

-- `_NON_RETRYABLE`
abbrev pub is_final : Option ProviderErrorKind → Bool
is_final (some client_error) = true
is_final _ = false

-- The result, the world after the calls, and the sleeps that were made.
pub record Outcome (V W : Type 0) : Type 0 where
  pub result : CallResult V
  pub world : W
  pub sleeps : List ℕ

abbrev pub slept : {V W : Type 0} → ℕ → Outcome V W → Outcome V W
slept d o = record o { sleeps = d ∷ o.sleeps }

-- min(base * 2 ** (attempt - 1), max)
abbrev pub delay_of : ℕ → ℕ → ℕ → ℕ
delay_of base max_delay attempt =
    if ltb max_delay (base * 2 ^ (attempt - 1)) then max_delay else base * 2 ^ (attempt - 1)

module _ {V W : Type 0} (fn : W → CallResult V × W) (base max_delay : ℕ) where
  -- The loop from `attempt` on, with `left` rounds after this one.
  unfoldable pub retry_from : ℕ → ℕ → W → Outcome V W
  retry_from zero attempt w =
      let (r, w') = fn w in
      record { result = record r { attempts = attempt }; world = w'; sleeps = [] }
  retry_from (suc left) attempt w =
      let (r, w') = fn w in
      let stop : Outcome V W = record {
        result = record r { attempts = attempt };
        world = w';
        sleeps = [];
      } in
      let more = slept (delay_of base max_delay attempt) (retry_from left (attempt + 1) w') in
      if r.success || is_final r.error_kind then stop else more

  -- No attempt at all fails the assertion at the end, which is `none`.
  unfoldable pub retry_with_backoff : ℕ → W → Option (Outcome V W)
  unfolding retry_from
  retry_with_backoff zero w = none
  retry_with_backoff (suc left) w = some (retry_from left 1 w)

pub data BreakerState : Type 0 where
  closed open_state half_open : BreakerState

pub record CircuitBreaker : Type 0 where
  pub failure_threshold : ℕ
  pub reset_timeout : ℕ
  pub state : BreakerState
  pub failure_count : ℕ
  pub opened_at : Option ℕ

abbrev pub is_open : BreakerState → Bool
is_open open_state = true
is_open _ = false

abbrev pub is_half_open : BreakerState → Bool
is_half_open half_open = true
is_half_open _ = false

abbrev pub has_waited : Option ℕ → ℕ → ℕ → Bool
has_waited none now limit = false
has_waited (some t) now limit = leb limit (now - t)

unfoldable pub try_reset : CircuitBreaker → ℕ → CircuitBreaker
try_reset b now =
    if is_open b.state && has_waited b.opened_at now b.reset_timeout
    then record b { state = half_open }
    else b

-- The bookkeeping after a call that was let through; `now` is read when the breaker opens.
unfoldable pub after_call : {V : Type 0} → CircuitBreaker → CallResult V → ℕ → CircuitBreaker
after_call b r now =
    if r.success
    then record b { state = closed; failure_count = 0; opened_at = none }
    else if is_half_open b.state || leb b.failure_threshold (b.failure_count + 1)
    then record b { failure_count = b.failure_count + 1; state = open_state; opened_at = some now }
    else record b { failure_count = b.failure_count + 1 }

-- The breaker, the result, the world after it, and whether the provider was called. The clock is
-- read before the call and again after it.
pub record Called (V W : Type 0) : Type 0 where
  pub breaker : CircuitBreaker
  pub result : CallResult V
  pub world : W
  pub went_through : Bool

unfoldable pub call :
    {V W : Type 0} → (W → CallResult V × W) → CircuitBreaker → ℕ → ℕ → W → Called V W
unfolding try_reset after_call call_fail
call fn b before after w =
    let b' = try_reset b before in
    let (r, w') = fn w in
    if is_open b'.state
    then record { breaker = b'; result = call_fail unknown; world = w; went_through = false }
    else record { breaker = after_call b' r after; result = r; world = w'; went_through = true }

unfoldable pub reset : CircuitBreaker → CircuitBreaker
reset b = record b { state = closed; failure_count = 0; opened_at = none }
