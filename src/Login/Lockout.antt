-- ===== src/Login/Lockout.antt =====
-- When a key is locked, and for how long.
use stock_ai_platform.Base.{
  ℕ, ◌+◌, ◌-◌, ◌≡◌, refl, ◌≤◌, ◌<◌, true, Option, List, [], ◌∷◌, arith, ltb, All, ◌∙◌, ap, Text,
  length, ◌++◌,
}
use stock_ai_platform.Login.Table.{lookup-insert_self, lookup-pop_self}
use stock_ai_platform.Login.{
  FailureRecord, BruteForceGuard, make_key, get_record, is_locked, after_failure, record_failure,
  record_success, check_allowed, allowed, no_failures,
}

-- The record that a failure leaves behind.
get_record-record_failure :
    (g : BruteForceGuard) (hash : Text → Text) (u : Text) (ip : Option Text) (now : ℕ)
    → get_record (record_failure g hash u ip now) (make_key hash u ip)
      ≡ after_failure g (get_record g (make_key hash u ip)) now
unfolding get_record record_failure
get_record-record_failure g hash u ip now = rw (
    lookup-insert_self (make_key hash u ip)
      (after_failure g (get_record g (make_key hash u ip)) now) g.records)

-- Failures of one key at the given times.
abbrev pub failures :
    BruteForceGuard → (Text → Text) → Text → Option Text → List ℕ → BruteForceGuard
failures g hash u ip [] = g
failures g hash u ip (t ∷ ts) = failures (record_failure g hash u ip t) hash u ip ts

-- The record after failures at the given times.
after_failures : BruteForceGuard → FailureRecord → List ℕ → FailureRecord
after_failures g r [] = r
after_failures g r (t ∷ ts) = after_failures g (after_failure g r t) ts

-- Times that lie within the window that the record has open.
abbrev pub WithinWindow : BruteForceGuard → FailureRecord → List ℕ → Type 0
WithinWindow g r = All (λ t. t - r.window_start ≤ g.window_seconds)

after_failure-within :
    (g : BruteForceGuard) (r : FailureRecord) (t : ℕ)
    → t - r.window_start ≤ g.window_seconds
    → ((after_failure g r t).count ≡ r.count + 1)
      × ((after_failure g r t).window_start ≡ r.window_start)
unfolding after_failure
after_failure-within g r t h = ground arith

after_failures-count :
    (g : BruteForceGuard) (r : FailureRecord) (ts : List ℕ)
    → WithinWindow g r ts
    → (after_failures g r ts).count ≡ r.count + length ts
unfolding after_failures
after_failures-count g r [] h = omega arith
after_failures-count g r (t ∷ ts) h =
    let (counted, kept) = after_failure-within g r t h.0 in
    omega (arith, counted, after_failures-count g (after_failure g r t) ts (rw kept h.1))

after_failures-window :
    (g : BruteForceGuard) (r : FailureRecord) (ts : List ℕ)
    → WithinWindow g r ts
    → (after_failures g r ts).window_start ≡ r.window_start
unfolding after_failures
after_failures-window g r [] h = refl
after_failures-window g r (t ∷ ts) h =
    let (counted, kept) = after_failure-within g r t h.0 in
    after_failures-window g (after_failure g r t) ts (rw kept h.1) ∙ kept

after_failures-records :
    (g : BruteForceGuard) (m : List (Text × FailureRecord)) (r : FailureRecord) (ts : List ℕ)
    → after_failures (record g { records = m }) r ts ≡ after_failures g r ts
unfolding after_failures after_failure
after_failures-records g m r [] = refl
after_failures-records g m r (t ∷ ts) = after_failures-records g m (after_failure g r t) ts

after_failures-record_failure :
    (g : BruteForceGuard) (hash : Text → Text) (u : Text) (ip : Option Text) (t : ℕ)
    (r : FailureRecord) (ts : List ℕ)
    → after_failures (record_failure g hash u ip t) r ts ≡ after_failures g r ts
unfolding record_failure
after_failures-record_failure g hash u ip t r ts = after_failures-records g _ r ts

get_record-failures :
    (g : BruteForceGuard) (hash : Text → Text) (u : Text) (ip : Option Text) (ts : List ℕ)
    → get_record (failures g hash u ip ts) (make_key hash u ip)
      ≡ after_failures g (get_record g (make_key hash u ip)) ts
unfolding after_failures
get_record-failures g hash u ip [] = refl
get_record-failures g hash u ip (t ∷ ts) =
    get_record-failures (record_failure g hash u ip t) hash u ip ts
    ∙ after_failures-record_failure g hash u ip t _ ts
    ∙ ap (λ r. after_failures g r ts) (get_record-record_failure g hash u ip t)

-- Failing changes no setting.
failures-settings :
    (g : BruteForceGuard) (hash : Text → Text) (u : Text) (ip : Option Text) (ts : List ℕ)
    → ((failures g hash u ip ts).max_failures ≡ g.max_failures)
      × ((failures g hash u ip ts).lockout_seconds ≡ g.lockout_seconds)
unfolding record_failure
failures-settings g hash u ip [] = (refl, refl)
failures-settings g hash u ip (t ∷ ts) =
    failures-settings (record_failure g hash u ip t) hash u ip ts

-- The record after one more failure within the window.
after_failure-locked :
    (g : BruteForceGuard) (r : FailureRecord) (t n : ℕ)
    → r.count ≡ n
    → t - r.window_start ≤ g.window_seconds
    → (g.max_failures ≤ n + 1 → (after_failure g r t).locked_until ≡ t + g.lockout_seconds)
      × (n + 1 < g.max_failures → (after_failure g r t).locked_until ≡ r.locked_until)
unfolding after_failure
after_failure-locked g r t n e h = (λ q. ground arith, λ q. ground arith)

after_failures-lock :
    (g : BruteForceGuard) (r : FailureRecord) (ts : List ℕ) (t : ℕ)
    → WithinWindow g r (ts ++ t ∷ [])
    → g.max_failures ≤ r.count + length ts + 1
    → (after_failures g r (ts ++ t ∷ [])).locked_until ≡ t + g.lockout_seconds
unfolding after_failures
after_failures-lock g r [] t h enough =
    (after_failure-locked g r t r.count refl h.0).0 (omega arith)
after_failures-lock g r (x ∷ ts) t h enough =
    let (counted, kept) = after_failure-within g r x h.0 in
    after_failures-lock g (after_failure g r x) ts t (rw kept h.1) (omega (arith, counted))

after_failures-no_lock :
    (g : BruteForceGuard) (r : FailureRecord) (ts : List ℕ)
    → WithinWindow g r ts
    → r.count + length ts < g.max_failures
    → (after_failures g r ts).locked_until ≡ r.locked_until
unfolding after_failures
after_failures-no_lock g r [] h few = refl
after_failures-no_lock g r (x ∷ ts) h few =
    let (counted, kept) = after_failure-within g r x h.0 in
    after_failures-no_lock g (after_failure g r x) ts (rw kept h.1) (omega (arith, counted))
    ∙ (after_failure-locked g r x r.count refl h.0).1 (omega arith)

-- Failures within one window lock the key for `lockout_seconds` from the last one, as soon as they
-- reach `max_failures` together with those counted before.
pub failures-lock :
    (g : BruteForceGuard) (hash : Text → Text) (u : Text) (ip : Option Text) (ts : List ℕ)
    (t now : ℕ)
    → WithinWindow g (get_record g (make_key hash u ip)) (ts ++ t ∷ [])
    → g.max_failures ≤ (get_record g (make_key hash u ip)).count + length ts + 1
    → now < t + g.lockout_seconds
    → is_locked (failures g hash u ip (ts ++ t ∷ [])) hash u ip now ≡ true
unfolding is_locked
failures-lock g hash u ip ts t now h enough early =
    rw (get_record-failures g hash u ip (ts ++ t ∷ []))
      (ground (arith, after_failures-lock g (get_record g (make_key hash u ip)) ts t h enough))

-- Fewer failures than `max_failures` within one window lock nobody: the key is locked at a moment
-- exactly if it was before them.
pub failures-no_lock :
    (g : BruteForceGuard) (hash : Text → Text) (u : Text) (ip : Option Text) (ts : List ℕ) (now : ℕ)
    → WithinWindow g (get_record g (make_key hash u ip)) ts
    → (get_record g (make_key hash u ip)).count + length ts < g.max_failures
    → is_locked (failures g hash u ip ts) hash u ip now ≡ is_locked g hash u ip now
unfolding is_locked
failures-no_lock g hash u ip ts now h few =
    rw (get_record-failures g hash u ip ts)
      (ap (ltb now) (after_failures-no_lock g (get_record g (make_key hash u ip)) ts h few))

-- A success forgets the key's failures, its lock included.
pub record_success-unlocks :
    (g : BruteForceGuard) (hash : Text → Text) (u : Text) (ip : Option Text) (now : ℕ)
    → (get_record (record_success g hash u ip) (make_key hash u ip) ≡ no_failures)
      × (check_allowed (record_success g hash u ip) hash u ip now ≡ allowed)
unfolding get_record record_success check_allowed
record_success-unlocks g hash u ip now =
    ground (arith, lookup-pop_self (make_key hash u ip) g.records)
