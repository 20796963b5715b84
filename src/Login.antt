-- ===== src/Login.antt =====
-- BruteForceGuard (app/auth/brute_force.py): login failures per user name and address. SHA-256 is
-- a parameter, `hash`. Times are what `time.monotonic` returns, in whole ticks; the lock of the
-- source makes each method one step.
mod Table
pub mod Lockout
pub mod Keys
use stock_ai_platform.Base.{
  ℕ, ◌+◌, ◌-◌, Bool, true, false, ◌&&◌, Option, none, some, List, [], ◌∷◌, ◌++◌, ltb, leb, ◌==◌,
  if◌then◌else◌, Text, codes, eq_text, get_or,
}

pub record FailureRecord : Type 0 where
  pub count : ℕ
  pub window_start : ℕ
  pub locked_until : ℕ

pub record BruteForceGuard : Type 0 where
  pub max_failures : ℕ
  pub window_seconds : ℕ
  pub lockout_seconds : ℕ
  pub records : List (Text × FailureRecord)

-- `source_ip_hash or "unknown"`
abbrev pub ip_part : Option Text → Text
ip_part none = codes "unknown"
ip_part (some []) = codes "unknown"
ip_part (some (c ∷ t)) = c ∷ t

abbrev pub make_key : (Text → Text) → Text → Option Text → Text
make_key hash username ip = hash (username ++ (codes ":" ++ ip_part ip))

unfoldable pub lookup : Text → List (Text × FailureRecord) → Option FailureRecord
lookup k [] = none
lookup k ((j, r) ∷ m) = if eq_text j k then some r else lookup k m

unfoldable pub insert :
    Text → FailureRecord → List (Text × FailureRecord) → List (Text × FailureRecord)
insert k r [] = (k, r) ∷ []
insert k r ((j, q) ∷ m) = if eq_text j k then (k, r) ∷ m else (j, q) ∷ insert k r m

unfoldable pub pop : Text → List (Text × FailureRecord) → List (Text × FailureRecord)
pop k [] = []
pop k ((j, q) ∷ m) = if eq_text j k then pop k m else (j, q) ∷ pop k m

abbrev pub no_failures : FailureRecord
no_failures = record { count = 0; window_start = 0; locked_until = 0 }

unfoldable pub get_record : BruteForceGuard → Text → FailureRecord
unfolding lookup
get_record g k = get_or (lookup k g.records) no_failures

-- `is_locked`; `check_allowed` raises BruteForceLockedError exactly when this is true.
unfoldable pub is_locked : BruteForceGuard → (Text → Text) → Text → Option Text → ℕ → Bool
unfolding get_record
is_locked g hash username ip now = ltb now (get_record g (make_key hash username ip)).locked_until

pub data Check : Type 0 where
  allowed locked_error : Check

unfoldable pub check_allowed : BruteForceGuard → (Text → Text) → Text → Option Text → ℕ → Check
unfolding get_record
check_allowed g hash username ip now =
    if ltb now (get_record g (make_key hash username ip)).locked_until
    then locked_error
    else allowed

-- The window starts anew when it has run out and no lock is on.
abbrev pub refreshed : BruteForceGuard → FailureRecord → ℕ → FailureRecord
refreshed g r now =
    if leb r.locked_until now && ltb g.window_seconds (now - r.window_start)
    then record r { count = 0; window_start = now }
    else r

unfoldable pub after_failure : BruteForceGuard → FailureRecord → ℕ → FailureRecord
after_failure g r now =
    let q = refreshed g r now in
    record q {
      count = q.count + 1;
      locked_until =
          if leb g.max_failures (q.count + 1) then now + g.lockout_seconds else q.locked_until;
    }

unfoldable pub record_failure :
    BruteForceGuard → (Text → Text) → Text → Option Text → ℕ → BruteForceGuard
unfolding after_failure get_record insert
record_failure g hash username ip now =
    let k = make_key hash username ip in
    record g { records = insert k (after_failure g (get_record g k) now) g.records }

unfoldable pub record_success :
    BruteForceGuard → (Text → Text) → Text → Option Text → BruteForceGuard
unfolding pop
record_success g hash username ip = record g { records = pop (make_key hash username ip) g.records }

unfoldable pub reset : BruteForceGuard → BruteForceGuard
reset g = record g { records = [] }
