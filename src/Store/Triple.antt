-- ===== src/Store/Triple.antt =====
-- An action between a condition on the session before and the conditions after: one on the value
-- and the session where it returned, one on the session where it raised.
use stock_ai_platform.Base.{◌≡◌, refl, Bool, true, false, if◌then◌else◌}
use stock_ai_platform.Store.Monad.{
  Error, Result, ok, err, Action, pure, raise_if, ◌>>=◌, ◌>>◌, is_ok, catch,
}
use stock_ai_platform.Store.Yields.{Yields, Any, Of}
use stock_ai_platform.Store.Rows.{Session}

abbrev pub Post :
    {A : Type 0} → (A → Session → Type 0) → (Session → Type 0) → Result A × Session → Type 0
Post Q R (ok a, t) = Q a t
Post Q R (err e, t) = R t

pub record Triple {A : Type 0} (P : Session → Type 0) (Q : A → Session → Type 0)
    (R : Session → Type 0) (m : Action A) : Type 0 where
  pub at : (s : Session) → P s → Post Q R (m s)

module _ {P R : Session → Type 0} {A : Type 0} (Q : A → Session → Type 0) where
  pub Triple-pure : (a : A) → ((s : Session) → P s → Q a s) → Triple P Q R (pure a)
  Triple-pure a h = record { at = h }

  pub Triple-if :
      (b : Bool) (m n : Action A)
      → (b ≡ true → Triple P Q R m)
      → (b ≡ false → Triple P Q R n)
      → Triple P Q R (if b then m else n)
  Triple-if true m n km kn = km refl
  Triple-if false m n km kn = kn refl

  pub Triple-guard :
      (b : Bool) (e : Error) (k : Action A)
      → ((s : Session) → P s → R s)
      → Triple P Q R k
      → Triple P Q R (raise_if b e >> k)
  Triple-guard true e k stop kk = record { at = stop }
  Triple-guard false e k stop kk = record { at = λ s h. kk.at s h }

module _ {P R : Session → Type 0} {A B : Type 0} (Q : A → Session → Type 0)
    (Q' : B → Session → Type 0) where
  pub Triple-bind :
      (m : Action A) (f : A → Action B)
      → Triple P Q R m
      → ((a : A) → Triple (Q a) Q' R (f a))
      → Triple P Q' R (m >>= f)
  Triple-bind m f km kf = record { at = λ s h. after (m s) (km.at s h) }
    where
      after :
          (r : Result A × Session)
          → Post Q R r
          → Post Q' R
              (elim r.0 as (λ _. Result B × Session) [ ok a ↦ f a r.1 | err e ↦ (err e, r.1) ])
      after (ok a, t) h = (kf a).at t h
      after (err e, t) h = h

module _ {P R : Session → Type 0} {A : Type 0} where
  -- The same condition after both outcomes.
  pub Triple-ends : (m : Action A) (s : Session) → Triple P (λ _. R) R m → P s → R (m s).1
  Triple-ends m s k h = either (m s) (k.at s h)
    where
      either : (r : Result A × Session) → Post (λ _. R) R r → R r.1
      either (ok a, t) p = p
      either (err e, t) p = p

module _ {P P' R R' : Session → Type 0} {A : Type 0} (Q Q' : A → Session → Type 0) where
  pub Triple-weaken :
      (m : Action A)
      → ((s : Session) → P' s → P s)
      → ((a : A) (s : Session) → Q a s → Q' a s)
      → ((s : Session) → R s → R' s)
      → Triple P Q R m
      → Triple P' Q' R' m
  Triple-weaken m p q r k = record { at = λ s h. weaker (m s) (k.at s (p s h)) }
    where
      weaker : (out : Result A × Session) → Post Q R out → Post Q' R' out
      weaker (ok a, t) h = q a t h
      weaker (err e, t) h = r t h

-- A guard that is known to let the action go on.
pub Triple-pass :
    {P R : Session → Type 0} {A : Type 0} (Q : A → Session → Type 0) (b : Bool) (e : Error)
    (k : Action A)
    → b ≡ false
    → Triple P Q R k
    → Triple P Q R (raise_if b e >> k)
Triple-pass Q true e k h kk = cc
Triple-pass Q false e k h kk = record { at = λ s p. kk.at s p }

-- A fact that is not about the session is kept.
pub Triple-frame :
    {P R : Session → Type 0} {A : Type 0} (Q : A → Session → Type 0) (F : Type 0) (m : Action A)
    → Triple P Q R m
    → Triple (λ s. P s × F) (λ a s. Q a s × F) R m
Triple-frame {P} {R} {A} Q F m k = record { at = λ s h. framed (m s) h.1 (k.at s h.0) }
  where
    framed : (out : Result A × Session) → F → Post Q R out → Post (λ a s. Q a s × F) R out
    framed (ok a, t) f h = (h, f)
    framed (err e, t) f h = h

-- An action that never raises returns.
pub Triple-returns :
    {P Q : Session → Type 0} {A : Type 0} (m : Action A) (s : Session)
    → Triple P (λ _. Q) (λ _. ⊥) m
    → P s
    → (is_ok (m s).0 ≡ true) × Q (m s).1
Triple-returns {P} {Q} {A} m s k h = outcome (m s) (k.at s h)
  where
    outcome : (r : Result A × Session) → Post (λ _. Q) (λ _. ⊥) r → (is_ok r.0 ≡ true) × Q r.1
    outcome (ok a, t) q = (refl, q)
    outcome (err e, t) q = absurd q

-- What an action that never raises returns.
pub Triple-value :
    {P : Session → Type 0} {A : Type 0} (Q : A → Session → Type 0) (m : Action A) (s : Session)
    → Triple P Q (λ _. ⊥) m
    → P s
    → (a : A) × ((m s).0 ≡ ok a) × Q a (m s).1
Triple-value {P} {A} Q m s k h = outcome (m s) (k.at s h)
  where
    outcome : (r : Result A × Session) → Post Q (λ _. ⊥) r → (a : A) × (r.0 ≡ ok a) × Q a r.1
    outcome (ok a, t) q = (a, refl, q)
    outcome (err e, t) q = absurd q

-- After a guard its test is known to be false.
pub Triple-checked :
    {P R : Session → Type 0} {A : Type 0} (Q : A → Session → Type 0) (b : Bool) (e : Error)
    (k : Action A)
    → ((s : Session) → P s → R s)
    → (b ≡ false → Triple P Q R k)
    → Triple P Q R (raise_if b e >> k)
Triple-checked Q true e k stop kk = record { at = stop }
Triple-checked Q false e k stop kk = record { at = λ s h. (kk refl).at s h }

-- A condition that an action keeps, whatever it returns.
pub Triple-kept :
    {P : Session → Type 0} {A : Type 0} (m : Action A)
    → Yields P Any m
    → Triple P (λ _. P) (λ _. Unit) m
Triple-kept {P} {A} m k = record { at = λ s h. outcome (m s) (k.at s h) }
  where
    outcome : (r : Result A × Session) → P r.1 × Of Any r.0 → Post (λ _. P) (λ _. Unit) r
    outcome (ok a, t) h = h.0
    outcome (err e, t) h = tt

pub Triple-catch :
    {P R : Session → Type 0} {A : Type 0} (Q : A → Session → Type 0) (m : Action A)
    (handler : Error → Action A)
    → Triple P Q R m
    → ((e : Error) → Triple R Q R (handler e))
    → Triple P Q R (catch m handler)
Triple-catch {P} {R} {A} Q m handler km kh = record { at = λ s h. handled (m s) (km.at s h) }
  where
    handled :
        (r : Result A × Session)
        → Post Q R r
        → Post Q R
            (elim r.0 as (λ _. Result A × Session) [ ok a ↦ (ok a, r.1) | err e ↦ handler e r.1 ])
    handled (ok a, t) h = h
    handled (err e, t) h = (kh e).at t h
