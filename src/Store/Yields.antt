-- ===== src/Store/Yields.antt =====
-- An action that keeps `P` and returns only values with `Q`. What a step returned is known to the
-- steps after it.
use stock_ai_platform.Base.{◌≡◌, refl, Bool, true, false, Option, none, some, if◌then◌else◌}
use stock_ai_platform.Store.Monad.{
  Error, Result, ok, err, Action, pure, raise, or_raise, raise_if, ◌>>=◌, ◌>>◌, catch,
}
use stock_ai_platform.Store.Rows.{Session}

-- What is known of a result.
abbrev pub Of : {A : Type 0} → (A → Type 0) → Result A → Type 0
Of Q (ok a) = Q a
Of Q (err e) = Unit

pub record Yields (P : Session → Type 0) {A : Type 0} (Q : A → Type 0) (m : Action A) : Type 0 where
  pub at : (s : Session) → P s → P (m s).1 × Of Q (m s).0

-- Nothing is known of the value.
abbrev pub Any : {A : Type 0} → A → Type 0
Any a = Unit

-- A found row has the property.
abbrev pub IfSome : {A : Type 0} → (A → Type 0) → Option A → Type 0
IfSome Q none = Unit
IfSome Q (some a) = Q a

module _ {P : Session → Type 0} {A : Type 0} (Q : A → Type 0) where
  pub Yields-pure : (a : A) → Q a → Yields P Q (pure a)
  Yields-pure a q = record { at = λ s h. (h, q) }

  pub Yields-raise : (e : Error) → Yields P Q (raise e)
  Yields-raise e = record { at = λ s h. (h, tt) }

  pub Yields-or_raise : (o : Option A) (e : Error) → IfSome Q o → Yields P Q (or_raise o e)
  Yields-or_raise none e q = record { at = λ s h. (h, tt) }
  Yields-or_raise (some a) e q = record { at = λ s h. (h, q) }

  pub Yields-if :
      (b : Bool) (m n : Action A)
      → (b ≡ true → Yields P Q m)
      → (b ≡ false → Yields P Q n)
      → Yields P Q (if b then m else n)
  Yields-if true m n km kn = km refl
  Yields-if false m n km kn = kn refl

  -- After a guard its test is known to be false.
  pub Yields-guard :
      (b : Bool) (e : Error) (k : Action A)
      → (b ≡ false → Yields P Q k)
      → Yields P Q (raise_if b e >> k)
  Yields-guard true e k kk = record { at = λ s h. (h, tt) }
  Yields-guard false e k kk = record { at = λ s h. (kk refl).at s h }

  pub Yields-catch :
      (m : Action A) (handler : Error → Action A)
      → Yields P Q m
      → ((e : Error) → Yields P Q (handler e))
      → Yields P Q (catch m handler)
  Yields-catch m handler km kh = record { at = λ s h. handled (m s) (km.at s h) }
    where
      handled :
          (r : Result A × Session)
          → P r.1 × Of Q r.0
          → let out : Result A × Session = elim r.0 as (λ _. Result A × Session) [
            | ok a ↦ (ok a, r.1)
            | err e ↦ handler e r.1
          ] in
            P out.1 × Of Q out.0
      handled (ok a, t) h = h
      handled (err e, t) h = (kh e).at t h.0

module _ {P : Session → Type 0} {A B : Type 0} (Q : A → Type 0) (R : B → Type 0) where
  pub Yields-bind :
      (m : Action A) (f : A → Action B)
      → Yields P Q m
      → ((a : A) → Q a → Yields P R (f a))
      → Yields P R (m >>= f)
  Yields-bind m f km kf = record { at = λ s h. after (m s) (km.at s h) }
    where
      after :
          (r : Result A × Session)
          → P r.1 × Of Q r.0
          → let out : Result B × Session = elim r.0 as (λ _. Result B × Session) [
            | ok a ↦ f a r.1
            | err e ↦ (err e, r.1)
          ] in
            P out.1 × Of R out.0
      after (ok a, t) h = (kf a h.1).at t h.0
      after (err e, t) h = (h.0, tt)

module _ {P : Session → Type 0} {A : Type 0} (Q R : A → Type 0) where
  pub Yields-weaken : (m : Action A) → ((a : A) → Q a → R a) → Yields P Q m → Yields P R m
  Yields-weaken m w k = record { at = λ s h. weaker (m s) (k.at s h) }
    where
      weaker : (r : Result A × Session) → P r.1 × Of Q r.0 → P r.1 × Of R r.0
      weaker (ok a, t) h = (h.0, w a h.1)
      weaker (err e, t) h = (h.0, tt)
