-- ===== src/Store/Inversion.antt =====
-- What a call that returned went through: each step before it returned too.
use stock_ai_platform.Base.{◌≡◌, refl, Bool, true, false, Option, none, some}
use stock_ai_platform.Store.Monad.{Error, Result, ok, err, Action, or_raise, raise_if, ◌>>=◌, ◌>>◌}
use stock_ai_platform.Store.Rows.{Session}

-- A returned bind: the first step returned `a` in session `t`, the rest went on from there.
pub record Through {A B : Type 0} (m : Action A) (f : A → Action B) (s : Session) (b : B)
    (s' : Session) : Type 0 where
  pub value : A
  pub mid : Session
  pub first : m s ≡ (ok value, mid)
  pub rest : f value mid ≡ (ok b, s')

pub >>=-ok :
    {A B : Type 0} (m : Action A) (f : A → Action B) (s : Session) (b : B) (s' : Session)
    → (m >>= f) s ≡ (ok b, s')
    → Through m f s b s'
>>=-ok {A} {B} m f s b s' h = split (m s) refl h
  where
    split :
        (r : Result A × Session)
        → m s ≡ r
        → elim r.0 as (λ _. Result B × Session) [ ok a ↦ f a r.1 | err e ↦ (err e, r.1) ]
          ≡ (ok b, s')
        → Through m f s b s'
    split (ok a, t) e g = record { value = a; mid = t; first = e; rest = g }
    split (err x, t) e g = cc

-- A guard that let the call go on found its test false.
pub guard-ok :
    {B : Type 0} (c : Bool) (e : Error) (k : Action B) (s : Session) (b : B) (s' : Session)
    → (raise_if c e >> k) s ≡ (ok b, s')
    → (c ≡ false) × (k s ≡ (ok b, s'))
guard-ok true e k s b s' h = cc
guard-ok false e k s b s' h = (refl, h)

pub or_raise-ok :
    {A B : Type 0} (o : Option A) (e : Error) (k : A → Action B) (s : Session) (b : B)
    (s' : Session)
    → (or_raise o e >>= k) s ≡ (ok b, s')
    → (a : A) × (o ≡ some a) × (k a s ≡ (ok b, s'))
or_raise-ok none e k s b s' h = cc
or_raise-ok (some a) e k s b s' h = (a, refl, h)
