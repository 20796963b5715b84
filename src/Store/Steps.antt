-- ===== src/Store/Steps.antt =====
-- One step of a call whose outcome is known.
use stock_ai_platform.Base.{◌≡◌, refl, ap, Bool, true, false, Option, some}
use stock_ai_platform.Store.Monad.{Error, Result, ok, err, Action, or_raise, raise_if, ◌>>=◌, ◌>>◌}
use stock_ai_platform.Store.Rows.{Session}

pub guard-go :
    {B : Type 0} (c : Bool) (e : Error) (k : Action B) (s : Session)
    → c ≡ false
    → (raise_if c e >> k) s ≡ k s
guard-go true e k s h = cc
guard-go false e k s h = refl

pub guard-stop :
    {B : Type 0} (c : Bool) (e : Error) (k : Action B) (s : Session)
    → c ≡ true
    → (raise_if c e >> k) s ≡ (err e, s)
guard-stop true e k s h = refl
guard-stop false e k s h = cc

module _ {A B : Type 0} where
  pub bind-go :
      (m : Action A) (f : A → Action B) (s : Session) (a : A) (t : Session)
      → m s ≡ (ok a, t)
      → (m >>= f) s ≡ f a t
  bind-go m f s a t h =
      ap {A = Result A × Session}
        (λ r. elim r.0 as (λ _. Result B × Session) [ ok x ↦ f x r.1 | err e ↦ (err e, r.1) ]) h

  pub bind-stop :
      (m : Action A) (f : A → Action B) (s : Session) (e : Error) (t : Session)
      → m s ≡ (err e, t)
      → (m >>= f) s ≡ (err e, t)
  bind-stop m f s e t h =
      ap {A = Result A × Session}
        (λ r. elim r.0 as (λ _. Result B × Session) [ ok x ↦ f x r.1 | err e ↦ (err e, r.1) ]) h

  pub or_raise-go :
      (o : Option A) (e : Error) (k : A → Action B) (s : Session) (a : A)
      → o ≡ some a
      → (or_raise o e >>= k) s ≡ k a s
  or_raise-go o e k s a h = ap (λ x. (or_raise x e >>= k) s) h
