-- ===== src/Store/Monad.antt =====
-- A call on the session: it returns or raises, and what it wrote before a raise stays written in
-- the session until the caller commits or drops it.
use stock_ai_platform.Base.{Bool, true, false, Option, none, some, if◌then◌else◌}
use stock_ai_platform.Store.Rows.{Session}

-- The exception classes that the modelled code raises, without their messages.
pub data Error : Type 0 where
  value_error type_error insufficient_cash insufficient_position : Error
  paper_trading_disabled simulation_broker_error : Error
  candidate_validation invalid_candidate_transition audit_validation : Error
  approval_service_error trading_safety_disabled kill_switch_blocked approval_denied : Error
  transport_error : Error

pub data Result {ℓ} (A : Type ℓ) : Type ℓ where
  ok : A → Result A
  err : Error → Result A

abbrev pub Action : Type 0 → Type 0
Action V = Session → Result V × Session

abbrev pub Done : Type 0
Done = Unit {0}

-- A raise before the rest of the call skips it.
abbrev pub ◌>>=◌ : {V W : Type 0} → Action V → (V → Action W) → Action W
◌>>=◌ call rest s = let (r, t) = call s in elim r [ ok v ↦ rest v t | err e ↦ (err e, t) ]

abbrev pub ◌>>◌ : {V W : Type 0} → Action V → Action W → Action W
call >> rest = call >>= λ _. rest

infixl 5 ◌>>=◌ ◌>>◌
-- `if test: raise e`
abbrev pub raise_if : Bool → Error → Action Done
raise_if test e s = (if test then err e else ok tt, s)

module _ {V : Type 0} where
  abbrev pub raise : Error → Action V
  raise e s = (err e, s)

  abbrev pub pure : V → Action V
  pure v s = (ok v, s)

  -- `if x is None: raise e`
  abbrev pub or_raise : Option V → Error → Action V
  or_raise (some v) e = pure v
  or_raise none e = raise e

  abbrev pub gets : (Session → V) → Action V
  gets read s = (ok (read s), s)

abbrev pub modify : (Session → Session) → Action Done
modify f s = (ok tt, f s)

-- `try: m  except ...: handler`, where the handler takes the error.
abbrev pub catch : {A : Type 0} → Action A → (Error → Action A) → Action A
catch m handler s = let (r, t) = m s in elim r [ ok a ↦ (ok a, t) | err e ↦ handler e t ]

abbrev pub is_ok {ℓ} : {A : Type ℓ} → Result A → Bool
is_ok (ok a) = true
is_ok (err e) = false
