-- ===== src/Candidate/Created.antt =====
-- What `create` lets into the table.
use stock_ai_platform.Base.{
  ◌≡◌, inl, inr, Option-cases, ◌≢◌, Option, none, some, [], ◌∷◌, ◌++◌, arith, strip, upper, pos,
  ◌≤ℤ◌,
}
use stock_ai_platform.Base.Decimal.{
  Decimal, Nonneg, Positive, Nonneg-of_not_less, Positive-of_not_at_most,
}
use stock_ai_platform.Store.{OrderType, market, limit, OrderCandidate, Session, ok}
use stock_ai_platform.Candidate.{NewCandidate, normalize_limit, create}

-- A limit price stands on LIMIT rows alone, and is positive there.
abbrev pub LimitFits : OrderType → Option Decimal → Type 0
LimitFits market none = Unit
LimitFits market (some p) = ⊥
LimitFits limit none = ⊥
LimitFits limit (some p) = Positive p

-- What the repository promises of a row.
pub record IsValid (c : OrderCandidate) : Type 0 where
  pub quantity_pos : pos 1 ≤ℤ c.quantity
  pub limit_fits : LimitFits c.order_type c.limit_price
  pub amount_nonneg : Nonneg c.estimated_amount

pub normalize_limit-fits :
    (t : OrderType) (p : Option Decimal) (s : Session) (q : Option Decimal) (s' : Session)
    → normalize_limit t p s ≡ (ok q, s')
    → LimitFits t q × (s' ≡ s)
unfolding normalize_limit
normalize_limit-fits market p s q s' h = ground arith
normalize_limit-fits limit none s q s' h = cc
normalize_limit-fits limit (some p) s q s' h = grind (arith, Positive-of_not_at_most p)

-- A successful `create` returns a valid row under the next key, and appends it to the table.
pub create-IsValid :
    (a : NewCandidate) (s : Session) (c : OrderCandidate) (s' : Session)
    → create a s ≡ (ok c, s')
    → IsValid c
      × (c.id ≡ s.next_candidate)
      × (strip a.symbol ≢ [])
      × (c.symbol ≡ upper (strip a.symbol))
      × (s'.candidates ≡ s.candidates ++ c ∷ [])
unfolding create
create-IsValid a s c s' h = elim (Option-cases a.limit_price) [
  | inl absent ↦ ground (arith, Nonneg-of_not_less a.estimated_amount)
  | inr (p, present) ↦
      ground (arith, Nonneg-of_not_less a.estimated_amount, Positive-of_not_at_most p)
]
