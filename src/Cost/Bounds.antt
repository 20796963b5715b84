-- ===== src/Cost/Bounds.antt =====
-- Bounds on the costs of a fill.
use stock_ai_platform.Base.{arith, Bool-cases, inl, inr, if◌then◌else◌}
use stock_ai_platform.Base.Decimal.{
  Le-trans, add-Le, sub-Le, zero_dec-Le, Decimal, Le, Nonneg, zero_dec, add, sub, mul, less,
  add-Nonneg, mul-Nonneg, Nonneg-of_not_less,
}
use stock_ai_platform.Store.{Side, buy, sell}
use stock_ai_platform.Cost.{PaperFillCosts, PaperTradingCostModel, costs_of}

pub record RatesNonneg (m : PaperTradingCostModel) : Type 0 where
  pub buy_fee : Nonneg m.buy_fee_rate
  pub sell_fee : Nonneg m.sell_fee_rate
  pub sell_tax : Nonneg m.sell_tax_rate
  pub slippage : Nonneg m.slippage_rate

pub record CostsNonneg (c : PaperFillCosts) : Type 0 where
  pub gross : Nonneg c.gross_amount
  pub fee : Nonneg c.fee
  pub tax : Nonneg c.stamp_tax
  pub slippage : Nonneg c.slippage
  pub net : Nonneg c.net_amount

clamp-Nonneg : (a : Decimal) → Nonneg (if less a zero_dec then zero_dec else a)
clamp-Nonneg a = elim (Bool-cases (less a zero_dec)) [
  | inl e ↦ rw e (omega arith)
  | inr e ↦ rw e (Nonneg-of_not_less a e)
]

-- With nonnegative rates and a nonnegative gross amount, no component of the costs of a fill is
-- negative, on either side.
pub costs_of-Nonneg :
    (m : PaperTradingCostModel) (side : Side) (gross : Decimal)
    → RatesNonneg m
    → Nonneg gross
    → CostsNonneg (costs_of m side gross)
unfolding costs_of
costs_of-Nonneg m buy gross rates g = record {
  gross = g;
  fee = mul-Nonneg gross _ g rates.buy_fee;
  tax = omega arith;
  slippage = mul-Nonneg gross _ g rates.slippage;
  net =
      add-Nonneg _ _ (add-Nonneg gross _ g (mul-Nonneg gross _ g rates.buy_fee))
        (mul-Nonneg gross _ g rates.slippage);
}
costs_of-Nonneg m sell gross rates g = record {
  gross = g;
  fee = mul-Nonneg gross _ g rates.sell_fee;
  tax = mul-Nonneg gross _ g rates.sell_tax;
  slippage = mul-Nonneg gross _ g rates.slippage;
  net = clamp-Nonneg _;
}

clamp-Le : (a b : Decimal) → Nonneg b → Le a b → Le (if less a zero_dec then zero_dec else a) b
clamp-Le a b h k = elim (Bool-cases (less a zero_dec)) [
  | inl e ↦ rw e (zero_dec-Le b h)
  | inr e ↦ rw e k
]

-- With nonnegative rates and a nonnegative gross amount, a purchase costs at least the gross amount
-- and a sale brings in at most that, so a sale brings in at most what a purchase of the same gross
-- amount costs.
pub costs_of-no_gain :
    (m : PaperTradingCostModel) (gross : Decimal)
    → RatesNonneg m
    → Nonneg gross
    → Le gross (costs_of m buy gross).net_amount
      × Le (costs_of m sell gross).net_amount gross
      × Le (costs_of m sell gross).net_amount (costs_of m buy gross).net_amount
unfolding costs_of
costs_of-no_gain m gross rates g =
    let fee = mul gross m.buy_fee_rate in
    let slip = mul gross m.slippage_rate in
    let slip_nonneg : Nonneg slip = mul-Nonneg gross m.slippage_rate g rates.slippage in
    let fee' = mul gross m.sell_fee_rate in
    let tax = mul gross m.sell_tax_rate in
    let up : Le gross (add (add gross fee) slip) =
      Le-trans gross (add gross fee) (add (add gross fee) slip)
        (add-Le gross fee (mul-Nonneg gross m.buy_fee_rate g rates.buy_fee))
        (add-Le (add gross fee) slip slip_nonneg) in
    let first : Le (sub gross fee') gross =
      sub-Le gross fee' (mul-Nonneg gross m.sell_fee_rate g rates.sell_fee) in
    let second : Le (sub (sub gross fee') tax) (sub gross fee') =
      sub-Le (sub gross fee') tax (mul-Nonneg gross m.sell_tax_rate g rates.sell_tax) in
    let third : Le (sub (sub (sub gross fee') tax) slip) (sub (sub gross fee') tax) =
      sub-Le (sub (sub gross fee') tax) slip slip_nonneg in
    let net = sub (sub (sub gross fee') tax) slip in
    let down : Le (if less net zero_dec then zero_dec else net) gross = clamp-Le net gross g (
      Le-trans net (sub (sub gross fee') tax) gross third
        (Le-trans (sub (sub gross fee') tax) (sub gross fee') gross second first)) in
    (up, down, Le-trans _ gross _ down up)
