-- ===== src/Cost.antt =====
-- The cost models of app/backtest/cost_model.py.
pub mod Bounds
use stock_ai_platform.Base.{ℕ, Option, none, some, Bool, if◌then◌else◌, ℤ, pos, leb_ℤ}
use stock_ai_platform.Base.Decimal.{
  Decimal, zero_dec, of_ℕ, of_int, ratio, add, sub, mul, less, at_most,
}
use stock_ai_platform.Store.{
  Side, buy, sell, value_error, Action, Result, ok, err, pure, raise_if, ◌>>=◌, ◌>>◌,
}

-- `CostModel`: one deduction for the summaries of the backtest.
pub record CostModel : Type 0 where
  pub buy_fee : Decimal
  pub sell_fee : Decimal
  pub sell_tax : Decimal
  pub slippage : Decimal

abbrev pub default_cost_model : CostModel
default_cost_model = record {
  buy_fee = ratio 15 100000;
  sell_fee = ratio 15 100000;
  sell_tax = ratio 20 10000;
  slippage = ratio 10 10000;
}

unfoldable pub total_cost : CostModel → Decimal
total_cost m = add (add (add m.buy_fee m.sell_fee) m.sell_tax) m.slippage

-- `CostModel.apply`: percent in, percent out; a missing return stays missing.
unfoldable pub apply : CostModel → Option Decimal → Option Decimal
unfolding total_cost
apply m none = none
apply m (some raw_return) = some (sub raw_return (mul (total_cost m) (of_ℕ 100)))

pub record PaperFillCosts : Type 0 where
  pub gross_amount : Decimal
  pub fee : Decimal
  pub stamp_tax : Decimal
  pub slippage : Decimal
  pub net_amount : Decimal

pub record PaperTradingCostModel : Type 0 where
  pub buy_fee_rate : Decimal
  pub sell_fee_rate : Decimal
  pub sell_tax_rate : Decimal
  pub slippage_rate : Decimal

abbrev pub default_paper_model : PaperTradingCostModel
default_paper_model = record {
  buy_fee_rate = ratio 15 100000;
  sell_fee_rate = ratio 15 100000;
  sell_tax_rate = ratio 18 10000;
  slippage_rate = ratio 5 10000;
}

-- The costs by side; a sale whose costs exceed its gross amount brings in nothing.
unfoldable pub costs_of : PaperTradingCostModel → Side → Decimal → PaperFillCosts
costs_of m buy gross =
    let fee = mul gross m.buy_fee_rate in
    let slippage = mul gross m.slippage_rate in
    record {
      gross_amount = gross;
      fee = fee;
      stamp_tax = zero_dec;
      slippage = slippage;
      net_amount = add (add gross fee) slippage;
    }
costs_of m sell gross =
    let fee = mul gross m.sell_fee_rate in
    let stamp_tax = mul gross m.sell_tax_rate in
    let slippage = mul gross m.slippage_rate in
    let net = sub (sub (sub gross fee) stamp_tax) slippage in
    record {
      gross_amount = gross;
      fee = fee;
      stamp_tax = stamp_tax;
      slippage = slippage;
      net_amount = if less net zero_dec then zero_dec else net;
    }

unfoldable pub compute : PaperTradingCostModel → Side → Decimal → ℤ → Action PaperFillCosts
unfolding costs_of
compute m side fill_price quantity = do
  raise_if (at_most fill_price zero_dec) value_error
  raise_if (leb_ℤ quantity (pos 0)) value_error
  pure (costs_of m side (mul fill_price (of_int quantity)))
