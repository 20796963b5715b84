-- ===== src/Tracker.antt =====
-- PnLTracker (app/paper/pnl_tracker.py) and the snapshot repository that it writes through
-- (app/data/repositories/virtual_pnl_snapshot.py).
pub mod Snapshot
use stock_ai_platform.Base.{ℕ, Bool, Option, none, some, ℤ, pos, leb_ℤ, Text, if◌then◌else◌}
use stock_ai_platform.Base.Decimal.{Decimal, zero_dec, add, sub, less, at_most}
use stock_ai_platform.Store.{
  Side, buy, sell, VirtualAccount, VirtualPosition, VirtualFill, value_error, insufficient_cash,
  Action, pure, or_raise, raise_if, ◌>>=◌, ◌>>◌,
}
use stock_ai_platform.Cost
use stock_ai_platform.Cost.{PaperFillCosts, PaperTradingCostModel}
use stock_ai_platform.Account
use stock_ai_platform.Position
use stock_ai_platform.Fill

-- The arguments of `apply_fill`.
pub record FillRequest : Type 0 where
  pub order_id : ℕ
  pub account_id : ℕ
  pub symbol : Text
  pub side : Side
  pub quantity : ℤ
  pub fill_price : Decimal
  pub filled_at : Option ℕ

pub record FillResult : Type 0 where
  pub fill : VirtualFill
  pub position : VirtualPosition
  pub account : VirtualAccount
  pub costs : PaperFillCosts
  pub realized_pnl_delta : Decimal

-- What a side does to the cash and the position.
pub record Moved : Type 0 where
  pub position : VirtualPosition
  pub account : VirtualAccount
  pub delta : Decimal

unfoldable pub move_buy : FillRequest → VirtualAccount → Decimal → Action Moved
unfolding Account.update_cash_balance Position.apply_buy
move_buy r account net = do
  raise_if (less account.cash_balance net) insufficient_cash
  account' ← Account.update_cash_balance account (sub account.cash_balance net)
  position ← Position.apply_buy r.account_id r.symbol r.quantity r.fill_price net
  pure (record { position = position; account = account'; delta = zero_dec })

unfoldable pub move_sell : FillRequest → VirtualAccount → Decimal → Action Moved
unfolding Account.update_cash_balance Position.apply_sell
move_sell r account net = do
  (position, delta) ← Position.apply_sell r.account_id r.symbol r.quantity net
  account' ← Account.update_cash_balance account (add account.cash_balance net)
  pure (record { position = position; account = account'; delta = delta })

unfoldable pub move : Side → FillRequest → VirtualAccount → Decimal → Action Moved
unfolding move_buy move_sell
move buy = move_buy
move sell = move_sell

unfoldable pub apply_fill : PaperTradingCostModel → FillRequest → Action FillResult
unfolding Account.get_by_id Cost.compute move Fill.create
apply_fill model r = do
  raise_if (leb_ℤ r.quantity (pos 0)) value_error
  raise_if (at_most r.fill_price zero_dec) value_error
  found ← Account.get_by_id r.account_id
  account ← or_raise found value_error
  costs ← Cost.compute model r.side r.fill_price r.quantity
  moved ← move r.side r account costs.net_amount
  fill ← Fill.create (record {
    order_id = r.order_id;
    account_id = r.account_id;
    symbol = r.symbol;
    side = r.side;
    quantity = r.quantity;
    fill_price = r.fill_price;
    fee = costs.fee;
    stamp_tax = costs.stamp_tax;
    slippage = costs.slippage;
    gross_amount = costs.gross_amount;
    net_amount = costs.net_amount;
    filled_at = r.filled_at;
  })
  pure (record {
    fill = fill;
    position = moved.position;
    account = moved.account;
    costs = costs;
    realized_pnl_delta = moved.delta;
  })
