-- ===== src/Broker/Match.antt =====
-- `execute_pending_orders`: the pending orders, oldest first within each account, against the
-- day's closing prices.
use stock_ai_platform.Base.{
  ℕ, ◌+◌, Bool, ◌&&◌, ◌||◌, Option, none, some, List, [], ◌∷◌, ◌++◌, ltb, ◌==◌, if◌then◌else◌, Text,
  codes, select,
}
use stock_ai_platform.Base.Decimal.{Decimal, less}
use stock_ai_platform.Store.{
  Side, buy, sell, OrderStatus, VirtualOrder, VirtualFill, DailyPrice, Error, type_error, or_raise,
  insufficient_cash, insufficient_position, Result, ok, err, Action, pure, raise, gets, ◌>>=◌,
}
use stock_ai_platform.Cost.{PaperTradingCostModel}
use stock_ai_platform.Order
use stock_ai_platform.Prices
use stock_ai_platform.Tracker
use stock_ai_platform.Tracker.{FillResult}

pub record ExecutePendingResult : Type 0 where
  pub filled : List (VirtualOrder × VirtualFill)
  pub rejected : List VirtualOrder
  pub skipped_no_price : ℕ
  pub skipped_limit_unmet : ℕ
  pub skipped_terminal : ℕ

abbrev pub no_result : ExecutePendingResult
no_result = record {
  filled = [];
  rejected = [];
  skipped_no_price = 0;
  skipped_limit_unmet = 0;
  skipped_terminal = 0;
}

-- Account first, then key.
abbrev pub goes_before : VirtualOrder → VirtualOrder → Bool
goes_before a b = ltb a.account_id b.account_id || (a.account_id == b.account_id && ltb a.id b.id)

-- The stable sort of `candidates`, by insertion.
unfoldable pub insert_order : VirtualOrder → List VirtualOrder → List VirtualOrder
insert_order o [] = o ∷ []
insert_order o (p ∷ ps) = if goes_before p o then p ∷ insert_order o ps else o ∷ p ∷ ps

unfoldable pub sort_orders : List VirtualOrder → List VirtualOrder
unfolding insert_order
sort_orders [] = []
sort_orders (o ∷ os) = insert_order o (sort_orders os)

unfoldable pub list_pending_global : OrderStatus → Action (List VirtualOrder)
list_pending_global status = gets λ s. select (λ o. Order.same_status o.status status) s.orders

unfoldable pub list_pending : Option ℕ → OrderStatus → Action (List VirtualOrder)
unfolding list_pending_global Order.list_by_account
list_pending none status = list_pending_global status
list_pending (some account) status = Order.list_by_account account (some status) 10000

unfoldable pub lookup_close_price : Text → ℕ → ℕ → Action (Option DailyPrice)
unfolding Prices.get_by_symbol_date Prices.get_latest_on_or_before
lookup_close_price symbol date lookback =
    if lookback == 0
    then Prices.get_by_symbol_date symbol date
    else Prices.get_latest_on_or_before symbol date lookback

-- A LIMIT order waits while the close is worse than its limit.
abbrev pub limit_unmet : Side → Decimal → Decimal → Bool
limit_unmet buy price close = less price close
limit_unmet sell price close = less close price

-- The order's `reason` where the source stores the message of the exception.
abbrev pub reason_of : Error → Text
reason_of insufficient_cash = codes "InsufficientCashError"
reason_of _ = codes "InsufficientPositionError"

-- `except InsufficientCashError`, `except InsufficientPositionError`; any other error goes on.
unfoldable pub settle :
    VirtualOrder → ExecutePendingResult → Result FillResult → Action ExecutePendingResult
unfolding Order.update_status
settle o acc (ok r) = do
  o' ← Order.update_status o OrderStatus.filled none
  pure (record acc { filled = acc.filled ++ (o', r.fill) ∷ [] })
settle o acc (err insufficient_cash) = do
  o' ← Order.update_status o OrderStatus.rejected (some (reason_of insufficient_cash))
  pure (record acc { rejected = acc.rejected ++ o' ∷ [] })
settle o acc (err insufficient_position) = do
  o' ← Order.update_status o OrderStatus.rejected (some (reason_of insufficient_position))
  pure (record acc { rejected = acc.rejected ++ o' ∷ [] })
settle o acc (err e) = raise e

-- The call of the tracker inside `try`.
unfoldable pub attempt :
    PaperTradingCostModel
    → VirtualOrder
    → Decimal
    → ExecutePendingResult
    → Action ExecutePendingResult
unfolding Tracker.apply_fill settle
attempt model o close acc s =
    let (r, t) =
      Tracker.apply_fill model
        (record {
          order_id = o.id;
          account_id = o.account_id;
          symbol = o.symbol;
          side = o.side;
          quantity = o.quantity;
          fill_price = close;
          filled_at = none;
        })
        s in
    settle o acc r t

abbrev pub waited : ExecutePendingResult → ExecutePendingResult
waited acc = record acc { skipped_limit_unmet = acc.skipped_limit_unmet + 1 }

unfoldable pub cross_limit :
    PaperTradingCostModel
    → VirtualOrder
    → ExecutePendingResult
    → Decimal
    → Decimal
    → Action ExecutePendingResult
unfolding attempt
cross_limit model o acc close price =
    if limit_unmet o.side price close then pure (waited acc) else attempt model o close acc

-- The check of the limit, and the fill if the order crosses. `Decimal(None)` is a TypeError.
unfoldable pub cross :
    PaperTradingCostModel
    → VirtualOrder
    → ExecutePendingResult
    → Decimal
    → Action ExecutePendingResult
unfolding cross_limit
cross model o acc close =
    if Order.is_limit o.order_type
    then (or_raise o.limit_price type_error >>= cross_limit model o acc close)
    else attempt model o close acc

abbrev pub match_bar :
    PaperTradingCostModel
    → VirtualOrder
    → ExecutePendingResult
    → Option DailyPrice
    → Action ExecutePendingResult
match_bar model o acc none = pure (record acc { skipped_no_price = acc.skipped_no_price + 1 })
match_bar model o acc (some bar) = cross model o acc bar.close

-- One round of the loop.
unfoldable pub execute_one :
    PaperTradingCostModel
    → ℕ
    → ℕ
    → VirtualOrder
    → ExecutePendingResult
    → Action ExecutePendingResult
unfolding lookup_close_price cross attempt
execute_one model date lookback o acc =
    if Order.is_terminal o.status
    then pure (record acc { skipped_terminal = acc.skipped_terminal + 1 })
    else (lookup_close_price o.symbol date lookback >>= match_bar model o acc)

unfoldable pub execute_all :
    PaperTradingCostModel
    → ℕ
    → ℕ
    → List VirtualOrder
    → ExecutePendingResult
    → Action ExecutePendingResult
unfolding execute_one
execute_all model date lookback [] acc = pure acc
execute_all model date lookback (o ∷ os) acc =
    execute_one model date lookback o acc >>= execute_all model date lookback os

unfoldable pub execute_pending_orders :
    PaperTradingCostModel → ℕ → Option ℕ → ℕ → Action ExecutePendingResult
unfolding list_pending sort_orders execute_all
execute_pending_orders model date account lookback = do
  fresh ← list_pending account OrderStatus.created
  sent ← list_pending account OrderStatus.submitted
  execute_all model date lookback (sort_orders (fresh ++ sent)) no_result
