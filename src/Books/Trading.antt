-- ===== src/Books/Trading.antt =====
-- The matching of orders keeps the books sound, over any number of orders and runs.
use stock_ai_platform.Base.{ℕ, Option, none, some, List, [], ◌∷◌, ◌++◌, Text, ◌==◌}
use stock_ai_platform.Base.Decimal.{Decimal}
use stock_ai_platform.Store.{
  VirtualOrder, DailyPrice, OrderStatus, Session, insufficient_cash, insufficient_position,
  type_error, Result, ok, err, pure, or_raise, ◌>>=◌,
}
use stock_ai_platform.Store.Yields.{Yields, Any, Yields-pure, Yields-raise, Yields-if, Yields-bind}
use stock_ai_platform.Cost.{PaperTradingCostModel}
use stock_ai_platform.Order
use stock_ai_platform.Prices
use stock_ai_platform.Tracker
use stock_ai_platform.Tracker.{FillResult}
use stock_ai_platform.Broker.Match
use stock_ai_platform.Broker.Match.{ExecutePendingResult, no_result}
use stock_ai_platform.Books.Sound.{Sound}
use stock_ai_platform.Books.Fills.{apply_fill-Sound}

order-update_status :
    (o : VirtualOrder) (t : OrderStatus) (reason : Option Text)
    → Yields Sound Any (Order.update_status o t reason)
unfolding Order.update_status
order-update_status o t reason = record {
  at = λ s h. (record { solvent = h.solvent; held = h.held }, tt);
}

-- Any read leaves the session alone.
read-Sound : {A : Type 0} (f : Session → A) → Yields Sound Any (λ s. (ok (f s), s))
read-Sound f = record { at = λ s h. (h, tt) }

settle-Sound :
    (o : VirtualOrder) (acc : ExecutePendingResult) (r : Result FillResult)
    → Yields Sound Any (Match.settle o acc r)
unfolding Match.settle
settle-Sound o acc (ok r) =
    Yields-bind Any Any (Order.update_status o OrderStatus.filled none) _
      (order-update_status o OrderStatus.filled none)
      λ o' _. Yields-pure Any (record acc { filled = acc.filled ++ (o', r.fill) ∷ [] }) tt
settle-Sound o acc (err insufficient_cash) =
    Yields-bind Any Any
      (Order.update_status o OrderStatus.rejected (some (Match.reason_of insufficient_cash))) _
      (order-update_status o OrderStatus.rejected (some (Match.reason_of insufficient_cash)))
      λ o' _. Yields-pure Any (record acc { rejected = acc.rejected ++ o' ∷ [] }) tt
settle-Sound o acc (err insufficient_position) =
    Yields-bind Any Any
      (Order.update_status o OrderStatus.rejected (some (Match.reason_of insufficient_position))) _
      (order-update_status o OrderStatus.rejected (some (Match.reason_of insufficient_position)))
      λ o' _. Yields-pure Any (record acc { rejected = acc.rejected ++ o' ∷ [] }) tt
settle-Sound o acc (err e) = Yields-raise Any e

attempt-Sound :
    (m : PaperTradingCostModel) (o : VirtualOrder) (close : Decimal) (acc : ExecutePendingResult)
    → Yields Sound Any (Match.attempt m o close acc)
unfolding Match.attempt
attempt-Sound m o close acc = record {
  at = λ s h.
      let r : Tracker.FillRequest = record {
        order_id = o.id;
        account_id = o.account_id;
        symbol = o.symbol;
        side = o.side;
        quantity = o.quantity;
        fill_price = close;
        filled_at = none;
      } in
      (settle-Sound o acc (Tracker.apply_fill m r s).0).at (Tracker.apply_fill m r s).1
        ((apply_fill-Sound m r).at s h).0;
}

cross_limit-Sound :
    (m : PaperTradingCostModel) (o : VirtualOrder) (acc : ExecutePendingResult)
    (close price : Decimal)
    → Yields Sound Any (Match.cross_limit m o acc close price)
unfolding Match.cross_limit
cross_limit-Sound m o acc close price =
    Yields-if Any (Match.limit_unmet o.side price close) (pure (Match.waited acc))
      (Match.attempt m o close acc) (λ _. Yields-pure Any (Match.waited acc) tt)
      (λ _. attempt-Sound m o close acc)

limit_price-Sound : (p : Option Decimal) → Yields Sound Any (or_raise p type_error)
limit_price-Sound none = Yields-raise Any type_error
limit_price-Sound (some p) = Yields-pure Any p tt

cross-Sound :
    (m : PaperTradingCostModel) (o : VirtualOrder) (acc : ExecutePendingResult) (close : Decimal)
    → Yields Sound Any (Match.cross m o acc close)
unfolding Match.cross
cross-Sound m o acc close =
    Yields-if Any (Order.is_limit o.order_type)
      (or_raise o.limit_price type_error >>= Match.cross_limit m o acc close)
      (Match.attempt m o close acc)
      (λ _.
        Yields-bind Any Any (or_raise o.limit_price type_error) (Match.cross_limit m o acc close)
          (limit_price-Sound o.limit_price) λ price _. cross_limit-Sound m o acc close price)
      (λ _. attempt-Sound m o close acc)

match_bar-Sound :
    (m : PaperTradingCostModel) (o : VirtualOrder) (acc : ExecutePendingResult)
    (bar : Option DailyPrice)
    → Yields Sound Any (Match.match_bar m o acc bar)
match_bar-Sound m o acc none = Yields-pure Any _ tt
match_bar-Sound m o acc (some bar) = cross-Sound m o acc bar.close

lookup-Sound :
    (symbol : Text) (date lookback : ℕ)
    → Yields Sound Any (Match.lookup_close_price symbol date lookback)
unfolding Match.lookup_close_price
lookup-Sound symbol date lookback =
    Yields-if Any (lookback == 0) (Prices.get_by_symbol_date symbol date)
      (Prices.get_latest_on_or_before symbol date lookback) (λ _. read-Sound _) (λ _. read-Sound _)

execute_one-Sound :
    (m : PaperTradingCostModel) (date lookback : ℕ) (o : VirtualOrder) (acc : ExecutePendingResult)
    → Yields Sound Any (Match.execute_one m date lookback o acc)
unfolding Match.execute_one
execute_one-Sound m date lookback o acc =
    Yields-if Any (Order.is_terminal o.status) _ _ (λ _. Yields-pure Any _ tt)
      λ _.
        Yields-bind Any Any (Match.lookup_close_price o.symbol date lookback)
          (Match.match_bar m o acc) (lookup-Sound o.symbol date lookback)
          λ bar _. match_bar-Sound m o acc bar

execute_all-Sound :
    (m : PaperTradingCostModel) (date lookback : ℕ) (os : List VirtualOrder)
    (acc : ExecutePendingResult)
    → Yields Sound Any (Match.execute_all m date lookback os acc)
unfolding Match.execute_all
execute_all-Sound m date lookback [] acc = Yields-pure Any acc tt
execute_all-Sound m date lookback (o ∷ os) acc =
    Yields-bind Any Any (Match.execute_one m date lookback o acc)
      (Match.execute_all m date lookback os) (execute_one-Sound m date lookback o acc)
      λ acc' _. execute_all-Sound m date lookback os acc'

list_pending-Sound :
    (account : Option ℕ) (status : OrderStatus)
    → Yields Sound Any (Match.list_pending account status)
unfolding Match.list_pending
list_pending-Sound none status = read-Sound _
list_pending-Sound (some a) status = read-Sound _

execute-Sound :
    (m : PaperTradingCostModel) (date : ℕ) (account : Option ℕ) (lookback : ℕ)
    → Yields Sound Any (Match.execute_pending_orders m date account lookback)
unfolding Match.execute_pending_orders
execute-Sound m date account lookback =
    Yields-bind Any Any (Match.list_pending account OrderStatus.created) _
      (list_pending-Sound account OrderStatus.created)
      λ fresh _.
        Yields-bind Any Any (Match.list_pending account OrderStatus.submitted) _
          (list_pending-Sound account OrderStatus.submitted)
          λ sent _. execute_all-Sound m date lookback (Match.sort_orders (fresh ++ sent)) no_result

-- Whatever the cost model, the prices and the orders are, a run of the matching leaves no account
-- overdrawn and no position short or of negative cost, also where it raises halfway.
pub execute_pending_orders-Sound :
    (m : PaperTradingCostModel) (date : ℕ) (account : Option ℕ) (lookback : ℕ) (s : Session)
    → Sound s
    → Sound (Match.execute_pending_orders m date account lookback s).1
execute_pending_orders-Sound m date account lookback s h =
    ((execute-Sound m date account lookback).at s h).0
