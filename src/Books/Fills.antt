-- ===== src/Books/Fills.antt =====
-- A fill keeps the books sound, on either side, whether it goes through or is refused.
use stock_ai_platform.Base.{ℤ, pos, leb_ℤ}
use stock_ai_platform.Base.Decimal.{Decimal, zero_dec, of_int, mul, add, sub, less, at_most}
use stock_ai_platform.Store.{
  Side, buy, sell, VirtualAccount, value_error, insufficient_cash, or_raise,
}
use stock_ai_platform.Store.Yields.{
  Yields, IfSome, Any, Yields-pure, Yields-or_raise, Yields-guard, Yields-bind,
}
use stock_ai_platform.Account
use stock_ai_platform.Position
use stock_ai_platform.Cost
use stock_ai_platform.Cost.{PaperFillCosts, PaperTradingCostModel}
use stock_ai_platform.Fill
use stock_ai_platform.Tracker
use stock_ai_platform.Tracker.{FillRequest, FillResult, Moved}
use stock_ai_platform.Books.Sound.{
  Sound, Solvent, Held, SoldHeld, account-get_by_id, update_cash_balance-Sound, apply_buy-Sound,
  apply_sell-SoldHeld,
}

move_buy-Sound :
    (r : FillRequest) (a : VirtualAccount) (net : Decimal)
    → Yields Sound Any (Tracker.move_buy r a net)
unfolding Tracker.move_buy
move_buy-Sound r a net = Yields-guard Any (less a.cash_balance net) insufficient_cash _ λ _.
    Yields-bind Solvent Any (Account.update_cash_balance a (sub a.cash_balance net)) _
      (update_cash_balance-Sound a (sub a.cash_balance net))
      λ a' _.
        Yields-bind Held Any (Position.apply_buy r.account_id r.symbol r.quantity r.fill_price net)
          _ (apply_buy-Sound r.account_id r.symbol r.quantity r.fill_price net)
          λ p _. Yields-pure Any (record { position = p; account = a'; delta = zero_dec }) tt

move_sell-Sound :
    (r : FillRequest) (a : VirtualAccount) (net : Decimal)
    → Yields Sound Any (Tracker.move_sell r a net)
unfolding Tracker.move_sell
move_sell-Sound r a net =
    Yields-bind SoldHeld Any (Position.apply_sell r.account_id r.symbol r.quantity net) _
      (apply_sell-SoldHeld r.account_id r.symbol r.quantity net)
      λ q _.
        Yields-bind Solvent Any (Account.update_cash_balance a (add a.cash_balance net)) _
          (update_cash_balance-Sound a (add a.cash_balance net))
          λ a' _. Yields-pure Any (record { position = q.0; account = a'; delta = q.1 }) tt

move-Sound :
    (side : Side) (r : FillRequest) (a : VirtualAccount) (net : Decimal)
    → Yields Sound Any (Tracker.move side r a net)
unfolding Tracker.move
move-Sound buy r a net = move_buy-Sound r a net
move-Sound sell r a net = move_sell-Sound r a net

fill-Sound : (a : Fill.NewFill) → Yields Sound Any (Fill.create a)
unfolding Fill.create
fill-Sound a = Yields-guard Any (leb_ℤ a.quantity (pos 0)) value_error _ λ _.
    Yields-guard Any (at_most a.fill_price zero_dec) value_error _ λ _.
      Yields-guard Any (Fill.has_negative a) value_error (Fill.add_fill a)
        λ _. record { at = λ s h. (record { solvent = h.solvent; held = h.held }, tt) }

compute-Sound :
    (m : PaperTradingCostModel) (side : Side) (price : Decimal) (q : ℤ)
    → Yields Sound Any (Cost.compute m side price q)
unfolding Cost.compute
compute-Sound m side price q = Yields-guard Any (at_most price zero_dec) value_error _ λ _.
    Yields-guard Any (leb_ℤ q (pos 0)) value_error _
      λ _. Yields-pure Any (Cost.costs_of m side (mul price (of_int q))) tt

-- The fill row that `apply_fill` writes.
abbrev pub filled : FillRequest → PaperFillCosts → Fill.NewFill
filled r costs = record {
  order_id = r.order_id;
  account_id = r.account_id;
  symbol = r.symbol;
  side = r.side;
  quantity = r.quantity;
  fill_price = r.fill_price;
  fee = costs.fee;
  stamp_tax = costs.stamp_tax;
  slippage = costs.slippage;
  gross_amount = costs.gross_amount;
  net_amount = costs.net_amount;
  filled_at = r.filled_at;
}

pub apply_fill-Sound :
    (m : PaperTradingCostModel) (r : FillRequest) → Yields Sound Any (Tracker.apply_fill m r)
unfolding Tracker.apply_fill
apply_fill-Sound m r = Yields-guard Any (leb_ℤ r.quantity (pos 0)) value_error _ λ _.
    Yields-guard Any (at_most r.fill_price zero_dec) value_error _ λ _.
      Yields-bind (IfSome Solvent) Any (Account.get_by_id r.account_id) _
        (account-get_by_id r.account_id)
        λ found h.
          Yields-bind Solvent Any (or_raise found value_error) _
            (Yields-or_raise Solvent found value_error h)
            λ a _.
              Yields-bind Any Any (Cost.compute m r.side r.fill_price r.quantity) _
                (compute-Sound m r.side r.fill_price r.quantity)
                λ c _.
                  Yields-bind Any Any (Tracker.move r.side r a c.net_amount) _
                    (move-Sound r.side r a c.net_amount)
                    λ mv _.
                      Yields-bind Any Any (Fill.create (filled r c)) _ (fill-Sound (filled r c))
                        λ f _.
                          Yields-pure Any
                            (record {
                              fill = f;
                              position = mv.position;
                              account = mv.account;
                              costs = c;
                              realized_pnl_delta = mv.delta;
                            })
                            tt
