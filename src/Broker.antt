-- ===== src/Broker.antt =====
-- SimulationBroker (app/broker/simulation_broker.py): submission and cancellation. The matching
-- of pending orders is in the child `Match`.
pub mod Match
pub mod Submit
use stock_ai_platform.Base.{
  ℕ, Bool, true, false, not, Option, none, some, List, Text, strip, ℤ, pos, leb_ℤ, if◌then◌else◌,
  is_some,
}
use stock_ai_platform.Base.Decimal.{Decimal, zero_dec, at_most}
use stock_ai_platform.Store.{
  Side, OrderType, market, limit, OrderStatus, parse_side, parse_order_type, VirtualAccount,
  VirtualOrder, Settings, paper_trading_disabled, simulation_broker_error, Action, pure, raise,
  or_raise, raise_if, ◌>>=◌, ◌>>◌,
}
use stock_ai_platform.Account
use stock_ai_platform.Account.{is_blank}
use stock_ai_platform.Order

pub record SubmitResult : Type 0 where
  pub order : VirtualOrder
  pub deduplicated : Bool

-- The arguments of `submit_order`; the words are as the caller gave them.
pub record OrderRequest : Type 0 where
  pub account_id : ℕ
  pub symbol : Text
  pub side : Text
  pub quantity : ℤ
  pub order_type : Text
  pub limit_price : Option Decimal
  pub idempotency_key : Option Text
  pub note : Option Text

-- The limit price is required and positive for LIMIT, and forbidden for MARKET.
unfoldable pub normalize_limit : OrderType → Option Decimal → Action (Option Decimal)
normalize_limit limit none = raise simulation_broker_error
normalize_limit limit (some p) = do
  raise_if (at_most p zero_dec) simulation_broker_error
  pure (some p)
normalize_limit market none = pure none
normalize_limit market (some p) = raise simulation_broker_error

-- The lookup is made only for a request with a key.
abbrev pub find_existing : ℕ → Option Text → Action (Option VirtualOrder)
find_existing account none = pure none
find_existing account (some key) = Order.get_by_idempotency_key account key

abbrev pub reuse_or_create : Option VirtualOrder → Order.NewOrder → Action SubmitResult
reuse_or_create (some o) a = pure (record { order = o; deduplicated = true })
reuse_or_create none a = do o ← Order.create a; pure (record { order = o; deduplicated = false })

-- The row of a request whose words have been read.
abbrev pub order_of : OrderRequest → Side → OrderType → Option Decimal → Order.NewOrder
order_of r side order_type limit_price = record {
  account_id = r.account_id;
  symbol = r.symbol;
  side = side;
  quantity = r.quantity;
  order_type = order_type;
  limit_price = limit_price;
  idempotency_key = r.idempotency_key;
  reason = none;
  note = r.note;
  status = OrderStatus.created;
}

unfoldable pub submit_order : Settings → OrderRequest → Action SubmitResult
unfolding Account.get_by_id normalize_limit Order.get_by_idempotency_key Order.create
submit_order settings r = do
  raise_if (not settings.paper_trading_enabled) paper_trading_disabled
  found ← Account.get_by_id r.account_id
  account ← or_raise found simulation_broker_error
  raise_if (not account.paper_trading_enabled) paper_trading_disabled
  side ← or_raise (parse_side r.side) simulation_broker_error
  order_type ← or_raise (parse_order_type r.order_type) simulation_broker_error
  raise_if (leb_ℤ r.quantity (pos 0)) simulation_broker_error
  raise_if (is_blank (strip r.symbol)) simulation_broker_error
  limit_price ← normalize_limit order_type r.limit_price
  existing ← find_existing r.account_id r.idempotency_key
  reuse_or_create existing (order_of r side order_type limit_price)

unfoldable pub cancel_order : ℕ → Option Text → Action VirtualOrder
unfolding Order.get_by_id Order.cancel
cancel_order order_id reason = do
  found ← Order.get_by_id order_id
  o ← or_raise found simulation_broker_error
  raise_if (not (Order.is_cancelable o.status)) simulation_broker_error
  Order.cancel o reason

unfoldable pub get_order : ℕ → Action (Option VirtualOrder)
unfolding Order.get_by_id
get_order = Order.get_by_id

unfoldable pub list_orders : ℕ → Option OrderStatus → ℕ → Action (List VirtualOrder)
unfolding Order.list_by_account
list_orders = Order.list_by_account
