-- ===== src/Order.antt =====
-- VirtualOrderRepository (app/data/repositories/virtual_order.py).
use mathlib.Core.List.{reverse}
use stock_ai_platform.Base.{
  ℕ, ◌+◌, Bool, true, false, not, ◌&&◌, Option, none, some, List, [], ◌∷◌, ◌++◌, ◌==◌, is_some,
  Text, eq_text, ℤ, pos, leb_ℤ, take, find, select, update_where,
}
use stock_ai_platform.Base.Decimal.{Decimal}
use stock_ai_platform.Store.{
  Side, OrderType, market, limit, OrderStatus, VirtualOrder, value_error, Action, gets, raise_if,
  ◌>>◌, ok,
}

-- The arguments of `create`, with the words already read: the side, the type and the status are
-- among the valid ones.
pub record NewOrder : Type 0 where
  pub account_id : ℕ
  pub symbol : Text
  pub side : Side
  pub quantity : ℤ
  pub order_type : OrderType
  pub limit_price : Option Decimal
  pub idempotency_key : Option Text
  pub reason : Option Text
  pub note : Option Text
  pub status : OrderStatus

abbrev pub is_limit : OrderType → Bool
is_limit limit = true
is_limit market = false

unfoldable pub add_order : NewOrder → Action VirtualOrder
add_order a s =
    let row : VirtualOrder = record {
      id = s.next_order;
      account_id = a.account_id;
      symbol = a.symbol;
      side = a.side;
      quantity = a.quantity;
      order_type = a.order_type;
      limit_price = a.limit_price;
      status = a.status;
      idempotency_key = a.idempotency_key;
      reason = a.reason;
      note = a.note;
      updated_at = s.clock;
    } in
    (ok row, record s { orders = s.orders ++ row ∷ []; next_order = s.next_order + 1 })

unfoldable pub create : NewOrder → Action VirtualOrder
unfolding add_order
create a = do
  raise_if (leb_ℤ a.quantity (pos 0)) value_error
  raise_if (is_limit a.order_type && not (is_some a.limit_price)) value_error
  raise_if (not (is_limit a.order_type) && is_some a.limit_price) value_error
  add_order a

abbrev pub has_id : ℕ → VirtualOrder → Bool
has_id i o = o.id == i

unfoldable pub get_by_id : ℕ → Action (Option VirtualOrder)
get_by_id i = gets λ s. find (has_id i) s.orders

abbrev pub same_status : OrderStatus → OrderStatus → Bool
same_status OrderStatus.created OrderStatus.created = true
same_status OrderStatus.submitted OrderStatus.submitted = true
same_status OrderStatus.partially_filled OrderStatus.partially_filled = true
same_status OrderStatus.filled OrderStatus.filled = true
same_status OrderStatus.canceled OrderStatus.canceled = true
same_status OrderStatus.rejected OrderStatus.rejected = true
same_status _ _ = false

-- Newest first.
unfoldable pub list_by_account : ℕ → Option OrderStatus → ℕ → Action (List VirtualOrder)
list_by_account account status n = gets λ s. take n (
    reverse (
      select
        (λ o.
          o.account_id == account && elim status [ none ↦ true | some w ↦ same_status o.status w ])
        s.orders))

-- A NULL key matches nothing.
abbrev pub has_key : ℕ → Text → VirtualOrder → Bool
has_key account key o =
    o.account_id == account && elim o.idempotency_key [ none ↦ false | some k ↦ eq_text k key ]

unfoldable pub get_by_idempotency_key : ℕ → Text → Action (Option VirtualOrder)
get_by_idempotency_key account key = gets λ s. find (has_key account key) s.orders

abbrev pub or_keep {ℓ} : {A : Type ℓ} → Option A → Option A → Option A
or_keep none old = old
or_keep (some x) old = some x

unfoldable pub update_status : VirtualOrder → OrderStatus → Option Text → Action VirtualOrder
update_status o new_status reason s =
    let o' : VirtualOrder = record o {
      status = new_status;
      reason = or_keep reason o.reason;
      updated_at = s.clock;
    } in
    (ok o', record s { orders = update_where (has_id o.id) (λ _. o') s.orders })

-- `CANCELABLE_STATUSES`
abbrev pub is_cancelable : OrderStatus → Bool
is_cancelable OrderStatus.created = true
is_cancelable OrderStatus.submitted = true
is_cancelable _ = false

-- `TERMINAL_STATUSES`
abbrev pub is_terminal : OrderStatus → Bool
is_terminal OrderStatus.filled = true
is_terminal OrderStatus.partially_filled = true
is_terminal OrderStatus.canceled = true
is_terminal OrderStatus.rejected = true
is_terminal _ = false

unfoldable pub cancel : VirtualOrder → Option Text → Action VirtualOrder
unfolding update_status
cancel o reason = do
  raise_if (not (is_cancelable o.status)) value_error
  update_status o OrderStatus.canceled reason
