-- ===== src/Fill.antt =====
-- VirtualFillRepository (app/data/repositories/virtual_fill.py).
use mathlib.Core.List.{reverse}
use stock_ai_platform.Base.{
  ℕ, ◌+◌, Bool, ◌||◌, Option, List, [], ◌∷◌, ◌++◌, ◌==◌, Text, ℤ, pos, leb_ℤ, take, select, get_or,
}
use stock_ai_platform.Base.Decimal.{Decimal, zero_dec, less, at_most}
use stock_ai_platform.Store.{Side, VirtualFill, value_error, Action, gets, raise_if, ◌>>◌, ok}

-- The arguments of `create`; without a time the row gets the column's default, `utc_now`.
pub record NewFill : Type 0 where
  pub order_id : ℕ
  pub account_id : ℕ
  pub symbol : Text
  pub side : Side
  pub quantity : ℤ
  pub fill_price : Decimal
  pub fee : Decimal
  pub stamp_tax : Decimal
  pub slippage : Decimal
  pub gross_amount : Decimal
  pub net_amount : Decimal
  pub filled_at : Option ℕ

unfoldable pub add_fill : NewFill → Action VirtualFill
add_fill a s =
    let row : VirtualFill = record {
      id = s.next_fill;
      order_id = a.order_id;
      account_id = a.account_id;
      symbol = a.symbol;
      side = a.side;
      quantity = a.quantity;
      fill_price = a.fill_price;
      fee = a.fee;
      stamp_tax = a.stamp_tax;
      slippage = a.slippage;
      gross_amount = a.gross_amount;
      net_amount = a.net_amount;
      filled_at = get_or a.filled_at s.clock;
    } in
    (ok row, record s { fills = s.fills ++ row ∷ []; next_fill = s.next_fill + 1 })

abbrev pub has_negative : NewFill → Bool
has_negative a =
    less a.fee zero_dec
    || (less a.stamp_tax zero_dec
        || (less a.slippage zero_dec
            || (less a.gross_amount zero_dec || less a.net_amount zero_dec)))

unfoldable pub create : NewFill → Action VirtualFill
unfolding add_fill
create a = do
  raise_if (leb_ℤ a.quantity (pos 0)) value_error
  raise_if (at_most a.fill_price zero_dec) value_error
  raise_if (has_negative a) value_error
  add_fill a

-- Oldest first.
unfoldable pub list_by_order : ℕ → Action (List VirtualFill)
list_by_order order = gets λ s. select (λ f. f.order_id == order) s.fills

-- Newest first.
unfoldable pub list_by_account : ℕ → ℕ → Action (List VirtualFill)
list_by_account account n =
    gets λ s. take n (reverse (select (λ f. f.account_id == account) s.fills))
