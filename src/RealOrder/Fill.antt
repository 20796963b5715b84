-- ===== src/RealOrder/Fill.antt =====
-- RealFillRepository (app/data/repositories/real_fill.py).
use mathlib.Core.List.{reverse}
use stock_ai_platform.Base.{
  ℕ, ◌+◌, Bool, List, [], ◌∷◌, ◌++◌, ◌==◌, Text, ℤ, pos, leb_ℤ, ◌+ℤ◌, take, select,
}
use stock_ai_platform.Base.Decimal.{Decimal, zero_dec, less, at_most}
use stock_ai_platform.Store.{
  Side, FillStatus, RealFill, Session, value_error, Action, raise_if, gets, ◌>>◌, ok,
}

-- The arguments of `create`.
pub record NewRealFill : Type 0 where
  pub real_order_id : ℕ
  pub symbol : Text
  pub side : Side
  pub quantity : ℤ
  pub fill_price : Decimal
  pub fee : Decimal
  pub tax : Decimal
  pub gross_amount : Decimal
  pub net_amount : Decimal
  pub fill_status : FillStatus
  pub filled_at : ℕ

abbrev pub row_of : NewRealFill → ℕ → RealFill
row_of a id = record {
  id = id;
  real_order_id = a.real_order_id;
  symbol = a.symbol;
  side = a.side;
  quantity = a.quantity;
  fill_price = a.fill_price;
  fee = a.fee;
  tax = a.tax;
  gross_amount = a.gross_amount;
  net_amount = a.net_amount;
  fill_status = a.fill_status;
  filled_at = a.filled_at;
}

abbrev pub add_fill : NewRealFill → Action RealFill
add_fill a s =
    let f = row_of a s.next_real_fill in
    (ok f, record s { real_fills = s.real_fills ++ f ∷ []; next_real_fill = s.next_real_fill + 1 })

unfoldable pub create : NewRealFill → Action RealFill
unfolding less at_most
create a = do
  raise_if (leb_ℤ a.quantity (pos 0)) value_error
  raise_if (at_most a.fill_price zero_dec) value_error
  raise_if (less a.gross_amount zero_dec) value_error
  raise_if (less a.net_amount zero_dec) value_error
  add_fill a

abbrev pub of_order : ℕ → RealFill → Bool
of_order order f = f.real_order_id == order

-- By the time of the fill, which is the order of insertion.
unfoldable pub list_by_order : ℕ → ℕ → Action (List RealFill)
list_by_order order n = gets λ s. take n (select (of_order order) s.real_fills)

unfoldable pub list_recent : ℕ → Action (List RealFill)
list_recent n = gets λ s. take n (reverse s.real_fills)

unfoldable pub sum_quantity : List RealFill → ℤ
unfolding ◌+ℤ◌
sum_quantity [] = pos 0
sum_quantity (f ∷ fs) = f.quantity +ℤ sum_quantity fs

unfoldable pub total_filled_quantity : ℕ → Session → ℤ
unfolding sum_quantity
total_filled_quantity order s = sum_quantity (select (of_order order) s.real_fills)
