-- ===== src/Position.antt =====
-- VirtualPositionRepository (app/data/repositories/virtual_position.py).
use stock_ai_platform.Base.{
  ℕ, ◌+◌, Bool, true, false, ◌&&◌, Option, none, some, List, [], ◌∷◌, ◌++◌, ltb, ◌==◌,
  if◌then◌else◌, Text, eq_text, ℤ, pos, ◌+ℤ◌, ◌-ℤ◌, ltb_ℤ, leb_ℤ, eq_ℤ, find, select, update_where,
}
use stock_ai_platform.Base.Decimal.{Decimal, zero_dec, of_int, add, sub, mul, div, less, at_most}
use stock_ai_platform.Store.{
  VirtualPosition, value_error, insufficient_position, Action, pure, raise, gets, raise_if, ◌>>=◌,
  ◌>>◌, ok,
}

abbrev pub is_at : ℕ → Text → VirtualPosition → Bool
is_at account symbol p = p.account_id == account && eq_text p.symbol symbol

unfoldable pub get_by_account_symbol : ℕ → Text → Action (Option VirtualPosition)
get_by_account_symbol account symbol = gets λ s. find (is_at account symbol) s.positions

-- `ORDER BY symbol`: code point order, by insertion.
unfoldable pub text_before : Text → Text → Bool
text_before [] t = true
text_before (c ∷ s) [] = false
text_before (c ∷ s) (d ∷ t) = if ltb c d then true else if ltb d c then false else text_before s t

unfoldable pub insert_by_symbol : VirtualPosition → List VirtualPosition → List VirtualPosition
insert_by_symbol p [] = p ∷ []
insert_by_symbol p (q ∷ qs) =
    if text_before p.symbol q.symbol then p ∷ q ∷ qs else q ∷ insert_by_symbol p qs

unfoldable pub order_by_symbol : List VirtualPosition → List VirtualPosition
unfolding insert_by_symbol
order_by_symbol [] = []
order_by_symbol (p ∷ ps) = insert_by_symbol p (order_by_symbol ps)

unfoldable pub list_by_account : ℕ → Action (List VirtualPosition)
unfolding order_by_symbol
list_by_account account =
    gets λ s. order_by_symbol (select (λ p. p.account_id == account) s.positions)

unfoldable pub list_open_by_account : ℕ → Action (List VirtualPosition)
unfolding order_by_symbol
list_open_by_account account = gets λ s.
    order_by_symbol (select (λ p. p.account_id == account && ltb_ℤ (pos 0) p.quantity) s.positions)

unfoldable pub add_position : ℕ → Text → Action VirtualPosition
add_position account symbol s =
    let row : VirtualPosition = record {
      id = s.next_position;
      account_id = account;
      symbol = symbol;
      quantity = pos 0;
      avg_cost = zero_dec;
      realized_pnl = zero_dec;
      updated_at = s.clock;
    } in
    (ok row, record s { positions = s.positions ++ row ∷ []; next_position = s.next_position + 1 })

abbrev pub pure_or_add : Option VirtualPosition → ℕ → Text → Action VirtualPosition
pure_or_add (some p) account symbol = pure p
pure_or_add none account symbol = add_position account symbol

unfoldable pub get_or_create : ℕ → Text → Action VirtualPosition
unfolding get_by_account_symbol add_position
get_or_create account symbol = do
  existing ← get_by_account_symbol account symbol
  pure_or_add existing account symbol

unfoldable pub save : VirtualPosition → Action VirtualPosition
save p s =
    let p' = record p { updated_at = s.clock } in
    (ok p', record s { positions = update_where (λ r. r.id == p.id) (λ _. p') s.positions })

unfoldable pub upsert_position : ℕ → Text → ℤ → Decimal → Decimal → Action VirtualPosition
unfolding get_or_create save
upsert_position account symbol quantity avg_cost delta = do
  raise_if (ltb_ℤ quantity (pos 0)) value_error
  p ← get_or_create account symbol
  save (record p {
    quantity = quantity;
    avg_cost = if ltb_ℤ (pos 0) quantity then avg_cost else zero_dec;
    realized_pnl = add p.realized_pnl delta;
  })

unfoldable pub update_realized_pnl : VirtualPosition → Decimal → Action VirtualPosition
unfolding save
update_realized_pnl p delta = save (record p { realized_pnl = add p.realized_pnl delta })

-- The row after a purchase: the cost basis is blended over the new quantity.
unfoldable pub bought : VirtualPosition → ℤ → Decimal → VirtualPosition
bought p fill_quantity cash_spent =
    let new_qty = p.quantity +ℤ fill_quantity in
    let new_total_cost = add (mul p.avg_cost (of_int p.quantity)) cash_spent in
    record p { quantity = new_qty; avg_cost = div new_total_cost (of_int new_qty) }

unfoldable pub apply_buy : ℕ → Text → ℤ → Decimal → Decimal → Action VirtualPosition
unfolding get_or_create save bought
apply_buy account symbol fill_quantity fill_price cash_spent = do
  raise_if (leb_ℤ fill_quantity (pos 0)) value_error
  raise_if (at_most fill_price zero_dec) value_error
  raise_if (less cash_spent zero_dec) value_error
  p ← get_or_create account symbol
  save (bought p fill_quantity cash_spent)

-- Gain of a sale over the cost of what was sold.
unfoldable pub sale_gain : VirtualPosition → ℤ → Decimal → Decimal
sale_gain p fill_quantity cash_received = sub cash_received (mul p.avg_cost (of_int fill_quantity))

-- The row after a sale; a position that is sold out forgets its average cost.
unfoldable pub sold : VirtualPosition → ℤ → Decimal → VirtualPosition
unfolding sale_gain
sold p fill_quantity cash_received =
    let left = p.quantity -ℤ fill_quantity in
    record p {
      quantity = left;
      avg_cost = if eq_ℤ left (pos 0) then zero_dec else p.avg_cost;
      realized_pnl = add p.realized_pnl (sale_gain p fill_quantity cash_received);
    }

-- The row, if it is there and holds enough.
abbrev pub enough : Option VirtualPosition → ℤ → Action VirtualPosition
enough none fill_quantity = raise insufficient_position
enough (some p) fill_quantity =
    if ltb_ℤ p.quantity fill_quantity then raise insufficient_position else pure p

unfoldable pub apply_sell : ℕ → Text → ℤ → Decimal → Action (VirtualPosition × Decimal)
unfolding get_by_account_symbol save sold sale_gain
apply_sell account symbol fill_quantity cash_received = do
  raise_if (leb_ℤ fill_quantity (pos 0)) value_error
  raise_if (less cash_received zero_dec) value_error
  found ← get_by_account_symbol account symbol
  p ← enough found fill_quantity
  p' ← save (sold p fill_quantity cash_received)
  pure (p', sale_gain p fill_quantity cash_received)
