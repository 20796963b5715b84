-- ===== src/Account.antt =====
-- VirtualAccountRepository (app/data/repositories/virtual_account.py).
use stock_ai_platform.Base.{
  ℕ, ◌+◌, Bool, true, false, Option, none, some, List, [], ◌∷◌, ◌++◌, ◌==◌, Text, strip, find,
  select, update_where,
}
use stock_ai_platform.Base.Decimal.{Decimal, zero_dec, less}
use stock_ai_platform.Store.{VirtualAccount, value_error, Action, gets, raise_if, ◌>>◌, ok}

abbrev pub is_blank : Text → Bool
is_blank [] = true
is_blank (c ∷ t) = false

-- The arguments of `create`.
pub record NewAccount : Type 0 where
  pub name : Text
  pub initial_cash : Decimal
  pub user_id : Option ℕ
  pub currency : Text
  pub paper_trading_enabled : Bool

unfoldable pub add_account : NewAccount → Action VirtualAccount
add_account a s =
    let row : VirtualAccount = record {
      id = s.next_account;
      user_id = a.user_id;
      name = a.name;
      initial_cash = a.initial_cash;
      cash_balance = a.initial_cash;
      currency = a.currency;
      paper_trading_enabled = a.paper_trading_enabled;
      updated_at = s.clock;
    } in
    (ok row, record s { accounts = s.accounts ++ row ∷ []; next_account = s.next_account + 1 })

unfoldable pub create : NewAccount → Action VirtualAccount
unfolding add_account
create a = do
  raise_if (is_blank (strip a.name)) value_error
  raise_if (less a.initial_cash zero_dec) value_error
  add_account a

abbrev pub has_id : ℕ → VirtualAccount → Bool
has_id i a = a.id == i

unfoldable pub get_by_id : ℕ → Action (Option VirtualAccount)
get_by_id i = gets λ s. find (has_id i) s.accounts

-- `user_id == user_id` in SQL, where NULL matches NULL by `IS`.
abbrev pub same_user : Option ℕ → Option ℕ → Bool
same_user none none = true
same_user (some a) (some b) = a == b
same_user _ _ = false

unfoldable pub list_by_user : Option ℕ → Action (List VirtualAccount)
list_by_user user = gets λ s. select (λ a. same_user a.user_id user) s.accounts

-- The account of the lowest key.
unfoldable pub get_default : Option ℕ → Action (Option VirtualAccount)
get_default user = gets λ s. find (λ a. same_user a.user_id user) s.accounts

unfoldable pub save : VirtualAccount → Action VirtualAccount
save a s =
    let a' = record a { updated_at = s.clock } in
    (ok a', record s { accounts = update_where (has_id a.id) (λ _. a') s.accounts })

unfoldable pub update_cash_balance : VirtualAccount → Decimal → Action VirtualAccount
unfolding save
update_cash_balance a new_balance = do
  raise_if (less new_balance zero_dec) value_error
  save (record a { cash_balance = new_balance })

unfoldable pub set_paper_trading_enabled : VirtualAccount → Bool → Action VirtualAccount
unfolding save
set_paper_trading_enabled a enabled = save (record a { paper_trading_enabled = enabled })
