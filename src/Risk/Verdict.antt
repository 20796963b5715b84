-- ===== src/Risk/Verdict.antt =====
-- What a passed evaluation guarantees.
use stock_ai_platform.Base.{
  ℕ, ◌≡◌, refl, true, false, Option, none, some, [], ◌∷◌, ◌++◌, arith, find, Option-cases, inl, inr,
}
use stock_ai_platform.Base.Decimal.{
  of_ℕ, add, div, Le, not_less→Le, neg, Positive, Positive-of_not_at_most,
}
use stock_ai_platform.Store.{
  buy, VirtualAccount, VirtualPnlSnapshot, OrderCandidate, Settings, Session,
}
use stock_ai_platform.Account
use stock_ai_platform.Risk.Rules.{
  Violations, check_account_paper_enabled, check_kill_switch_off, check_per_symbol_limit,
  check_daily_total_limit, check_position_ratio_limit, check_daily_loss_limit,
  check_duplicate_recent, active_symbol_amount, active_daily_amount, kst_date, is_duplicate,
  check_ratio, check_loss, latest_pnl_snapshot, estimate_position_market_value,
  estimate_total_account_value,
}
use stock_ai_platform.Risk.Evaluate.{is_clean, violations, evaluate}

-- Two reports without a violation together are two without one.
clean-split : (xs ys : Violations) → is_clean (xs ++ ys) ≡ true → (xs ≡ []) × (is_clean ys ≡ true)
clean-split [] ys h = (refl, h)
clean-split (v ∷ xs) ys h = cc

clean-nil : (xs : Violations) → is_clean xs ≡ true → xs ≡ []
clean-nil [] h = refl
clean-nil (v ∷ xs) h = cc

-- No rule has a violation.
pub record AllClear (settings : Settings) (s : Session) (c : OrderCandidate) (now : ℕ)
    : Type 0 where
  pub account : check_account_paper_enabled (find (Account.has_id c.account_id) s.accounts) ≡ []
  pub kill_switch : check_kill_switch_off settings ≡ []
  pub per_symbol : check_per_symbol_limit settings s c ≡ []
  pub daily_total : check_daily_total_limit settings s c now ≡ []
  pub ratio :
      check_position_ratio_limit settings s c (find (Account.has_id c.account_id) s.accounts) ≡ []
  pub loss : check_daily_loss_limit settings s c ≡ []
  pub duplicate : check_duplicate_recent s c now ≡ []

pub passed-AllClear :
    (settings : Settings) (s : Session) (c : OrderCandidate) (now : ℕ)
    → (evaluate settings s c now).passed ≡ true
    → AllClear settings s c now
unfolding evaluate violations
passed-AllClear settings s c now h =
    let account = find (Account.has_id c.account_id) s.accounts in
    let h1 = clean-split (check_account_paper_enabled account) _ h in
    let h2 = clean-split (check_kill_switch_off settings) _ h1.1 in
    let h3 = clean-split (check_per_symbol_limit settings s c) _ h2.1 in
    let h4 = clean-split (check_daily_total_limit settings s c now) _ h3.1 in
    let h5 = clean-split (check_position_ratio_limit settings s c account) _ h4.1 in
    let h6 =
      clean-split (check_daily_loss_limit settings s c) (check_duplicate_recent s c now) h5.1 in
    record {
      account = h1.0;
      kill_switch = h2.0;
      per_symbol = h3.0;
      daily_total = h4.0;
      ratio = h5.0;
      loss = h6.0;
      duplicate = clean-nil (check_duplicate_recent s c now) h6.1;
    }

account-enabled :
    (o : Option VirtualAccount)
    → check_account_paper_enabled o ≡ []
    → (a : VirtualAccount) × (o ≡ some a) × (a.paper_trading_enabled ≡ true)
unfolding check_account_paper_enabled
account-enabled none h = cc
account-enabled (some a) h = (a, refl, ground arith)

switch-off :
    (settings : Settings)
    → check_kill_switch_off settings ≡ []
    → settings.kill_switch_enabled ≡ false
unfolding check_kill_switch_off
switch-off settings h = ground arith

symbol-within :
    (settings : Settings) (s : Session) (c : OrderCandidate)
    → check_per_symbol_limit settings s c ≡ []
    → Le (add (active_symbol_amount s c) c.estimated_amount) (of_ℕ settings.max_order_amount)
unfolding check_per_symbol_limit
symbol-within settings s c h =
    not_less→Le (of_ℕ settings.max_order_amount) (add (active_symbol_amount s c) c.estimated_amount)
      (ground arith)

day-within :
    (settings : Settings) (s : Session) (c : OrderCandidate) (now : ℕ)
    → check_daily_total_limit settings s c now ≡ []
    → Le
        (add (active_daily_amount s c (kst_date now)) c.estimated_amount)
        (of_ℕ settings.max_daily_order_amount)
unfolding check_daily_total_limit
day-within settings s c now h =
    not_less→Le (of_ℕ settings.max_daily_order_amount)
      (add (active_daily_amount s c (kst_date now)) c.estimated_amount) (ground arith)

no-duplicate :
    (s : Session) (c : OrderCandidate) (now : ℕ)
    → check_duplicate_recent s c now ≡ []
    → find (is_duplicate c now) s.candidates ≡ none
unfolding check_duplicate_recent
no-duplicate s c now h = elim (Option-cases (find (is_duplicate c now) s.candidates)) [
  | inl absent ↦ absent
  | inr (r, present) ↦ cc
]

-- An evaluation that passes: the account exists and has paper trading on, the kill switch is off,
-- the active amounts on the symbol and on the Korean day stay with the candidate's own amount
-- within their caps, and no active twin of the candidate was created in the last five minutes.
pub evaluate-passed :
    (settings : Settings) (s : Session) (c : OrderCandidate) (now : ℕ)
    → (evaluate settings s c now).passed ≡ true
    → ((a : VirtualAccount) × (find (Account.has_id c.account_id) s.accounts ≡ some a)
        × (a.paper_trading_enabled ≡ true))
      × (settings.kill_switch_enabled ≡ false)
      × Le (add (active_symbol_amount s c) c.estimated_amount) (of_ℕ settings.max_order_amount)
      × Le
          (add (active_daily_amount s c (kst_date now)) c.estimated_amount)
          (of_ℕ settings.max_daily_order_amount)
      × (find (is_duplicate c now) s.candidates ≡ none)
evaluate-passed settings s c now h =
    let k = passed-AllClear settings s c now h in
    (
      account-enabled (find (Account.has_id c.account_id) s.accounts) k.account,
      switch-off settings k.kill_switch,
      symbol-within settings s c k.per_symbol,
      day-within settings s c now k.daily_total,
      no-duplicate s c now k.duplicate,
    )

-- A purchase that passes on a known account: the account has a positive total value, and the
-- position's value with the candidate's amount is at most the maximal ratio of it.
pub evaluate-ratio :
    (settings : Settings) (s : Session) (c : OrderCandidate) (now : ℕ) (a : VirtualAccount)
    → (evaluate settings s c now).passed ≡ true
    → find (Account.has_id c.account_id) s.accounts ≡ some a
    → c.side ≡ buy
    → Positive (estimate_total_account_value s a)
      × Le
          (div
            (add (estimate_position_market_value s a.id c.symbol) c.estimated_amount)
            (estimate_total_account_value s a))
          settings.max_position_ratio
unfolding check_position_ratio_limit check_ratio
evaluate-ratio settings s c now a h found side =
    let k = (passed-AllClear settings s c now h).ratio in
    grind (
      arith,
      Positive-of_not_at_most (estimate_total_account_value s a),
      not_less→Le settings.max_position_ratio (
          div (add (estimate_position_market_value s a.id c.symbol) c.estimated_amount)
            (estimate_total_account_value s a)),
    )

-- A candidate that passes, on an account with a snapshot: the latest snapshot's realized profit
-- is no loss beyond the cap.
pub evaluate-loss :
    (settings : Settings) (s : Session) (c : OrderCandidate) (now : ℕ) (p : VirtualPnlSnapshot)
    → (evaluate settings s c now).passed ≡ true
    → latest_pnl_snapshot s c.account_id ≡ some p
    → Le (neg (of_ℕ settings.max_daily_loss_amount)) p.realized_pnl
unfolding check_daily_loss_limit check_loss
evaluate-loss settings s c now p h found =
    let k = (passed-AllClear settings s c now h).loss in
    not_less→Le p.realized_pnl (neg (of_ℕ settings.max_daily_loss_amount)) (ground arith)
