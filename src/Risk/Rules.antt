-- ===== src/Risk/Rules.antt =====
-- The rules of PreTradeRiskEngine and the reads behind them. Each rule returns its violations.
use stock_ai_platform.Base.{
  ℕ, ◌+◌, ◌*◌, ◌/◌, Bool, true, false, not, ◌&&◌, Option, none, some, List, [], ◌∷◌, ltb, leb, ◌==◌,
  if◌then◌else◌, Text, eq_text, pos, leb_ℤ, eq_ℤ, find, select,
}
use stock_ai_platform.Base.Decimal.{
  Decimal, zero_dec, of_ℕ, of_int, neg, add, mul, div, less, at_most,
}
use stock_ai_platform.Store.{
  buy, same_side, CandidateStatus, draft, risk_checking, pending_approval, VirtualAccount,
  VirtualPosition, VirtualPnlSnapshot, DailyPrice, OrderCandidate, RuleId, account_paper_enabled,
  kill_switch_off, per_symbol_limit, daily_total_limit, position_ratio_limit, daily_loss_limit,
  duplicate_recent, RiskViolation, Settings, Session,
}
use stock_ai_platform.Prices

abbrev pub Violations : Type 0
Violations = List RiskViolation

abbrev pub violation : RuleId → Violations
violation r = record { rule_id = r } ∷ []

-- `ACTIVE_CANDIDATE_STATUSES`
abbrev pub is_active : CandidateStatus → Bool
is_active draft = true
is_active risk_checking = true
is_active pending_approval = true
is_active CandidateStatus.approved = true
is_active _ = false

-- Five minutes, in microseconds.
abbrev pub duplicate_recent_window : ℕ
duplicate_recent_window = 300000000

abbrev pub day_length : ℕ
day_length = 86400000000

-- Korean time is nine hours ahead of UTC (the daylight saving of 1987 and 1988 is left out).
abbrev pub kst_offset : ℕ
kst_offset = 32400000000

unfoldable pub kst_date : ℕ → ℕ
kst_date moment = (moment + kst_offset) / day_length

-- 1. account_paper_enabled
unfoldable pub check_account_paper_enabled : Option VirtualAccount → Violations
check_account_paper_enabled none = violation account_paper_enabled
check_account_paper_enabled (some a) =
    if not a.paper_trading_enabled then violation account_paper_enabled else []

-- 2. kill_switch_off
unfoldable pub check_kill_switch_off : Settings → Violations
check_kill_switch_off settings =
    if settings.kill_switch_enabled then violation kill_switch_off else []

-- The rows of `_sum_active_candidate_amount`: the account's active candidates but this one.
abbrev pub counts_toward : OrderCandidate → OrderCandidate → Bool
counts_toward c r = r.account_id == c.account_id && (is_active r.status && not (r.id == c.id))

unfoldable pub sum_amounts : List OrderCandidate → Decimal
sum_amounts [] = zero_dec
sum_amounts (r ∷ rs) = add r.estimated_amount (sum_amounts rs)

unfoldable pub active_symbol_amount : Session → OrderCandidate → Decimal
unfolding sum_amounts
active_symbol_amount s c =
    sum_amounts (select (λ r. counts_toward c r && eq_text r.symbol c.symbol) s.candidates)

-- Created on the Korean day [00:00, 24:00), as a window in UTC.
abbrev pub on_kst_date : ℕ → OrderCandidate → Bool
on_kst_date date r =
    leb (date * day_length) (r.created_at + kst_offset)
    && ltb (r.created_at + kst_offset) (date * day_length + day_length)

unfoldable pub active_daily_amount : Session → OrderCandidate → ℕ → Decimal
unfolding sum_amounts
active_daily_amount s c date =
    sum_amounts (select (λ r. counts_toward c r && on_kst_date date r) s.candidates)

-- 3. per_symbol_limit
unfoldable pub check_per_symbol_limit : Settings → Session → OrderCandidate → Violations
unfolding active_symbol_amount
check_per_symbol_limit settings s c =
    let total = add (active_symbol_amount s c) c.estimated_amount in
    if less (of_ℕ settings.max_order_amount) total then violation per_symbol_limit else []

-- 4. daily_total_limit
unfoldable pub check_daily_total_limit : Settings → Session → OrderCandidate → ℕ → Violations
unfolding active_daily_amount kst_date
check_daily_total_limit settings s c now =
    let total = add (active_daily_amount s c (kst_date now)) c.estimated_amount in
    if less (of_ℕ settings.max_daily_order_amount) total then violation daily_total_limit else []

-- The position's value at the latest close, or at cost where no price is known.
abbrev pub value_at : Option DailyPrice → VirtualPosition → Decimal
value_at none p = mul p.avg_cost (of_int p.quantity)
value_at (some bar) p = mul bar.close (of_int p.quantity)

unfoldable pub latest_close : Session → Text → Option DailyPrice
unfolding Prices.latest
latest_close s symbol = Prices.latest (select (λ p. eq_text p.symbol symbol) s.prices)

abbrev pub value_of : Session → Option VirtualPosition → Decimal
value_of s none = zero_dec
value_of s (some p) =
    if leb_ℤ p.quantity (pos 0) then zero_dec else value_at (latest_close s p.symbol) p

unfoldable pub estimate_position_market_value : Session → ℕ → Text → Decimal
unfolding latest_close
estimate_position_market_value s account symbol =
    value_of s (find (λ p. p.account_id == account && eq_text p.symbol symbol) s.positions)

abbrev pub later_snapshot : VirtualPnlSnapshot → Option VirtualPnlSnapshot → VirtualPnlSnapshot
later_snapshot p none = p
later_snapshot p (some q) = if ltb p.snapshot_date q.snapshot_date then q else p

-- `ORDER BY snapshot_date DESC LIMIT 1`
unfoldable pub latest_of : List VirtualPnlSnapshot → Option VirtualPnlSnapshot
latest_of [] = none
latest_of (p ∷ ps) = some (later_snapshot p (latest_of ps))

unfoldable pub latest_pnl_snapshot : Session → ℕ → Option VirtualPnlSnapshot
unfolding latest_of
latest_pnl_snapshot s account = latest_of (select (λ p. p.account_id == account) s.snapshots)

abbrev pub total_or_cash : Option VirtualPnlSnapshot → VirtualAccount → Decimal
total_or_cash none a = a.cash_balance
total_or_cash (some snap) a = snap.total_value

unfoldable pub estimate_total_account_value : Session → VirtualAccount → Decimal
unfolding latest_pnl_snapshot
estimate_total_account_value s a = total_or_cash (latest_pnl_snapshot s a.id) a

-- 5. position_ratio_limit: on purchases, where the account is known
unfoldable pub check_ratio : Settings → Session → OrderCandidate → VirtualAccount → Violations
unfolding estimate_position_market_value estimate_total_account_value
check_ratio settings s c a =
    let total = estimate_total_account_value s a in
    let projected = add (estimate_position_market_value s a.id c.symbol) c.estimated_amount in
    if at_most total zero_dec
    then violation position_ratio_limit
    else if less settings.max_position_ratio (div projected total)
    then violation position_ratio_limit
    else []

unfoldable pub check_position_ratio_limit :
    Settings → Session → OrderCandidate → Option VirtualAccount → Violations
unfolding check_ratio
check_position_ratio_limit settings s c none = []
check_position_ratio_limit settings s c (some a) =
    if same_side c.side buy then check_ratio settings s c a else []

-- 6. daily_loss_limit: passes where there is no snapshot
unfoldable pub check_loss : Settings → Option VirtualPnlSnapshot → Violations
check_loss settings none = []
check_loss settings (some snap) =
    if less snap.realized_pnl (neg (of_ℕ settings.max_daily_loss_amount))
    then violation daily_loss_limit
    else []

unfoldable pub check_daily_loss_limit : Settings → Session → OrderCandidate → Violations
unfolding check_loss latest_pnl_snapshot
check_daily_loss_limit settings s c = check_loss settings (latest_pnl_snapshot s c.account_id)

-- 7. duplicate_recent: created_at > now - window
abbrev pub is_duplicate : OrderCandidate → ℕ → OrderCandidate → Bool
is_duplicate c now r =
    r.account_id == c.account_id
    && (eq_text r.symbol c.symbol
        && (same_side r.side c.side
            && (eq_ℤ r.quantity c.quantity
                && (ltb now (r.created_at + duplicate_recent_window)
                    && (is_active r.status && not (r.id == c.id))))))

abbrev pub duplicate_violation : Option OrderCandidate → Violations
duplicate_violation none = []
duplicate_violation (some r) = violation duplicate_recent

unfoldable pub check_duplicate_recent : Session → OrderCandidate → ℕ → Violations
check_duplicate_recent s c now = duplicate_violation (find (is_duplicate c now) s.candidates)
