-- ===== src/Examples/Data.antt =====
-- A paper account, a pending candidate, a day's prices, and the sessions made of them.
use stock_ai_platform.Base.{ℕ, true, false, none, some, List, [], ◌∷◌, codes, pos}
use stock_ai_platform.Base.Decimal.{of_ℕ, ratio, zero_dec}
use stock_ai_platform.Store.{
  VirtualAccount, VirtualPnlSnapshot, DailyPrice, OrderCandidate, Session, Settings, buy, market,
  manual, pending_approval, CandidateStatus,
}
use stock_ai_platform.Approval.{ApprovalActor, CreateRequest}

abbrev pub now : ℕ
now = 1700000000000000

abbrev pub enabled : Settings
enabled = record {
  paper_trading_enabled = true;
  trading_safety_enabled = true;
  kill_switch_enabled = false;
  max_order_amount = 1000000;
  max_daily_order_amount = 5000000;
  max_position_ratio = ratio 3 10;
  max_daily_loss_amount = 100000;
  real_trading_enabled = true;
  kis_order_enabled = true;
  real_order_dry_run = false;
  max_real_order_amount = 1000000;
  max_real_daily_order_amount = 2000000;
  kis_account_no = codes "12345678";
}

-- An order cap below the candidate's amount.
abbrev pub strict : Settings
strict = record enabled { max_order_amount = 1000 }

abbrev pub killed : Settings
killed = record enabled { kill_switch_enabled = true }

abbrev pub account : VirtualAccount
account = record {
  id = 1;
  user_id = some 7;
  name = codes "main";
  initial_cash = of_ℕ 10000000;
  cash_balance = of_ℕ 10000000;
  currency = codes "KRW";
  paper_trading_enabled = true;
  updated_at = 0;
}

abbrev pub row_with : CandidateStatus → OrderCandidate
row_with w = record {
  id = 1;
  account_id = 1;
  source = manual;
  source_ref_id = none;
  symbol = codes "005930";
  side = buy;
  quantity = pos 3;
  order_type = market;
  limit_price = none;
  estimated_amount = of_ℕ 210000;
  status = w;
  risk_check_result = none;
  approver_user_id = none;
  rejection_reason = none;
  expires_at = some 1700001000000000;
  virtual_order_id = none;
  created_at = 1699999990000000;
  updated_at = 1699999990000000;
}

abbrev pub candidate : OrderCandidate
candidate = row_with pending_approval

abbrev pub bar : DailyPrice
bar = record { symbol = codes "005930"; date = 19675; close = of_ℕ 70000 }

abbrev pub snapshot : VirtualPnlSnapshot
snapshot = record {
  id = 1;
  account_id = 1;
  snapshot_date = 19674;
  cash_balance = of_ℕ 10000000;
  market_value = zero_dec;
  total_value = of_ℕ 10000000;
  realized_pnl = zero_dec;
  unrealized_pnl = zero_dec;
  updated_at = 0;
}

abbrev pub session_of : List OrderCandidate → Session
session_of rows = record {
  accounts = account ∷ [];
  orders = [];
  positions = [];
  fills = [];
  snapshots = snapshot ∷ [];
  candidates = rows;
  audits = [];
  prices = bar ∷ [];
  real_orders = [];
  real_fills = [];
  next_account = 2;
  next_order = 1;
  next_position = 1;
  next_fill = 1;
  next_snapshot = 2;
  next_candidate = 2;
  next_audit = 1;
  next_real_order = 1;
  next_real_fill = 1;
  fake_orders = 0;
  sent = [];
  clock = 1700000000000000;
}

abbrev pub pending_session : Session
pending_session = session_of (candidate ∷ [])

abbrev pub actor : ApprovalActor
actor = record { user_id = some 7; ip_hash = some (codes "a1b2c3"); user_agent_hash = none }

abbrev pub request : CreateRequest
request = record {
  account_id = 1;
  source = codes "MANUAL";
  symbol = codes " 005930 ";
  side = codes "BUY";
  quantity = pos 3;
  order_type = codes "MARKET";
  limit_price = none;
  estimated_amount = of_ℕ 210000;
  source_ref_id = none;
  ttl = none;
}
