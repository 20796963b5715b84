-- ===== src/Store/Rows.antt =====
-- The rows of the tables that the trading core reads and writes, and the session. A moment is a number
-- of microseconds since 1970 in UTC, a date a number of days since then.
use stock_ai_platform.Base.{ℕ, Bool, Option, List, Text, ℤ}
use stock_ai_platform.Base.Decimal.{Decimal}
use stock_ai_platform.Store.Enums.{
  Side, OrderType, Source, CandidateStatus, OrderStatus, EventType, RuleId,
}
use stock_ai_platform.Store.Real.{RealOrder, RealFill, KisOrderRequest}

pub record VirtualAccount : Type 0 where
  pub id : ℕ
  pub user_id : Option ℕ
  pub name : Text
  pub initial_cash : Decimal
  pub cash_balance : Decimal
  pub currency : Text
  pub paper_trading_enabled : Bool
  pub updated_at : ℕ

pub record VirtualOrder : Type 0 where
  pub id : ℕ
  pub account_id : ℕ
  pub symbol : Text
  pub side : Side
  pub quantity : ℤ
  pub order_type : OrderType
  pub limit_price : Option Decimal
  pub status : OrderStatus
  pub idempotency_key : Option Text
  pub reason : Option Text
  pub note : Option Text
  pub updated_at : ℕ

pub record VirtualPosition : Type 0 where
  pub id : ℕ
  pub account_id : ℕ
  pub symbol : Text
  pub quantity : ℤ
  pub avg_cost : Decimal
  pub realized_pnl : Decimal
  pub updated_at : ℕ

pub record VirtualFill : Type 0 where
  pub id : ℕ
  pub order_id : ℕ
  pub account_id : ℕ
  pub symbol : Text
  pub side : Side
  pub quantity : ℤ
  pub fill_price : Decimal
  pub fee : Decimal
  pub stamp_tax : Decimal
  pub slippage : Decimal
  pub gross_amount : Decimal
  pub net_amount : Decimal
  pub filled_at : ℕ

pub record VirtualPnlSnapshot : Type 0 where
  pub id : ℕ
  pub account_id : ℕ
  pub snapshot_date : ℕ
  pub cash_balance : Decimal
  pub market_value : Decimal
  pub total_value : Decimal
  pub realized_pnl : Decimal
  pub unrealized_pnl : Decimal
  pub updated_at : ℕ

-- One bar of `daily_prices`; of its columns the core reads only these.
pub record DailyPrice : Type 0 where
  pub symbol : Text
  pub date : ℕ
  pub close : Decimal

-- `RiskViolation`: the severity is always HARD, and the message and its details are left out.
pub record RiskViolation : Type 0 where
  pub rule_id : RuleId

pub record RiskCheckResult : Type 0 where
  pub policy_version : Text
  pub passed : Bool
  pub violations : List RiskViolation
  pub checked_at : ℕ

-- `risk_check_result` holds the result itself where the column holds its JSON rendering.
pub record OrderCandidate : Type 0 where
  pub id : ℕ
  pub account_id : ℕ
  pub source : Source
  pub source_ref_id : Option ℕ
  pub symbol : Text
  pub side : Side
  pub quantity : ℤ
  pub order_type : OrderType
  pub limit_price : Option Decimal
  pub estimated_amount : Decimal
  pub status : CandidateStatus
  pub risk_check_result : Option RiskCheckResult
  pub approver_user_id : Option ℕ
  pub rejection_reason : Option Text
  pub expires_at : Option ℕ
  pub virtual_order_id : Option ℕ
  pub created_at : ℕ
  pub updated_at : ℕ

-- The values that the workflow puts under the keys of `details_json`.
pub data Json : Type 0 where
  text : Text → Json
  number : ℕ → Json
  integer : ℤ → Json
  flag : Bool → Json
  texts : List Text → Json
  null : Json

pub record ApprovalAuditLog : Type 0 where
  pub id : ℕ
  pub candidate_id : ℕ
  pub event_type : EventType
  pub user_id : Option ℕ
  pub reason : Option Text
  pub details : Option (List (Text × Json))
  pub ip_hash : Option Text
  pub user_agent_hash : Option Text
  pub created_at : ℕ

-- The session: the tables in insertion order, the next key of each, and what `utc_now` returns.
-- The clock does not move within one call. `fake_orders` is the module's counter of fake order
-- numbers, and `sent` the log of the requests that a transport put to the broker.
pub record Session : Type 0 where
  pub accounts : List VirtualAccount
  pub orders : List VirtualOrder
  pub positions : List VirtualPosition
  pub fills : List VirtualFill
  pub snapshots : List VirtualPnlSnapshot
  pub candidates : List OrderCandidate
  pub audits : List ApprovalAuditLog
  pub prices : List DailyPrice
  pub real_orders : List RealOrder
  pub real_fills : List RealFill
  pub next_account : ℕ
  pub next_order : ℕ
  pub next_position : ℕ
  pub next_fill : ℕ
  pub next_snapshot : ℕ
  pub next_candidate : ℕ
  pub next_audit : ℕ
  pub next_real_order : ℕ
  pub next_real_fill : ℕ
  pub fake_orders : ℕ
  pub sent : List KisOrderRequest
  pub clock : ℕ

-- The fields of `Settings` that the core reads. The amounts are ints, the ratio a float whose
-- decimal rendering is taken.
pub record Settings : Type 0 where
  pub paper_trading_enabled : Bool
  pub trading_safety_enabled : Bool
  pub kill_switch_enabled : Bool
  pub max_order_amount : ℕ
  pub max_daily_order_amount : ℕ
  pub max_position_ratio : Decimal
  pub max_daily_loss_amount : ℕ
  pub real_trading_enabled : Bool
  pub kis_order_enabled : Bool
  pub real_order_dry_run : Bool
  pub max_real_order_amount : ℕ
  pub max_real_daily_order_amount : ℕ
  pub kis_account_no : Text
