-- ===== src/Store/Real.antt =====
-- The rows of the two real-order tables and the requests that the real-order path puts to the
-- broker, with their words as data types.
use stock_ai_platform.Base.{ℕ, Bool, Option, Text, ℤ}
use stock_ai_platform.Base.Decimal.{Decimal}
use stock_ai_platform.Store.Enums.{Side, OrderType}

pub data RealOrderStatus : Type 0 where
  dry_run created submitted partially_filled : RealOrderStatus
  filled canceled rejected failed : RealOrderStatus

pub data FillStatus : Type 0 where
  full partial : FillStatus

pub record RealOrder : Type 0 where
  pub id : ℕ
  pub candidate_id : ℕ
  pub symbol : Text
  pub side : Side
  pub quantity : ℤ
  pub order_type : OrderType
  pub limit_price : Option Decimal
  pub estimated_amount : Decimal
  pub status : RealOrderStatus
  pub dry_run : Bool
  pub fake_order_no : Option Text
  pub broker_order_no_hash : Option Text
  pub request_id : Option Text
  pub error_code : Option Text
  pub error_message : Option Text
  pub submitted_at : Option ℕ
  pub created_at : ℕ
  pub updated_at : ℕ

pub record RealFill : Type 0 where
  pub id : ℕ
  pub real_order_id : ℕ
  pub symbol : Text
  pub side : Side
  pub quantity : ℤ
  pub fill_price : Decimal
  pub fee : Decimal
  pub tax : Decimal
  pub gross_amount : Decimal
  pub net_amount : Decimal
  pub fill_status : FillStatus
  pub filled_at : ℕ

-- A request that passed the checks of its constructor.
pub record KisOrderRequest : Type 0 where
  pub symbol : Text
  pub side : Side
  pub order_type : OrderType
  pub quantity : ℤ
  pub price : ℤ
  pub account_no : Text
