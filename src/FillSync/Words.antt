-- ===== src/FillSync/Words.antt =====
-- The words of a fill sync, the broker's total and the price of a fill.
use stock_ai_platform.Base.{ℕ, Bool, true, false, ◌&&◌, Option, if◌then◌else◌, ℤ, pos, ltb_ℤ}
use stock_ai_platform.Base.Decimal.{Decimal, zero_dec, of_ℕ, of_int, div, less}
use stock_ai_platform.Store.{RealOrderStatus, RealOrder}
use stock_ai_platform.Kis.{BrokerStatus, pending, KisFillStatusResult}

-- `fill_status`
pub data FillClass : Type 0 where
  full partial nothing rejected canceled failed : FillClass

pub data SkippedReason : Type 0 where
  real_order_not_found dry_run_order_skipped transport_raised negative_delta : SkippedReason
  order_already_terminal : RealOrderStatus → SkippedReason
  unrecognised_status : BrokerStatus → SkippedReason

pub record FillSyncResult : Type 0 where
  pub real_order_id : ℕ
  pub fill_status : FillClass
  pub created_fill_count : ℕ
  pub skipped_reason : Option SkippedReason
  pub delta : ℤ
  pub fills_total : ℤ
  pub real_order_status : Option RealOrderStatus

-- `_ORDER_SKIP_STATUSES`
abbrev pub is_skipped : RealOrderStatus → Bool
is_skipped RealOrderStatus.filled = true
is_skipped RealOrderStatus.canceled = true
is_skipped RealOrderStatus.rejected = true
is_skipped RealOrderStatus.failed = true
is_skipped _ = false

-- `_ORDER_NON_TERMINAL`
abbrev pub is_open : RealOrderStatus → Bool
is_open RealOrderStatus.created = true
is_open RealOrderStatus.submitted = true
is_open RealOrderStatus.partially_filled = true
is_open _ = false

abbrev pub classify_status : BrokerStatus → Bool → FillClass
classify_status BrokerStatus.filled success = full
classify_status BrokerStatus.partially_filled success = partial
classify_status BrokerStatus.rejected success = rejected
classify_status BrokerStatus.canceled success = canceled
classify_status pending true = nothing
classify_status pending false = failed

-- `_classify_fill_response`
unfoldable pub classify_fill_response : KisFillStatusResult → FillClass
classify_fill_response r = classify_status r.status r.success

abbrev pub max_ℤ : ℤ → ℤ → ℤ
max_ℤ a b = if ltb_ℤ a b then b else a

-- `_effective_kis_total`
unfoldable pub effective_kis_total : FillClass → KisFillStatusResult → ℤ → ℤ
effective_kis_total full r quantity =
    max_ℤ (max_ℤ r.filled_quantity (pos 0)) (if ltb_ℤ (pos 0) quantity then quantity else pos 0)
effective_kis_total partial r quantity = max_ℤ r.filled_quantity (pos 0)
effective_kis_total _ r quantity = pos 0

-- `_safe_unit_price`
unfoldable pub safe_unit_price : RealOrder → ℤ → Decimal
unfolding div less
safe_unit_price o quantity =
    let unit =
      if ltb_ℤ (pos 0) quantity && less zero_dec o.estimated_amount
      then div o.estimated_amount (of_int quantity)
      else zero_dec in
    if less zero_dec unit then unit else of_ℕ 1
