-- ===== src/FillSync/Counter.antt =====
-- The contract of a sync, without tables: an order's progress is a status and a high-water mark
-- of the filled quantity.
use stock_ai_platform.Base.{Option, none, some, arith, ℤ, pos, ◌≤ℤ◌, ltb_ℤ, if◌then◌else◌}
use stock_ai_platform.Store.{RealOrderStatus}
use stock_ai_platform.Kis.{KisFillStatusResult}
use stock_ai_platform.FillSync.Words.{
  FillClass, full, partial, rejected, canceled, failed, is_skipped, max_ℤ, classify_fill_response,
  effective_kis_total,
}

pub record Progress : Type 0 where
  pub status : RealOrderStatus
  pub filled : ℤ

-- The status that a class calls for.
abbrev pub target : FillClass → RealOrderStatus → RealOrderStatus
target full w = RealOrderStatus.filled
target partial w = RealOrderStatus.partially_filled
target _ w = w

-- A total of the broker's: the mark goes up to it, and the status follows unless the total lies
-- below the mark.
abbrev pub raise_mark : FillClass → ℤ → Progress → Progress
raise_mark class total p = record {
  status = if ltb_ℤ total p.filled then p.status else target class p.status;
  filled = max_ℤ p.filled total;
}

abbrev pub advance_class : FillClass → KisFillStatusResult → ℤ → Progress → Progress
advance_class failed r quantity p = p
advance_class rejected r quantity p = record p { status = RealOrderStatus.rejected }
advance_class canceled r quantity p = record p { status = RealOrderStatus.canceled }
advance_class class r quantity p = raise_mark class (effective_kis_total class r quantity) p

-- One answer of the broker, where none is an exception of the transport.
unfoldable pub advance : ℤ → Progress → Option KisFillStatusResult → Progress
unfolding effective_kis_total classify_fill_response
advance quantity p none = p
advance quantity p (some r) =
    if is_skipped p.status then p else advance_class (classify_fill_response r) r quantity p

-- The mark never goes down.
pub advance-monotone :
    (quantity : ℤ) (p : Progress) (a : Option KisFillStatusResult)
    → p.filled ≤ℤ (advance quantity p a).filled
unfolding advance classify_fill_response
advance-monotone quantity p none = omega arith
advance-monotone quantity p (some r) = ground arith

-- An order whose quantity is positive and whose broker never reports more than it stays within it.
pub advance-within :
    (quantity : ℤ) (p : Progress) (r : KisFillStatusResult)
    → pos 0 ≤ℤ quantity
    → r.filled_quantity ≤ℤ quantity
    → p.filled ≤ℤ quantity
    → (advance quantity p (some r)).filled ≤ℤ quantity
unfolding advance classify_fill_response effective_kis_total
advance-within quantity p r q h k = ground arith
