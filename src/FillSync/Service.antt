-- ===== src/FillSync/Service.antt =====
-- `FillSyncService.sync_fills` and its branches.
use stock_ai_platform.Base.{
  ℕ, Bool, true, false, not, ◌&&◌, ◌||◌, Option, none, some, List, [], ◌∷◌, ◌++◌, if◌then◌else◌,
  Text, codes, decimal, ℤ, pos, pos_part, ◌+ℤ◌, ◌-ℤ◌, ltb_ℤ, leb_ℤ, find,
}
use stock_ai_platform.Base.Decimal.{Decimal, zero_dec, of_ℕ, of_int, mul, at_most}
use stock_ai_platform.Store.{
  RealOrderStatus, FillStatus, EventType, RealOrder, Json, text, integer, flag, Action, pure, gets,
  ◌>>=◌, ◌>>◌, ok,
}
use stock_ai_platform.Audit
use stock_ai_platform.RealOrder
use stock_ai_platform.RealOrder.Fill
use stock_ai_platform.Kis.{Transport, BrokerStatus, pending, KisFillStatusResult, query_fill_status}
use stock_ai_platform.Executor.{side_text}
use stock_ai_platform.FillSync.Words.{
  FillClass, full, partial, nothing, rejected, canceled, failed, SkippedReason,
  real_order_not_found, dry_run_order_skipped, transport_raised, negative_delta,
  order_already_terminal, unrecognised_status, FillSyncResult, is_skipped, is_open,
  classify_fill_response, effective_kis_total, safe_unit_price,
}

abbrev pub class_text : FillClass → Text
class_text full = codes "FULL"
class_text partial = codes "PARTIAL"
class_text nothing = codes "NONE"
class_text rejected = codes "REJECTED"
class_text canceled = codes "CANCELED"
class_text failed = codes "FAILED"

abbrev pub broker_text : BrokerStatus → Text
broker_text pending = codes "PENDING"
broker_text BrokerStatus.partially_filled = codes "PARTIALLY_FILLED"
broker_text BrokerStatus.filled = codes "FILLED"
broker_text BrokerStatus.canceled = codes "CANCELED"
broker_text BrokerStatus.rejected = codes "REJECTED"

-- An audit row of a sync.
abbrev pub sync_entry :
    RealOrder → EventType → Text → FillClass → List (Text × Json) → Audit.NewEntry
sync_entry o event reason class more = record {
  candidate_id = o.candidate_id;
  event_type = event;
  user_id = none;
  reason = some reason;
  details = some (
      (codes "classification", text (class_text class))
      ∷ (codes "dry_run", flag false)
      ∷ (codes "symbol", text o.symbol)
      ∷ (codes "side", text (side_text o.side))
      ∷ more);
  ip_hash = none;
  user_agent_hash = none;
}

-- A result that created no fill.
abbrev pub no_fill : RealOrder → FillClass → Option SkippedReason → ℤ → ℤ → FillSyncResult
no_fill o class skipped delta total = record {
  real_order_id = o.id;
  fill_status = class;
  created_fill_count = 0;
  skipped_reason = skipped;
  delta = delta;
  fills_total = total;
  real_order_status = some o.status;
}

-- The fills' total at the end of a branch.
abbrev pub finish : RealOrder → FillClass → Option SkippedReason → Action FillSyncResult
finish o class skipped = do
  total ← gets (Fill.total_filled_quantity o.id)
  pure (no_fill o class skipped (pos 0) total)

abbrev pub failed_entry : RealOrder → KisFillStatusResult → Audit.NewEntry
failed_entry o r =
    sync_entry o EventType.real_order_fill_failed
      (codes "unrecognised KIS status: " ++ broker_text r.status) failed
      ((codes "kis_status", text (broker_text r.status)) ∷ [])

unfoldable pub report_failed : RealOrder → KisFillStatusResult → Action FillSyncResult
unfolding Audit.append Fill.total_filled_quantity
report_failed o r = do
  Audit.append (failed_entry o r)
  finish o failed (some (unrecognised_status r.status))

-- A status change of an order that is still open.
abbrev pub moved_to : RealOrder → Bool → RealOrderStatus → Action RealOrder
moved_to o test status =
    if is_open o.status && test then RealOrder.update_status o status else pure o

abbrev pub closed_entry : RealOrder → FillClass → Audit.NewEntry
closed_entry o class =
    sync_entry o EventType.real_order_fill_synced (codes "KIS reported " ++ class_text class) class
      ((codes "delta", integer (pos 0)) ∷ [])

unfoldable pub close_order : RealOrder → FillClass → RealOrderStatus → Action FillSyncResult
unfolding Audit.append Fill.total_filled_quantity RealOrder.update_status
close_order o class status = do
  o1 ← moved_to o true status
  Audit.append (closed_entry o class)
  finish o1 class none

abbrev pub negative_entry : RealOrder → FillClass → ℤ → ℤ → ℤ → Audit.NewEntry
negative_entry o class delta existing kis_total =
    sync_entry o EventType.fill_sync_negative_delta
      (codes "KIS reports filled_quantity below internal RealFill sum") class
      ((codes "delta", integer delta)
        ∷ (codes "existing_total", integer existing)
        ∷ (codes "kis_total", integer kis_total)
        ∷ [])

unfoldable pub report_negative : RealOrder → FillClass → ℤ → ℤ → ℤ → Action FillSyncResult
unfolding Audit.append
report_negative o class delta existing kis_total = do
  Audit.append (negative_entry o class delta existing kis_total)
  pure (no_fill o failed (some negative_delta) delta existing)

-- The fill of a positive delta.
abbrev pub positive_or_one : Decimal → Decimal
positive_or_one gross = if at_most gross zero_dec then of_ℕ 1 else gross

abbrev pub fill_word : ℤ → ℤ → FillStatus
fill_word total quantity =
    if leb_ℤ quantity total && ltb_ℤ (pos 0) quantity then FillStatus.full else FillStatus.partial

abbrev pub new_fill : RealOrder → ℤ → ℤ → ℕ → Fill.NewRealFill
new_fill o existing delta now =
    let unit = safe_unit_price o o.quantity in
    let gross = positive_or_one (mul unit (of_int delta)) in
    record {
      real_order_id = o.id;
      symbol = o.symbol;
      side = o.side;
      quantity = delta;
      fill_price = unit;
      fee = zero_dec;
      tax = zero_dec;
      gross_amount = gross;
      net_amount = gross;
      fill_status = fill_word (existing +ℤ delta) o.quantity;
      filled_at = now;
    }

unfoldable pub create_fill : RealOrder → ℤ → ℤ → Action ℕ
unfolding safe_unit_price mul Fill.create ◌+ℤ◌ at_most
create_fill o existing delta =
    if ltb_ℤ (pos 0) delta
    then (gets (λ s. s.clock) >>= λ now. Fill.create (new_fill o existing delta now) >> pure 1)
    else pure 0

-- The status that a class calls for.
abbrev pub move_by_class : FillClass → RealOrder → Action RealOrder
move_by_class full o = moved_to o true RealOrderStatus.filled
move_by_class partial o =
    moved_to o (not (RealOrder.same_status o.status RealOrderStatus.partially_filled))
      RealOrderStatus.partially_filled
move_by_class _ o = pure o

abbrev pub synced : RealOrder → FillClass → ℕ → ℤ → ℤ → RealOrderStatus → FillSyncResult
synced o class created delta existing status = record {
  real_order_id = o.id;
  fill_status = class;
  created_fill_count = created;
  skipped_reason = none;
  delta = delta;
  fills_total = existing +ℤ delta;
  real_order_status = some status;
}

abbrev pub synced_entry : RealOrder → FillClass → ℤ → ℤ → Audit.NewEntry
synced_entry o class delta kis_total =
    sync_entry o EventType.real_order_fill_synced
      (codes "KIS reported "
        ++ (class_text class ++ (codes " (delta=" ++ (decimal (pos_part delta) ++ codes ")"))))
      class ((codes "delta", integer delta) ∷ (codes "kis_total", integer kis_total) ∷ [])

unfoldable pub report_fill : RealOrder → FillClass → ℤ → ℤ → ℤ → Action FillSyncResult
unfolding create_fill RealOrder.update_status Audit.append
report_fill o class delta existing kis_total = do
  created ← create_fill o existing delta
  o1 ← move_by_class class o
  Audit.append (synced_entry o class delta kis_total)
  pure (synced o class created delta existing o1.status)

-- FULL, PARTIAL and NONE.
abbrev pub compare_totals : RealOrder → FillClass → ℤ → ℤ → Action FillSyncResult
compare_totals o class kis_total existing =
    let delta = kis_total -ℤ existing in
    if ltb_ℤ delta (pos 0)
    then report_negative o class delta existing kis_total
    else report_fill o class delta existing kis_total

unfoldable pub dispatch_class : FillClass → RealOrder → KisFillStatusResult → Action FillSyncResult
unfolding report_failed close_order report_negative report_fill effective_kis_total
    Fill.total_filled_quantity ◌-ℤ◌
dispatch_class failed o r = report_failed o r
dispatch_class rejected o r = close_order o rejected RealOrderStatus.rejected
dispatch_class canceled o r = close_order o canceled RealOrderStatus.canceled
dispatch_class class o r =
    gets (Fill.total_filled_quantity o.id)
    >>= compare_totals o class (effective_kis_total class r o.quantity)

-- `_dispatch_status`
unfoldable pub dispatch_status : RealOrder → KisFillStatusResult → Action FillSyncResult
unfolding dispatch_class classify_fill_response
dispatch_status o r = dispatch_class (classify_fill_response r) o r

-- `x or y` on strings
abbrev pub or_text : Option Text → Text → Text
or_text none y = y
or_text (some []) y = y
or_text (some (c ∷ t)) y = c ∷ t

abbrev pub order_ref : Option Text → RealOrder → ℕ → Text
order_ref plaintext o i = or_text plaintext (or_text o.fake_order_no (decimal i))

abbrev pub raised_entry : RealOrder → Audit.NewEntry
raised_entry o =
    sync_entry o EventType.real_order_fill_failed (codes "transport.query_fill_status raised")
      failed []

unfoldable pub handle_answer : RealOrder → Option KisFillStatusResult → Action FillSyncResult
unfolding dispatch_status Audit.append Fill.total_filled_quantity
handle_answer o none = do Audit.append (raised_entry o); finish o failed (some transport_raised)
handle_answer o (some r) = dispatch_status o r

unfoldable pub sync_order : Transport → ℕ → Option Text → RealOrder → Action FillSyncResult
unfolding handle_answer query_fill_status Fill.total_filled_quantity
sync_order transport i plaintext o s =
    if o.dry_run || RealOrder.same_status o.status RealOrderStatus.dry_run
    then finish o nothing (some dry_run_order_skipped) s
    else if is_skipped o.status
    then finish o nothing (some (order_already_terminal o.status)) s
    else handle_answer o (query_fill_status transport (order_ref plaintext o i) s) s

abbrev pub not_found : ℕ → FillSyncResult
not_found i = record {
  real_order_id = i;
  fill_status = nothing;
  created_fill_count = 0;
  skipped_reason = some real_order_not_found;
  delta = pos 0;
  fills_total = pos 0;
  real_order_status = none;
}

unfoldable pub sync_fills : Transport → ℕ → Option Text → Action FillSyncResult
unfolding sync_order
sync_fills transport i plaintext s = elim (find (RealOrder.has_id i) s.real_orders) [
  | none ↦ (ok (not_found i), s)
  | some o ↦ sync_order transport i plaintext o s
]
