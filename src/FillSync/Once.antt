-- ===== src/FillSync/Once.antt =====
-- A sync moves an order that is not terminal, so it blocks no further candidate.
use stock_ai_platform.Base.{
  ℕ, ◌≡◌, refl, sym, Bool, true, false, not, ◌&&◌, ◌||◌, Option, none, some, List, arith, Text, ℤ,
  pos, ◌-ℤ◌, ltb_ℤ, leb_ℤ, find, find-passes, ==_iff, if◌then◌else◌, update_where,
}
use stock_ai_platform.Base.Decimal.{zero_dec, less, at_most}
use mathlib.Core.Path.{subst}
use stock_ai_platform.Store.{
  RealOrder, RealOrderStatus, Session, Action, Result, ok, value_error, audit_validation, pure,
  gets, ◌>>=◌, ◌>>◌,
}
use stock_ai_platform.Store.Triple.{
  Triple, Triple-pure, Triple-if, Triple-guard, Triple-checked, Triple-bind, Triple-weaken,
  Triple-ends,
}
use stock_ai_platform.Audit
use stock_ai_platform.RealOrder
use stock_ai_platform.RealOrder.Fill
use stock_ai_platform.RealOrder.Single.{SingleRows, SingleRows-update}
use stock_ai_platform.Kis.{Transport, KisFillStatusResult, query_fill_status}
use stock_ai_platform.FillSync.Words.{
  FillClass, full, partial, nothing, rejected, canceled, failed, FillSyncResult, SkippedReason,
  unrecognised_status, negative_delta, transport_raised, is_open, is_skipped, effective_kis_total,
  classify_fill_response, dry_run_order_skipped, order_already_terminal,
}
use stock_ai_platform.FillSync.Service.{
  failed_entry, closed_entry, negative_entry, synced_entry, raised_entry, finish, no_fill,
  report_failed, moved_to, close_order, report_negative, new_fill, create_fill, move_by_class,
  synced, report_fill, compare_totals, dispatch_class, dispatch_status, handle_answer, sync_order,
  sync_fills, not_found, order_ref,
}

-- A condition on the orders and their next key.
abbrev pub On : (List RealOrder → ℕ → Type 0) → Session → Type 0
On F s = F s.real_orders s.next_real_order

module _ (F : List RealOrder → ℕ → Type 0) where
  append-On : (a : Audit.NewEntry) → Triple (On F) (λ _. On F) (On F) (Audit.append a)
  unfolding Audit.append Audit.add_entry
  append-On a =
      Triple-guard (λ _. On F) (Audit.details_leak a.details) audit_validation _ (λ s h. h)
        (Triple-guard (λ _. On F) (Audit.too_long a.ip_hash) audit_validation _ (λ s h. h)
          (Triple-guard (λ _. On F) (Audit.too_long a.user_agent_hash) audit_validation
            (Audit.add_entry a) (λ s h. h) (record { at = λ s h. h })))

  finish-On :
      (o : RealOrder) (class : FillClass) (skipped : Option SkippedReason)
      → Triple (On F) (λ _. On F) (On F) (finish o class skipped)
  finish-On o class skipped = record { at = λ s h. h }

  create-On : (a : Fill.NewRealFill) → Triple (On F) (λ _. On F) (On F) (Fill.create a)
  unfolding Fill.create
  create-On a =
      Triple-guard (λ _. On F) (leb_ℤ a.quantity (pos 0)) value_error _ (λ s h. h)
        (Triple-guard (λ _. On F) (at_most a.fill_price zero_dec) value_error _ (λ s h. h)
          (Triple-guard (λ _. On F) (less a.gross_amount zero_dec) value_error _ (λ s h. h)
            (Triple-guard (λ _. On F) (less a.net_amount zero_dec) value_error (Fill.add_fill a)
              (λ s h. h) (record { at = λ s h. h }))))

  create_fill-On :
      (o : RealOrder) (existing delta : ℤ)
      → Triple (On F) (λ _. On F) (On F) (create_fill o existing delta)
  unfolding create_fill
  create_fill-On o existing delta =
      Triple-if (λ _. On F) (ltb_ℤ (pos 0) delta) _ _
        (λ up.
          Triple-bind (λ _. On F) (λ _. On F) (gets λ s. s.clock) _ (record { at = λ s h. h })
            λ now.
              Triple-bind (λ _. On F) (λ _. On F) (Fill.create (new_fill o existing delta now)) _
                (create-On (new_fill o existing delta now))
                λ f. Triple-pure (λ _. On F) 1 (λ s h. h))
        (λ level. Triple-pure (λ _. On F) 0 (λ s h. h))

-- The rows are single, and `o` is the row under the key `i`.
abbrev Tracked : ℕ → RealOrder → List RealOrder → ℕ → Type 0
Tracked i o os n = SingleRows os n × (find (RealOrder.has_id i) os ≡ some o) × (o.id ≡ i)

module _ (i : ℕ) (o : RealOrder) where
  update_status-Single :
      (w : RealOrderStatus)
      → Triple (On (Tracked i o)) (λ _. On SingleRows) (On SingleRows) (RealOrder.update_status o w)
  unfolding RealOrder.update_status
  update_status-Single w =
      Triple-checked (λ _. On SingleRows) (RealOrder.is_terminal o.status) value_error _
        (λ s h. h.0)
        λ running.
          Triple-bind (λ _. On (Tracked i o)) (λ _. On SingleRows) (gets λ s. s.clock)
            (λ now. RealOrder.save (record o { status = w; updated_at = now }))
            (record { at = λ s h. h })
            λ now. record {
              at = λ s h.
                  subst
                    (λ k.
                      SingleRows
                        (update_where (RealOrder.has_id k)
                          (λ _. record o { status = w; updated_at = now }) s.real_orders)
                        s.next_real_order)
                    (sym h.2)
                    (SingleRows-update s.real_orders s.next_real_order i o
                      (record o { status = w; updated_at = now }) h.0 h.1 h.2 refl
                      (running_active o.status running));
            }
    where
      running_active :
          (v : RealOrderStatus) → RealOrder.is_terminal v ≡ false → RealOrder.is_active v ≡ true
      running_active v h = ground arith

  moved_to-Single :
      (test : Bool) (w : RealOrderStatus)
      → Triple (On (Tracked i o)) (λ _. On SingleRows) (On SingleRows) (moved_to o test w)
  moved_to-Single test w =
      Triple-if (λ _. On SingleRows) (is_open o.status && test) (RealOrder.update_status o w)
        (pure o) (λ t. update_status-Single w)
        (λ f. Triple-pure (λ _. On SingleRows) o (λ s h. h.0))

  move_by_class-Single :
      (class : FillClass)
      → Triple (On (Tracked i o)) (λ _. On SingleRows) (On SingleRows) (move_by_class class o)
  move_by_class-Single full = moved_to-Single true RealOrderStatus.filled
  move_by_class-Single partial =
      moved_to-Single (not (RealOrder.same_status o.status RealOrderStatus.partially_filled))
        RealOrderStatus.partially_filled
  move_by_class-Single nothing = Triple-pure (λ _. On SingleRows) o (λ s h. h.0)
  move_by_class-Single rejected = Triple-pure (λ _. On SingleRows) o (λ s h. h.0)
  move_by_class-Single canceled = Triple-pure (λ _. On SingleRows) o (λ s h. h.0)
  move_by_class-Single failed = Triple-pure (λ _. On SingleRows) o (λ s h. h.0)

  -- An audit row, then something that writes no order.
  then_append :
      (a : Audit.NewEntry) (k : Action FillSyncResult)
      → Triple (On SingleRows) (λ _. On SingleRows) (On SingleRows) k
      → Triple (On SingleRows) (λ _. On SingleRows) (On SingleRows) (Audit.append a >> k)
  then_append a k h =
      Triple-bind (λ _. On SingleRows) (λ _. On SingleRows) (Audit.append a) (λ _. k)
        (append-On SingleRows a) (λ _. h)

  report_failed-Single :
      (r : KisFillStatusResult)
      → Triple (On SingleRows) (λ _. On SingleRows) (On SingleRows) (report_failed o r)
  unfolding report_failed
  report_failed-Single r =
      then_append (failed_entry o r) (finish o failed (some (unrecognised_status r.status)))
        (finish-On SingleRows o failed (some (unrecognised_status r.status)))

  close_order-Single :
      (class : FillClass) (w : RealOrderStatus)
      → Triple (On (Tracked i o)) (λ _. On SingleRows) (On SingleRows) (close_order o class w)
  unfolding close_order
  close_order-Single class w =
      Triple-bind (λ _. On SingleRows) (λ _. On SingleRows) (moved_to o true w) _
        (moved_to-Single true w)
        λ o1.
          then_append (closed_entry o class) (finish o1 class none)
            (finish-On SingleRows o1 class none)

  report_negative-Single :
      (class : FillClass) (delta existing total : ℤ)
      → Triple
          (On SingleRows)
          (λ _. On SingleRows)
          (On SingleRows)
          (report_negative o class delta existing total)
  unfolding report_negative
  report_negative-Single class delta existing total =
      let r = no_fill o failed (some negative_delta) delta existing in
      then_append (negative_entry o class delta existing total) (pure r)
        (Triple-pure (λ _. On SingleRows) r (λ s h. h))

  report_fill-Single :
      (class : FillClass) (delta existing total : ℤ)
      → Triple
          (On (Tracked i o))
          (λ _. On SingleRows)
          (On SingleRows)
          (report_fill o class delta existing total)
  unfolding report_fill
  report_fill-Single class delta existing total =
      Triple-bind (λ _. On (Tracked i o)) (λ _. On SingleRows) (create_fill o existing delta) _
        (Triple-weaken (λ _. On (Tracked i o)) (λ _. On (Tracked i o)) _ (λ s h. h) (λ a s h. h)
          (λ s h. h.0) (create_fill-On (Tracked i o) o existing delta))
        λ created.
          Triple-bind (λ _. On SingleRows) (λ _. On SingleRows) (move_by_class class o) _
            (move_by_class-Single class)
            λ o1.
              then_append (synced_entry o class delta total)
                (pure (synced o class created delta existing o1.status))
                (Triple-pure (λ _. On SingleRows) (synced o class created delta existing o1.status)
                  (λ s h. h))

  compare_totals-Single :
      (class : FillClass) (total existing : ℤ)
      → Triple
          (On (Tracked i o))
          (λ _. On SingleRows)
          (On SingleRows)
          (compare_totals o class total existing)
  compare_totals-Single class total existing =
      Triple-if (λ _. On SingleRows) (ltb_ℤ (total -ℤ existing) (pos 0)) _ _
        (λ down.
          Triple-weaken (λ _. On SingleRows) (λ _. On SingleRows) _ (λ s h. h.0) (λ a s h. h)
            (λ s h. h) (report_negative-Single class (total -ℤ existing) existing total))
        (λ up. report_fill-Single class (total -ℤ existing) existing total)

  read-Single :
      (class : FillClass) (total : ℤ)
      → Triple
          (On (Tracked i o))
          (λ _. On SingleRows)
          (On SingleRows)
          (gets (Fill.total_filled_quantity o.id) >>= compare_totals o class total)
  read-Single class total =
      Triple-bind (λ _. On (Tracked i o)) (λ _. On SingleRows)
        (gets (Fill.total_filled_quantity o.id)) (compare_totals o class total)
        (record { at = λ s h. h }) λ existing. compare_totals-Single class total existing

  weakly :
      (m : Action FillSyncResult)
      → Triple (On SingleRows) (λ _. On SingleRows) (On SingleRows) m
      → Triple (On (Tracked i o)) (λ _. On SingleRows) (On SingleRows) m
  weakly m h =
      Triple-weaken (λ _. On SingleRows) (λ _. On SingleRows) m (λ s h. h.0) (λ a s h. h) (λ s h. h)
        h

  dispatch_class-Single :
      (class : FillClass) (r : KisFillStatusResult)
      → Triple (On (Tracked i o)) (λ _. On SingleRows) (On SingleRows) (dispatch_class class o r)
  unfolding dispatch_class
  dispatch_class-Single failed r = weakly (report_failed o r) (report_failed-Single r)
  dispatch_class-Single rejected r = close_order-Single rejected RealOrderStatus.rejected
  dispatch_class-Single canceled r = close_order-Single canceled RealOrderStatus.canceled
  dispatch_class-Single full r = read-Single full (effective_kis_total full r o.quantity)
  dispatch_class-Single partial r = read-Single partial (effective_kis_total partial r o.quantity)
  dispatch_class-Single nothing r = read-Single nothing (effective_kis_total nothing r o.quantity)

  handle_answer-Single :
      (a : Option KisFillStatusResult)
      → Triple (On (Tracked i o)) (λ _. On SingleRows) (On SingleRows) (handle_answer o a)
  unfolding handle_answer dispatch_status
  handle_answer-Single none =
      weakly (Audit.append (raised_entry o) >> finish o failed (some transport_raised)) (
        then_append (raised_entry o) (finish o failed (some transport_raised))
          (finish-On SingleRows o failed (some transport_raised)))
  handle_answer-Single (some r) = dispatch_class-Single (classify_fill_response r) r

-- A sync keeps the rows single, on every path.
pub sync_fills-Single :
    (transport : Transport) (i : ℕ) (plaintext : Option Text) (s : Session)
    → On SingleRows s
    → On SingleRows (sync_fills transport i plaintext s).1
unfolding sync_fills sync_order
sync_fills-Single transport i plaintext s h = found (find (RealOrder.has_id i) s.real_orders) refl
  where
    asked :
        (o : RealOrder)
        → find (RealOrder.has_id i) s.real_orders ≡ some o
        → On SingleRows
            (handle_answer o (query_fill_status transport (order_ref plaintext o i) s) s).1
    asked o e =
        let a = query_fill_status transport (order_ref plaintext o i) s in
        let key = (==_iff o.id i).0 (find-passes (RealOrder.has_id i) s.real_orders o e) in
        Triple-ends (handle_answer o a) s (handle_answer-Single i o a) (h, e, key)

    either :
        (b c : Bool) (x y z : Result FillSyncResult × Session)
        → On SingleRows x.1
        → On SingleRows y.1
        → On SingleRows z.1
        → On SingleRows (if b then x else if c then y else z).1
    either true c x y z p q r = p
    either false true x y z p q r = q
    either false false x y z p q r = r

    found :
        (x : Option RealOrder)
        → find (RealOrder.has_id i) s.real_orders ≡ x
        → let r : Result FillSyncResult × Session =
            elim x as (λ _. Result FillSyncResult × Session) [
              | none ↦ (ok (not_found i), s)
              | some o ↦ sync_order transport i plaintext o s
            ] in
          On SingleRows r.1
    found none e = h
    found (some o) e =
        either (o.dry_run || RealOrder.same_status o.status RealOrderStatus.dry_run)
          (is_skipped o.status) (finish o nothing (some dry_run_order_skipped) s)
          (finish o nothing (some (order_already_terminal o.status)) s)
          (handle_answer o (query_fill_status transport (order_ref plaintext o i) s) s) h h
          (asked o e)
