-- ===== src/FillSync/HighWater.antt =====
-- A sync implements the contract: the tables hold the high-water mark, whatever the broker says.
use stock_ai_platform.Base.{
  ℕ, ◌≡◌, refl, ap, sym, ◌∙◌, true, false, Option, none, some, [], arith, ℤ, pos, ◌+ℤ◌, ◌-ℤ◌,
  +ℤ-ℤ_cancel, -ℤ_parts, ℤ-same, ltb_ℤ, if◌then◌else◌, codes,
}
use mathlib.Core.Path.{subst}
use stock_ai_platform.Store.{RealOrderStatus, RealOrder, EventType, Session, gets, ◌>>=◌}
use stock_ai_platform.Store.Triple.{Post, Triple, Triple-bind, Triple-weaken, Triple-if}
use stock_ai_platform.RealOrder.Fill
use stock_ai_platform.Kis.{KisFillStatusResult}
use stock_ai_platform.FillSync.Words.{
  FillClass, full, partial, nothing, rejected, canceled, failed, FillSyncResult, is_open,
  is_skipped, transport_raised, max_ℤ, classify_fill_response, effective_kis_total,
}
use stock_ai_platform.FillSync.Service.{
  report_negative, report_fill, compare_totals, dispatch_class, dispatch_status, handle_answer,
}
use stock_ai_platform.FillSync.Kept.{Raises, View, Moved}
use stock_ai_platform.FillSync.Counter.{Progress, target, raise_mark, advance_class, advance}
use stock_ai_platform.FillSync.Branches.{
  stays, entry-Moved, finish-Reached, Reached, report_failed-Reached, close_order-Reached,
  report_negative-Reached, report_fill-Reached,
}

pub progress-same :
    (v w : RealOrderStatus) (m n : ℤ)
    → v ≡ w
    → m ≡ n
    → ◌≡◌ {A = Progress} (record { status = v; filled = m }) (record { status = w; filled = n })
progress-same v w m n h k = cc

module _ (i : ℕ) (o : RealOrder) (n : ℤ) (running : is_open o.status ≡ true) where
  -- The comparison of the two totals raises the mark.
  compare_totals-Reached :
      (class : FillClass) (total : ℤ)
      → Triple
          (View i o n)
          (λ _. Reached i o (raise_mark class total (record { status = o.status; filled = n })))
          Raises
          (compare_totals o class total n)
  compare_totals-Reached class total =
      let p : Progress = record { status = o.status; filled = n } in
      let delta = total -ℤ n in
      Triple-if (λ _. Reached i o (raise_mark class total p)) (ltb_ℤ delta (pos 0))
        (report_negative o class delta n total) (report_fill o class delta n total)
        (λ down.
          Triple-weaken (λ _. Reached i o p) (λ _. Reached i o (raise_mark class total p)) _
            (λ s v. v) (λ a s r. subst (λ q. Reached i o q s) (below down) r) (λ s x. x)
            (report_negative-Reached i o n class delta total))
        (λ up.
          Triple-weaken
            (λ _. Reached i o (record { status = target class o.status; filled = n +ℤ delta }))
            (λ _. Reached i o (raise_mark class total p)) _ (λ s v. v)
            (λ a s r. subst (λ q. Reached i o q s) (above up) r) (λ s x. x)
            (report_fill-Reached i o n class delta total running up))
    where
      below :
          ltb_ℤ (total -ℤ n) (pos 0) ≡ true
          → ◌≡◌ {A = Progress}
              (record { status = o.status; filled = n })
              (raise_mark class total (record { status = o.status; filled = n }))
      below down = let d = -ℤ_parts total n in ground arith

      above :
          ltb_ℤ (total -ℤ n) (pos 0) ≡ false
          → ◌≡◌ {A = Progress}
              (record { status = target class o.status; filled = n +ℤ (total -ℤ n) })
              (raise_mark class total (record { status = o.status; filled = n }))
      above up =
          let d = -ℤ_parts total n in
          let e : ltb_ℤ total n ≡ false = ground arith in
          let f : total ≡ max_ℤ n total = ℤ-same total (max_ℤ n total) (ground arith) in
          let g : n +ℤ (total -ℤ n) ≡ max_ℤ n total = +ℤ-ℤ_cancel total n ∙ f in
          progress-same (target class o.status)
            (if ltb_ℤ total n then o.status else target class o.status) (n +ℤ (total -ℤ n))
            (max_ℤ n total) (let h = e in ground arith) g

  -- The total is read, then compared.
  read-Reached :
      (class : FillClass) (total : ℤ)
      → Triple
          (View i o n)
          (λ _. Reached i o (raise_mark class total (record { status = o.status; filled = n })))
          Raises
          (gets (Fill.total_filled_quantity o.id) >>= compare_totals o class total)
  read-Reached class total =
      let Q : FillSyncResult → Session → Type 0 =
        λ _. Reached i o (raise_mark class total (record { status = o.status; filled = n })) in
      Triple-bind (λ m s. (m ≡ n) × View i o n s) Q (gets (Fill.total_filled_quantity o.id))
        (compare_totals o class total)
        (record { at = λ s v. (ap (λ k. Fill.total_filled_quantity k s) v.key ∙ v.total, v) })
        λ m. record {
          at = λ s h.
              subst (λ k. Post Q Raises (compare_totals o class total k s)) (sym h.0)
                ((compare_totals-Reached class total).at s h.1);
        }

  dispatch_class-Reached :
      (class : FillClass) (r : KisFillStatusResult)
      → Triple
          (View i o n)
          (λ _.
            Reached i o
              (advance_class class r o.quantity (record { status = o.status; filled = n })))
          Raises
          (dispatch_class class o r)
  unfolding dispatch_class
  dispatch_class-Reached failed r = report_failed-Reached i o n r
  dispatch_class-Reached rejected r =
      close_order-Reached i o n rejected RealOrderStatus.rejected running
  dispatch_class-Reached canceled r =
      close_order-Reached i o n canceled RealOrderStatus.canceled running
  dispatch_class-Reached full r = read-Reached full (effective_kis_total full r o.quantity)
  dispatch_class-Reached partial r = read-Reached partial (effective_kis_total partial r o.quantity)
  dispatch_class-Reached nothing r = read-Reached nothing (effective_kis_total nothing r o.quantity)

  pub handle_answer-Reached :
      (a : Option KisFillStatusResult)
      → Triple
          (View i o n)
          (λ _. Reached i o (advance o.quantity (record { status = o.status; filled = n }) a))
          Raises
          (handle_answer o a)
  unfolding handle_answer dispatch_status advance
  handle_answer-Reached none =
      Triple-bind (λ _. Moved i o o.status n o)
        (λ _. Reached i o (record { status = o.status; filled = n })) _ _
        (Triple-weaken (λ _. Moved i o o.status n o) (λ _. Moved i o o.status n o) _ (stays i o n)
          (λ a s m. m) (λ s x. x)
          (entry-Moved i n o o o.status EventType.real_order_fill_failed
            (codes "transport.query_fill_status raised") failed [] refl))
        λ _. finish-Reached i o o o.status n failed (some transport_raised)
  handle_answer-Reached (some r) =
      let p : Progress = record { status = o.status; filled = n } in
      let runs : is_skipped o.status ≡ false = let k = running in ground arith in
      Triple-weaken (λ _. Reached i o (advance_class (classify_fill_response r) r o.quantity p))
        (λ _. Reached i o (
          if is_skipped o.status
          then p
          else advance_class (classify_fill_response r) r o.quantity p))
        _ (λ s v. v)
        (λ a s h.
          subst
            (λ b.
              Reached i o (if b then p else advance_class (classify_fill_response r) r o.quantity p)
                s)
            (sym runs) h)
        (λ s x. x) (dispatch_class-Reached (classify_fill_response r) r)
