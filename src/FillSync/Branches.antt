-- ===== src/FillSync/Branches.antt =====
-- Each branch of a sync does to the order what the contract says, and returns.
use stock_ai_platform.Base.{
  ℕ, ◌≡◌, refl, ap, sym, ◌∙◌, Bool, true, false, not, ◌&&◌, Option, none, some, List, Text, [], ◌∷◌,
  ◌++◌, arith, ℤ, pos, pos_part, ◌+ℤ◌, +ℤ_zero, +ℤ_comm, ℤ-same, ltb_ℤ, if◌then◌else◌, codes,
  decimal,
}
use mathlib.Core.Path.{subst}
use stock_ai_platform.Base.Decimal.{Decimal, zero_dec, of_ℕ, of_int, mul, div, less, at_most}
use stock_ai_platform.Store.{
  RealOrderStatus, RealOrder, EventType, Session, pure, gets, ◌>>=◌, ◌>>◌, text, integer, Json,
}
use stock_ai_platform.Store.Triple.{
  Triple, Triple-pure, Triple-bind, Triple-weaken, Triple-if, Triple-frame,
}
use stock_ai_platform.Audit
use stock_ai_platform.RealOrder
use stock_ai_platform.RealOrder.Fill
use stock_ai_platform.Kis.{KisFillStatusResult}
use stock_ai_platform.FillSync.Words.{
  FillClass, full, partial, nothing, rejected, canceled, failed, FillSyncResult, SkippedReason,
  unrecognised_status, negative_delta, is_open, safe_unit_price,
}
use stock_ai_platform.FillSync.Service.{
  sync_entry, finish, no_fill, synced, class_text, broker_text, report_failed, moved_to,
  close_order, report_negative, positive_or_one, new_fill, create_fill, move_by_class, report_fill,
}
use stock_ai_platform.FillSync.Kept.{
  Raises, View, Moved, append-View, update_status-Moved, create-View,
}
use stock_ai_platform.FillSync.Counter.{Progress, target}

price-positive : (u : Decimal) → at_most (if less zero_dec u then u else of_ℕ 1) zero_dec ≡ false
unfolding less at_most
price-positive u = ground arith

gross-Nonneg : (g : Decimal) → less (positive_or_one g) zero_dec ≡ false
unfolding less at_most
gross-Nonneg g = ground arith

safe_unit_price-positive : (o : RealOrder) (q : ℤ) → at_most (safe_unit_price o q) zero_dec ≡ false
unfolding safe_unit_price
safe_unit_price-positive o q = price-positive (
    if ltb_ℤ (pos 0) q && less zero_dec o.estimated_amount
    then div o.estimated_amount (of_int q)
    else zero_dec)

open-runs : (w : RealOrderStatus) → is_open w ≡ true → RealOrder.is_terminal w ≡ false
open-runs w h = ground arith

-- An audit row of a sync is taken.
pub entry-View :
    (i : ℕ) (n : ℤ) (o o' : RealOrder) (event : EventType) (reason : Text) (class : FillClass)
    (more : List (Text × Json))
    → Audit.leaks more ≡ false
    → Triple
        (View i o' n)
        (λ _. View i o' n)
        Raises
        (Audit.append (sync_entry o event reason class more))
unfolding Audit.details_leak Audit.leaks
entry-View i n o o' event reason class more h =
    append-View i n o' (sync_entry o event reason class more) h refl refl

-- The order ended in the status and with the total of `p`.
abbrev pub Reached : ℕ → RealOrder → Progress → Session → Type 0
Reached i o p t = (o' : RealOrder) × Moved i o p.status p.filled o' t

module _ (i : ℕ) (o : RealOrder) (n : ℤ) where
  pub stays : (t : Session) → View i o n t → Moved i o o.status n o t
  stays t v = record { view = v; status = refl; quantity = refl; dry_run = refl }

  create_fill-View :
      (delta : ℤ)
      → ltb_ℤ delta (pos 0) ≡ false
      → Triple (View i o n) (λ _. View i o (n +ℤ delta)) Raises (create_fill o n delta)
  unfolding create_fill
  create_fill-View delta h =
      Triple-if (λ _. View i o (n +ℤ delta)) (ltb_ℤ (pos 0) delta)
        (gets (λ s. s.clock) >>= λ now. Fill.create (new_fill o n delta now) >> pure 1) (pure 0)
        (λ up.
          Triple-bind (λ _. View i o n) (λ _. View i o (n +ℤ delta)) (gets λ s. s.clock) _
            (record { at = λ s v. v }) λ now. record { at = λ s v. (filled now up v.key).at s v })
        (λ level.
          Triple-pure (λ _. View i o (n +ℤ delta)) 0
            (λ s v. subst (λ m. View i o m s) (even level) v))
    where
      even : ltb_ℤ (pos 0) delta ≡ false → n ≡ n +ℤ delta
      even level =
          let z : delta ≡ pos 0 = ℤ-same delta (pos 0) (ground arith) in
          sym (ap (λ d. n +ℤ d) z ∙ +ℤ_comm n (pos 0) ∙ +ℤ_zero n)

      filled :
          (now : ℕ)
          → ltb_ℤ (pos 0) delta ≡ true
          → o.id ≡ i
          → Triple {A = ℕ}
              (View i o n)
              (λ _. View i o (n +ℤ delta))
              Raises
              (Fill.create (new_fill o n delta now) >> pure 1)
      filled now up key =
          let gross = gross-Nonneg (mul (safe_unit_price o o.quantity) (of_int delta)) in
          Triple-bind (λ _. View i o (n +ℤ delta)) (λ _. View i o (n +ℤ delta))
            (Fill.create (new_fill o n delta now)) _
            (create-View i n o (new_fill o n delta now) key (ground arith)
              (safe_unit_price-positive o o.quantity) gross gross)
            λ _. Triple-pure (λ _. View i o (n +ℤ delta)) 1 (λ s v. v)

  moved_to-Moved :
      (test : Bool) (w : RealOrderStatus)
      → is_open o.status ≡ true
      → (test ≡ false → o.status ≡ w)
      → Triple (View i o n) (Moved i o w n) Raises (moved_to o test w)
  moved_to-Moved test w running h =
      Triple-if (Moved i o w n) (is_open o.status && test) (RealOrder.update_status o w) (pure o)
        (λ t. update_status-Moved i n o w (open-runs o.status running))
        (λ f. Triple-pure (Moved i o w n) o (λ s v. record {
          view = v;
          status = h (let r = running in ground arith);
          quantity = refl;
          dry_run = refl;
        }))

  move_by_class-Moved :
      (class : FillClass)
      → is_open o.status ≡ true
      → Triple (View i o n) (Moved i o (target class o.status) n) Raises (move_by_class class o)
  move_by_class-Moved full running = moved_to-Moved true RealOrderStatus.filled running (λ h. cc)
  move_by_class-Moved partial running =
      moved_to-Moved (not (RealOrder.same_status o.status RealOrderStatus.partially_filled))
        RealOrderStatus.partially_filled running (λ h. already o.status h)
    where
      already :
          (w : RealOrderStatus)
          → not (RealOrder.same_status w RealOrderStatus.partially_filled) ≡ false
          → w ≡ RealOrderStatus.partially_filled
      already w h = ground arith
  move_by_class-Moved nothing running = Triple-pure (Moved i o o.status n) o stays
  move_by_class-Moved rejected running = Triple-pure (Moved i o o.status n) o stays
  move_by_class-Moved canceled running = Triple-pure (Moved i o o.status n) o stays
  move_by_class-Moved failed running = Triple-pure (Moved i o o.status n) o stays

pub entry-Moved :
    (i : ℕ) (n : ℤ) (o o' : RealOrder) (w : RealOrderStatus) (event : EventType) (reason : Text)
    (class : FillClass) (more : List (Text × Json))
    → Audit.leaks more ≡ false
    → Triple
        (Moved i o w n o')
        (λ _. Moved i o w n o')
        Raises
        (Audit.append (sync_entry o event reason class more))
entry-Moved i n o o' w event reason class more h =
    let F : Type 0 = (o'.status ≡ w) × (o'.quantity ≡ o.quantity) × (o'.dry_run ≡ o.dry_run) in
    Triple-weaken (λ _ s. View i o' n s × F) (λ _. Moved i o w n o')
      (Audit.append (sync_entry o event reason class more))
      (λ s m. (m.view, (m.status, m.quantity, m.dry_run)))
      (λ a s p. record { view = p.0; status = p.1.0; quantity = p.1.1; dry_run = p.1.2 }) (λ s r. r)
      (Triple-frame (λ _. View i o' n) F (Audit.append (sync_entry o event reason class more))
        (entry-View i n o o' event reason class more h))

module _ (i : ℕ) (o : RealOrder) where
  pub finish-Reached :
      (o' : RealOrder) (w : RealOrderStatus) (n : ℤ) (class : FillClass)
      (skipped : Option SkippedReason)
      → Triple
          (Moved i o w n o')
          (λ _. Reached i o (record { status = w; filled = n }))
          Raises
          (finish o' class skipped)
  finish-Reached o' w n class skipped =
      Triple-bind (λ _. Moved i o w n o') (λ _. Reached i o (record { status = w; filled = n }))
        (gets (Fill.total_filled_quantity o'.id)) _ (record { at = λ s m. m })
        λ total.
          Triple-pure (λ _. Reached i o (record { status = w; filled = n }))
            (no_fill o' class skipped (pos 0) total) (λ s m. (o', m))

  pub report_failed-Reached :
      (n : ℤ) (r : KisFillStatusResult)
      → Triple
          (View i o n)
          (λ _. Reached i o (record { status = o.status; filled = n }))
          Raises
          (report_failed o r)
  unfolding report_failed
  report_failed-Reached n r =
      Triple-bind (λ _. Moved i o o.status n o)
        (λ _. Reached i o (record { status = o.status; filled = n })) _ _
        (Triple-weaken (λ _. Moved i o o.status n o) (λ _. Moved i o o.status n o) _ (stays i o n)
          (λ a s m. m) (λ s x. x)
          (entry-Moved i n o o o.status EventType.real_order_fill_failed
            (codes "unrecognised KIS status: " ++ broker_text r.status) failed
            ((codes "kis_status", text (broker_text r.status)) ∷ []) refl))
        λ _. finish-Reached o o.status n failed (some (unrecognised_status r.status))

  pub close_order-Reached :
      (n : ℤ) (class : FillClass) (w : RealOrderStatus)
      → is_open o.status ≡ true
      → Triple
          (View i o n)
          (λ _. Reached i o (record { status = w; filled = n }))
          Raises
          (close_order o class w)
  unfolding close_order
  close_order-Reached n class w running =
      let Q : FillSyncResult → Session → Type 0 =
        λ _. Reached i o (record { status = w; filled = n }) in
      Triple-bind (Moved i o w n) Q (moved_to o true w) _
        (moved_to-Moved i o n true w running (λ h. cc))
        λ o1.
          Triple-bind (λ _. Moved i o w n o1) Q
            (Audit.append (
              sync_entry o EventType.real_order_fill_synced
                (codes "KIS reported " ++ class_text class) class
                ((codes "delta", integer (pos 0)) ∷ [])))
            _
            (entry-Moved i n o o1 w EventType.real_order_fill_synced
              (codes "KIS reported " ++ class_text class) class
              ((codes "delta", integer (pos 0)) ∷ []) refl)
            λ _. finish-Reached o1 w n class none

  pub report_negative-Reached :
      (n : ℤ) (class : FillClass) (delta kis_total : ℤ)
      → Triple
          (View i o n)
          (λ _. Reached i o (record { status = o.status; filled = n }))
          Raises
          (report_negative o class delta n kis_total)
  unfolding report_negative
  report_negative-Reached n class delta kis_total =
      let Q : FillSyncResult → Session → Type 0 =
        λ _. Reached i o (record { status = o.status; filled = n }) in
      let more =
        (codes "delta", integer delta)
        ∷ (codes "existing_total", integer n)
        ∷ (codes "kis_total", integer kis_total)
        ∷ [] in
      Triple-bind (λ _. View i o n) Q _ _
        (entry-View i n o o EventType.fill_sync_negative_delta
          (codes "KIS reports filled_quantity below internal RealFill sum") class more refl)
        λ _.
          Triple-pure Q (no_fill o failed (some negative_delta) delta n)
            (λ s v. (o, stays i o n s v))

  pub report_fill-Reached :
      (n : ℤ) (class : FillClass) (delta kis_total : ℤ)
      → is_open o.status ≡ true
      → ltb_ℤ delta (pos 0) ≡ false
      → Triple
          (View i o n)
          (λ _. Reached i o (record { status = target class o.status; filled = n +ℤ delta }))
          Raises
          (report_fill o class delta n kis_total)
  unfolding report_fill
  report_fill-Reached n class delta kis_total running up =
      let w = target class o.status in
      let m = n +ℤ delta in
      let Q : FillSyncResult → Session → Type 0 =
        λ _. Reached i o (record { status = w; filled = m }) in
      Triple-bind (λ _. View i o m) Q (create_fill o n delta) _ (create_fill-View i o n delta up)
        λ created.
          Triple-bind (Moved i o w m) Q (move_by_class class o) _
            (move_by_class-Moved i o m class running)
            λ o1.
              Triple-bind (λ _. Moved i o w m o1) Q _ _
                (entry-Moved i m o o1 w EventType.real_order_fill_synced
                  (codes "KIS reported "
                    ++ (class_text class
                        ++ (codes " (delta=" ++ (decimal (pos_part delta) ++ codes ")"))))
                  class
                  ((codes "delta", integer delta) ∷ (codes "kis_total", integer kis_total) ∷ [])
                  refl)
                λ _. Triple-pure Q (synced o class created delta n o1.status) (λ s x. (o1, x))
