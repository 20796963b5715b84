-- ===== src/FillSync/Refines.antt =====
-- Any number of syncs of one order leaves the tables where the contract's counter stands.
use stock_ai_platform.Base.{
  ℕ, ◌≡◌, refl, ap, sym, ◌∙◌, Bool, true, false, ◌||◌, Option, none, some, arith, inl, inr,
  Bool-cases, Text, ℤ, find, find-passes, ==_iff, if◌then◌else◌,
}
use mathlib.Core.Path.{subst}
use stock_ai_platform.Store.{RealOrderStatus, RealOrder, Session, Result, ok, is_ok}
use stock_ai_platform.Store.Triple.{Triple-returns}
use stock_ai_platform.RealOrder
use stock_ai_platform.RealOrder.Fill
use stock_ai_platform.Kis.{Transport, KisFillStatusResult, query_fill_status}
use stock_ai_platform.FillSync.Words.{
  FillSyncResult, is_open, is_skipped, nothing, dry_run_order_skipped, order_already_terminal,
  classify_fill_response,
}
use stock_ai_platform.FillSync.Service.{
  order_ref, finish, handle_answer, sync_order, sync_fills, not_found,
}
use stock_ai_platform.FillSync.Kept.{View}
use stock_ai_platform.FillSync.Counter.{Progress, advance, advance_class}
use stock_ai_platform.FillSync.Branches.{Reached}
use stock_ai_platform.FillSync.HighWater.{handle_answer-Reached, progress-same}

-- The tables hold the progress `p` of the real order `i`, which is no dry run.
pub record Holds (i : ℕ) (quantity : ℤ) (p : Progress) (s : Session) : Type 0 where
  pub order : RealOrder
  pub found : find (RealOrder.has_id i) s.real_orders ≡ some order
  pub live : order.dry_run ≡ false
  pub quantity_same : order.quantity ≡ quantity
  pub status : order.status ≡ p.status
  pub total : Fill.total_filled_quantity i s ≡ p.filled

abbrev pub NotDry : Progress → Type 0
NotDry p = RealOrder.same_status p.status RealOrderStatus.dry_run ≡ false

-- What the transport answers to the sync of an order.
unfoldable pub answer_to : Transport → ℕ → Option Text → Session → Option KisFillStatusResult
unfolding query_fill_status
answer_to transport i plaintext s = elim (find (RealOrder.has_id i) s.real_orders) [
  | none ↦ none
  | some o ↦ query_fill_status transport (order_ref plaintext o i) s
]

second_else :
    {A : Type 0} (b c : Bool) (x y z : A)
    → b ≡ false
    → c ≡ false
    → (if b then x else if c then y else z) ≡ z
second_else b c x y z h k = ground arith

one_of_two :
    {A : Type 0} (P : A → Type 0) (b c : Bool) (x y z : A)
    → c ≡ true
    → P x
    → P y
    → P (if b then x else if c then y else z)
one_of_two P true c x y z h p q = p
one_of_two P false true x y z h p q = q
one_of_two P false false x y z h p q = cc

-- Where the order stands in its life decides whether the transport is asked.
sync_order-open :
    (transport : Transport) (i : ℕ) (plaintext : Option Text) (o : RealOrder) (s : Session)
    → o.dry_run ≡ false
    → RealOrder.same_status o.status RealOrderStatus.dry_run ≡ false
    → is_skipped o.status ≡ false
    → sync_order transport i plaintext o s
      ≡ handle_answer o (query_fill_status transport (order_ref plaintext o i) s) s
unfolding sync_order
sync_order-open transport i plaintext o s live wet unskipped =
    second_else (o.dry_run || RealOrder.same_status o.status RealOrderStatus.dry_run)
      (is_skipped o.status) (finish o nothing (some dry_run_order_skipped) s)
      (finish o nothing (some (order_already_terminal o.status)) s)
      (handle_answer o (query_fill_status transport (order_ref plaintext o i) s) s)
      (let l = live in let w = wet in ground arith) unskipped

sync_order-skips :
    (transport : Transport) (i : ℕ) (plaintext : Option Text) (o : RealOrder) (s : Session)
    → is_skipped o.status ≡ true
    → (is_ok (sync_order transport i plaintext o s).0 ≡ true)
      × ((sync_order transport i plaintext o s).1 ≡ s)
unfolding sync_order
sync_order-skips transport i plaintext o s skipped =
    one_of_two {A = Result FillSyncResult × Session} (λ r. (is_ok r.0 ≡ true) × (r.1 ≡ s))
      (o.dry_run || RealOrder.same_status o.status RealOrderStatus.dry_run) (is_skipped o.status)
      (finish o nothing (some dry_run_order_skipped) s)
      (finish o nothing (some (order_already_terminal o.status)) s)
      (handle_answer o (query_fill_status transport (order_ref plaintext o i) s) s) skipped
      (refl, refl) (refl, refl)

sync_fills-found :
    (transport : Transport) (i : ℕ) (plaintext : Option Text) (o : RealOrder) (s : Session)
    → find (RealOrder.has_id i) s.real_orders ≡ some o
    → (sync_fills transport i plaintext s ≡ sync_order transport i plaintext o s)
      × (answer_to transport i plaintext s
          ≡ query_fill_status transport (order_ref plaintext o i) s)
unfolding sync_fills answer_to
sync_fills-found transport i plaintext o s h = (
  ap
      (λ x. elim x as (λ _. Result FillSyncResult × Session) [
        | none ↦ (ok (not_found i), s)
        | some o ↦ sync_order transport i plaintext o s
      ])
      h,
  ap
      (λ x. elim x as (λ _. Option KisFillStatusResult) [
        | none ↦ none
        | some o ↦ query_fill_status transport (order_ref plaintext o i) s
      ])
      h,
)

-- A closed order takes no answer.
advance-skipped :
    (quantity : ℤ) (p : Progress) (a : Option KisFillStatusResult)
    → is_skipped p.status ≡ true
    → advance quantity p a ≡ p
unfolding advance
advance-skipped quantity p none h = refl
advance-skipped quantity p (some r) h =
    ap (λ b. if b then p else advance_class (classify_fill_response r) r quantity p) h

-- One sync, in the terms of the order that it finds.
Reached-Holds :
    (i : ℕ) (o : RealOrder) (quantity : ℤ) (p : Progress) (s : Session)
    → o.dry_run ≡ false
    → o.quantity ≡ quantity
    → Reached i o p s
    → Holds i quantity p s
Reached-Holds i o quantity p s live q (o', m) = record {
  order = o';
  found = m.view.found;
  live = m.dry_run ∙ live;
  quantity_same = m.quantity ∙ q;
  status = m.status;
  total = m.view.total;
}

-- The outcome of a sync that the contract asks for.
abbrev Outcome :
    ℕ → ℤ → Progress → Option KisFillStatusResult → Result FillSyncResult × Session → Type 0
Outcome i quantity p a r = (is_ok r.0 ≡ true) × Holds i quantity (advance quantity p a) r.1

module _ (transport : Transport) (i : ℕ) (plaintext : Option Text) (o : RealOrder) (s : Session)
    (found : find (RealOrder.has_id i) s.real_orders ≡ some o) (live : o.dry_run ≡ false)
    (wet : RealOrder.same_status o.status RealOrderStatus.dry_run ≡ false) where
  here : Progress
  here = record { status = o.status; filled = Fill.total_filled_quantity i s }

  answer : Option KisFillStatusResult
  answer = query_fill_status transport (order_ref plaintext o i) s

  skipped-Outcome :
      is_skipped o.status ≡ true
      → Outcome i o.quantity here answer (sync_order transport i plaintext o s)
  unfolding here
  skipped-Outcome skipped =
      let r = sync_order-skips transport i plaintext o s skipped in
      let held : Holds i o.quantity here s = record {
        order = o;
        found = found;
        live = live;
        quantity_same = refl;
        status = refl;
        total = refl;
      } in
      (
        r.0,
        subst (Holds i o.quantity (advance o.quantity here answer)) (sym r.1) (
            subst (λ q. Holds i o.quantity q s)
              (sym (advance-skipped o.quantity here answer skipped)) held),
      )

  open-Outcome :
      is_skipped o.status ≡ false
      → Outcome i o.quantity here answer (sync_order transport i plaintext o s)
  unfolding here answer
  open-Outcome unskipped =
      let running : is_open o.status ≡ true = let w = wet in ground arith in
      let key : o.id ≡ i =
        (==_iff o.id i).0 (find-passes (RealOrder.has_id i) s.real_orders o found) in
      let view : View i o here.filled s = record { found = found; total = refl; key = key } in
      let r =
        Triple-returns (handle_answer o answer) s
          (handle_answer-Reached i o here.filled running answer) view in
      subst (Outcome i o.quantity here answer)
        (sym (sync_order-open transport i plaintext o s live wet unskipped))
        (
          r.0,
          Reached-Holds i o o.quantity (advance o.quantity here answer) (handle_answer o answer s).1
              live refl r.1,
        )

  sync_order-Outcome : Outcome i o.quantity here answer (sync_order transport i plaintext o s)
  sync_order-Outcome = elim (Bool-cases (is_skipped o.status)) [
    | inl skipped ↦ skipped-Outcome skipped
    | inr unskipped ↦ open-Outcome unskipped
  ]

-- Where the tables hold a progress of a real order, a sync returns, and afterwards they hold the
-- progress that the contract gives for the transport's answer.
pub sync_fills-Holds :
    (transport : Transport) (i : ℕ) (plaintext : Option Text) (quantity : ℤ) (p : Progress)
    (s : Session)
    → NotDry p
    → Holds i quantity p s
    → (is_ok (sync_fills transport i plaintext s).0 ≡ true)
      × Holds i quantity
          (advance quantity p (answer_to transport i plaintext s))
          (sync_fills transport i plaintext s).1
unfolding here answer
sync_fills-Holds transport i plaintext quantity p s wet h =
    let o = h.order in
    let e = sync_fills-found transport i plaintext o s h.found in
    let wet' : RealOrder.same_status o.status RealOrderStatus.dry_run ≡ false =
      ap (λ w. RealOrder.same_status w RealOrderStatus.dry_run) h.status ∙ wet in
    let done = sync_order-Outcome transport i plaintext o s h.found h.live wet' in
    let a = query_fill_status transport (order_ref plaintext o i) s in
    let p' : Progress = record { status = o.status; filled = Fill.total_filled_quantity i s } in
    let by_progress =
      subst (λ q. Outcome i o.quantity q a (sync_order transport i plaintext o s))
        (progress-same o.status p.status (Fill.total_filled_quantity i s) p.filled h.status h.total)
        done in
    let by_quantity =
      subst (λ q. Outcome i q p a (sync_order transport i plaintext o s)) h.quantity_same
        by_progress in
    let by_answer =
      subst (λ b. Outcome i quantity p b (sync_order transport i plaintext o s)) (sym e.1)
        by_quantity in
    subst (Outcome i quantity p (answer_to transport i plaintext s)) (sym e.0) by_answer
