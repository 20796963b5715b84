-- ===== src/Executor/Ends.antt =====
-- A placement whose broker answers comes to an end: the stored order is SUBMITTED or FAILED.
use stock_ai_platform.Base.{
  ℕ, ◌+◌, ◌≡◌, ◌<◌, refl, ap, sym, ◌∙◌, false, none, some, [], ◌∷◌, ◌++◌, All, Text, pos, leb_ℤ,
  ltb_ℤ,
}
use mathlib.Core.Path.{subst}
use stock_ai_platform.Store.{
  OrderCandidate, RealOrder, RealOrderStatus, KisOrderRequest, Settings, Session, value_error,
  transport_error, raise_if, Action, ◌>>=◌, ◌>>◌, Result, ok, err,
}
use stock_ai_platform.Store.Triple.{Triple-value}
use stock_ai_platform.Store.Steps.{guard-go, bind-go}
use stock_ai_platform.RealOrder
use stock_ai_platform.RealOrder.Fill
use stock_ai_platform.Kis.{real, RealTransport, KisOrderResult, place_order}
use stock_ai_platform.FillSync.Kept.{View}
use stock_ai_platform.Executor.Words.{ExecutorResult, RealOrderExecutor, classify_place_message}
use stock_ai_platform.Executor.Place.{
  order_of, order_request, request_price, execute_real, record_outcome,
}
use stock_ai_platform.Executor.Run.{execute, resolve_real_transport}
use stock_ai_platform.Executor.Gates.{Open, Open-dispatch}
use stock_ai_platform.Executor.Anchor.{request_of}
use stock_ai_platform.Executor.Effect.{dispatch-live}
use stock_ai_platform.Executor.Safe.{order_request-go}
use stock_ai_platform.Executor.Outcome.{
  ended, placed_result, Stands, find-last, record_outcome-Stands,
}

module _ (sha256 : Text → Text) (settings : Settings) (t : RealTransport) (c : OrderCandidate)
    (s : Session) where
  anchor : RealOrder.NewRealOrder
  anchor = order_of c false none none RealOrderStatus.created

  anchored : Session
  anchored = record s {
    real_orders = s.real_orders ++ RealOrder.row_of anchor s.next_real_order s.clock ∷ [];
    next_real_order = s.next_real_order + 1;
  }

  asked : KisOrderRequest
  asked = request_of c settings.kis_account_no

  sent_out : Session
  sent_out = record anchored { sent = s.sent ++ asked ∷ [] }

  create-go :
      leb_ℤ c.quantity (pos 0) ≡ false
      → RealOrder.bad_limit c.order_type c.limit_price ≡ false
      → RealOrder.create anchor s
        ≡ (ok (RealOrder.row_of anchor s.next_real_order s.clock), anchored)
  unfolding RealOrder.create anchor anchored
  create-go q l =
      guard-go (leb_ℤ c.quantity (pos 0)) value_error
        (raise_if (RealOrder.bad_limit c.order_type c.limit_price) value_error
          >> RealOrder.add_order anchor)
        s q
      ∙ guard-go (RealOrder.bad_limit c.order_type c.limit_price) value_error
          (RealOrder.add_order anchor) s l

  place_order-go :
      (a : KisOrderResult)
      → t.answer_order s.sent asked ≡ some a
      → place_order (real t) asked anchored ≡ (ok a, sent_out)
  unfolding place_order anchored sent_out
  place_order-go a h =
      ap
        (λ x. elim x as (λ _. Result KisOrderResult × Session) [
          | none ↦ (err transport_error, sent_out)
          | some a ↦ (ok a, sent_out)
        ])
        h

  execute_real-go :
      (a : KisOrderResult)
      → leb_ℤ c.quantity (pos 0) ≡ false
      → RealOrder.bad_limit c.order_type c.limit_price ≡ false
      → ltb_ℤ (request_price c.limit_price) (pos 0) ≡ false
      → t.answer_order s.sent asked ≡ some a
      → execute_real sha256 settings (real t) c s
        ≡ record_outcome sha256 c
            (RealOrder.row_of anchor s.next_real_order s.clock)
            a
            (classify_place_message a.message)
            sent_out
  unfolding execute_real anchor asked
  execute_real-go a q l p h =
      let o = RealOrder.row_of anchor s.next_real_order s.clock in
      let last : KisOrderResult → Action ExecutorResult =
        λ a. record_outcome sha256 c o a (classify_place_message a.message) in
      let placed : KisOrderRequest → Action ExecutorResult = λ r. place_order (real t) r >>= last in
      let requested : RealOrder → Action ExecutorResult = λ o.
        order_request c settings.kis_account_no >>= λ r. place_order (real t) r >>= λ a.
        record_outcome sha256 c o a (classify_place_message a.message) in
      bind-go (RealOrder.create anchor) requested s o anchored (create-go q l)
      ∙ bind-go (order_request c settings.kis_account_no) placed anchored asked anchored
          (order_request-go c settings.kis_account_no anchored q p)
      ∙ bind-go (place_order (real t) asked) last anchored a sent_out (place_order-go a h)

  execute_real-Stands :
      (a : KisOrderResult)
      → All (λ r. r.id < s.next_real_order) s.real_orders
      → leb_ℤ c.quantity (pos 0) ≡ false
      → RealOrder.bad_limit c.order_type c.limit_price ≡ false
      → ltb_ℤ (request_price c.limit_price) (pos 0) ≡ false
      → t.answer_order s.sent asked ≡ some a
      → let class = classify_place_message a.message in
        let out = execute_real sha256 settings (real t) c s in
        (out.0 ≡ ok (placed_result class s.next_real_order))
        × Stands s.next_real_order (ended class) out.1
  unfolding anchor anchored sent_out
  execute_real-Stands a below q l p h =
      let n = s.next_real_order in
      let class = classify_place_message a.message in
      let o = RealOrder.row_of anchor n s.clock in
      let go = execute_real-go a q l p h in
      let view : View n o (Fill.total_filled_quantity n sent_out) sent_out = record {
        found = find-last n s.real_orders o below refl;
        total = refl;
        key = refl;
      } in
      let r =
        Triple-value (λ x u. (x ≡ placed_result class n) × Stands n (ended class) u)
          (record_outcome sha256 c o a class) sent_out
          (record_outcome-Stands n (Fill.total_filled_quantity n sent_out) sha256 c o a class refl
            refl)
          view in
      subst (λ out. (out.0 ≡ ok (placed_result class n)) × Stands n (ended class) out.1) (sym go)
        (r.1 ∙ ap ok r.2.0, r.2.1)

-- The real placement comes to an end. For a candidate that passes all nine gates, whose quantity is
-- positive, whose limit price fits its type and is not negative, with real orders asked for, a
-- transport resolved and the order keys below the next one: if the transport answers, the call
-- returns the result of the answer's class, and the order under the new key is SUBMITTED if the
-- answer is of that class and FAILED otherwise.
pub execute-Stands :
    (sha256 : Text → Text) (e : RealOrderExecutor) (settings : Settings) (i : ℕ) (t : RealTransport)
    (c : OrderCandidate) (a : KisOrderResult) (s : Session)
    → Open settings i c s
    → settings.real_order_dry_run ≡ false
    → resolve_real_transport e settings ≡ some (real t)
    → All (λ r. r.id < s.next_real_order) s.real_orders
    → leb_ℤ c.quantity (pos 0) ≡ false
    → RealOrder.bad_limit c.order_type c.limit_price ≡ false
    → ltb_ℤ (request_price c.limit_price) (pos 0) ≡ false
    → t.answer_order s.sent (request_of c settings.kis_account_no) ≡ some a
    → let class = classify_place_message a.message in
      let out = execute sha256 e settings i s in
      (out.0 ≡ ok (placed_result class s.next_real_order))
      × Stands s.next_real_order (ended class) out.1
unfolding asked
execute-Stands sha256 e settings i t c a s gates live found below q l p h =
    let class = classify_place_message a.message in
    let n = s.next_real_order in
    let go =
      Open-dispatch sha256 e settings i s c gates
      ∙ dispatch-live sha256 e settings c s below (some (real t)) live found in
    subst (λ out. (out.0 ≡ ok (placed_result class n)) × Stands n (ended class) out.1) (sym go)
      (execute_real-Stands sha256 settings t c s a below q l p h)
