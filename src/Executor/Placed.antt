-- ===== src/Executor/Placed.antt =====
-- What the two branches leave: at most one new real order, and what was put to the broker.
use stock_ai_platform.Base.{
  ℕ, codes, ◌≡◌, ◌<◌, refl, ap, ◌∙◌, false, Option, none, some, List, [], ◌∷◌, ◌++◌, inl, inr, ◌⊎◌,
  All, Text, pos, leb_ℤ, ltb_ℤ, take,
}
use stock_ai_platform.Store.{
  OrderCandidate, RealOrder, RealOrderStatus, KisOrderRequest, Settings, Session, value_error,
  transport_error, pure, Result, ok, err,
}
use stock_ai_platform.Store.Triple.{
  Post, Triple, Triple-pure, Triple-guard, Triple-bind, Triple-weaken,
}
use stock_ai_platform.RealOrder
use stock_ai_platform.Kis.{
  fake, real, RealTransport, KisOrderResult, new_request, place_order, next_fake_order_no,
}
use stock_ai_platform.Executor.Words.{
  Placement, submitted, rejected, timeout, network_error, unknown, RealOrderExecutor,
  placement_text, scrub, classify_place_message,
}
use stock_ai_platform.Executor.Place.{
  order_request, order_of, dry_run_order, dry_run_result, request_price, execute_dry_run,
  execute_real, record_submitted, record_failed, record_outcome, broker_hash, failed_entry,
  failed_result, submitted_result, submitted_entry,
}
use stock_ai_platform.Executor.Anchor.{
  request_of, Before, Anchored, Settled, Before-Settled, Anchored-Settled, create-Anchored,
  mark_submitted-Anchored, mark_failed-Anchored, recorded-Settled,
}

-- The rest is about one call that starts with the orders `xs` and the next key `n`, for the
-- candidate `k`.
module _ (xs : List RealOrder) (n k : ℕ) (below : All (λ r. r.id < n) xs) where
  module _ (l : List KisOrderRequest) where
    record_failed-Settled :
        (sha256 : Text → Text) (c : OrderCandidate) (o : RealOrder) (result : KisOrderResult)
        (w : Placement)
        → Triple
            (Anchored xs n k below l o)
            (λ _. Settled xs n k below l)
            (Settled xs n k below l)
            (record_failed sha256 c o result w)
    unfolding record_failed
    record_failed-Settled sha256 c o result w =
        let code = some (placement_text w) in
        let message = take 500 (scrub result.message) in
        Triple-bind (Anchored xs n k below l) (λ _. Settled xs n k below l)
          (RealOrder.mark_failed o code (some message)) _
          (mark_failed-Anchored xs n k below l o code message)
          λ o1. recorded-Settled xs n k below l o1 (failed_entry c w) (failed_result o.id w)

    record_submitted-Settled :
        (sha256 : Text → Text) (c : OrderCandidate) (o : RealOrder) (result : KisOrderResult)
        → Triple
            (Anchored xs n k below l o)
            (λ _. Settled xs n k below l)
            (Settled xs n k below l)
            (record_submitted sha256 c o result)
    unfolding record_submitted
    record_submitted-Settled sha256 c o result =
        let hash = broker_hash sha256 result.order_no in
        Triple-bind (Anchored xs n k below l) (λ _. Settled xs n k below l)
          (RealOrder.mark_submitted o hash) _ (mark_submitted-Anchored xs n k below l o hash)
          λ o1.
            recorded-Settled xs n k below l o1 (submitted_entry sha256 c result)
              (submitted_result o.id)

    record_outcome-Settled :
        (sha256 : Text → Text) (c : OrderCandidate) (o : RealOrder) (result : KisOrderResult)
        (class : Placement)
        → Triple
            (Anchored xs n k below l o)
            (λ _. Settled xs n k below l)
            (Settled xs n k below l)
            (record_outcome sha256 c o result class)
    record_outcome-Settled sha256 c o result submitted = record_submitted-Settled sha256 c o result
    record_outcome-Settled sha256 c o result rejected =
        record_failed-Settled sha256 c o result rejected
    record_outcome-Settled sha256 c o result timeout =
        record_failed-Settled sha256 c o result timeout
    record_outcome-Settled sha256 c o result network_error =
        record_failed-Settled sha256 c o result network_error
    record_outcome-Settled sha256 c o result unknown =
        record_failed-Settled sha256 c o result unknown

    pub order_request-keeps :
        (P : Session → Type 0) (R : Session → Type 0) (c : OrderCandidate) (account_no : Text)
        → ((s : Session) → P s → R s)
        → Triple P (λ r t. (r ≡ request_of c account_no) × P t) R (order_request c account_no)
    unfolding new_request
    order_request-keeps P R c account_no stop =
        let Q : KisOrderRequest → Session → Type 0 = λ r t. (r ≡ request_of c account_no) × P t in
        Triple-guard Q (leb_ℤ c.quantity (pos 0)) value_error _ stop (
          Triple-guard Q (ltb_ℤ (request_price c.limit_price) (pos 0)) value_error
            (pure (request_of c account_no)) stop (record { at = λ s h. (refl, h) }))

    -- A dry run with the fake transport puts nothing to the broker.
    pub execute_dry_run-Settled :
        (sha256 : Text → Text) (e : RealOrderExecutor) (c : OrderCandidate)
        → e.transport ≡ fake
        → c.id ≡ k
        → Triple
            (Before xs n k below l)
            (λ _. Settled xs n k below l)
            (Settled xs n k below l)
            (execute_dry_run sha256 e c)
    unfolding execute_dry_run place_order next_fake_order_no
    execute_dry_run-Settled sha256 e c f i =
        Triple-bind (λ r t. (r ≡ request_of c (codes "DRY_RUN")) × Before xs n k below l t)
          (λ _. Settled xs n k below l) _ _
          (order_request-keeps (Before xs n k below l) (Settled xs n k below l) c (codes "DRY_RUN")
            (Before-Settled xs n k below l))
          λ r.
            Triple-bind (λ _. Before xs n k below l) (λ _. Settled xs n k below l)
              (place_order e.transport r) _
              (rw f (record {
                at = λ s h. record { orders = h.1.orders; next = h.1.next; sent = h.1.sent };
              }))
              λ result.
                Triple-bind (Anchored xs n k below l) (λ _. Settled xs n k below l) _ _
                  (Triple-weaken (Anchored xs n k below l) (Anchored xs n k below l) _ (λ s h. h)
                    (λ o s h. h) (Before-Settled xs n k below l)
                    (create-Anchored xs n k below l (dry_run_order sha256 c result.order_no) i))
                  λ o.
                    Triple-pure (λ _. Settled xs n k below l) (dry_run_result o.id)
                      (Anchored-Settled xs n k below l o)

  answered-Anchored :
      (l l' : List KisOrderRequest) (o : RealOrder) (s' : Session) (answer : Option KisOrderResult)
      → Anchored xs n k below l' o s'
      → Post
          (λ _. Anchored xs n k below l' o)
          (λ s. Settled xs n k below l s ⊎ Settled xs n k below l' s)
          (elim answer as (λ _. Result KisOrderResult × Session) [
            | none ↦ (err transport_error, s')
            | some a ↦ (ok a, s')
          ])
  answered-Anchored l l' o s' none a = inr (Anchored-Settled xs n k below l' o s' a)
  answered-Anchored l l' o s' (some x) a = a

  place_order-Anchored :
      (l : List KisOrderRequest) (t : RealTransport) (c : OrderCandidate) (account_no : Text)
      (o : RealOrder) (r : KisOrderRequest)
      → let l' = l ++ request_of c account_no ∷ [] in
        Triple
          (λ s. (r ≡ request_of c account_no) × Anchored xs n k below l o s)
          (λ _. Anchored xs n k below l' o)
          (λ s. Settled xs n k below l s ⊎ Settled xs n k below l' s)
          (place_order (real t) r)
  unfolding place_order
  place_order-Anchored l t c account_no o r = record {
    at = λ s h.
        let l' = l ++ request_of c account_no ∷ [] in
        let a : Anchored xs n k below l' o (record s { sent = s.sent ++ r ∷ [] }) = record {
          orders = h.1.orders;
          id = h.1.id;
          candidate = h.1.candidate;
          next = h.1.next;
          sent = ap (λ m. m ++ r ∷ []) h.1.sent ∙ ap (λ q. l ++ q ∷ []) h.0;
        } in
        answered-Anchored l l' o (record s { sent = s.sent ++ r ∷ [] }) (t.answer_order s.sent r) a;
  }

  -- The real placement puts at most one request to the broker, and exactly one where it returns.
  pub execute_real-Sent :
      (l : List KisOrderRequest) (sha256 : Text → Text) (settings : Settings) (t : RealTransport)
      (c : OrderCandidate)
      → c.id ≡ k
      → let l' = l ++ request_of c settings.kis_account_no ∷ [] in
        Triple
          (Before xs n k below l)
          (λ _. Settled xs n k below l')
          (λ s. Settled xs n k below l s ⊎ Settled xs n k below l' s)
          (execute_real sha256 settings (real t) c)
  unfolding execute_real place_order
  execute_real-Sent l sha256 settings t c i =
      let account_no = settings.kis_account_no in
      let l' = l ++ request_of c account_no ∷ [] in
      let R : Session → Type 0 = λ s. Settled xs n k below l s ⊎ Settled xs n k below l' s in
      Triple-bind (Anchored xs n k below l) (λ _. Settled xs n k below l') _ _
        (Triple-weaken (Anchored xs n k below l) (Anchored xs n k below l) _ (λ s h. h) (λ o s h. h)
          (λ s h. inl (Before-Settled xs n k below l s h))
          (create-Anchored xs n k below l (order_of c false none none RealOrderStatus.created) i))
        λ o.
          Triple-bind (λ r s. (r ≡ request_of c account_no) × Anchored xs n k below l o s)
            (λ _. Settled xs n k below l') _ _
            (order_request-keeps l (Anchored xs n k below l o) R c account_no
              (λ s h. inl (Anchored-Settled xs n k below l o s h)))
            λ r.
              Triple-bind (λ _ s. Anchored xs n k below l' o s) (λ _. Settled xs n k below l')
                (place_order (real t) r) _ (place_order-Anchored l t c account_no o r)
                λ result.
                  Triple-weaken (λ _. Settled xs n k below l') (λ _. Settled xs n k below l') _
                    (λ s h. h) (λ a s h. h) (λ s h. inr h)
                    (record_outcome-Settled l' sha256 c o result
                      (classify_place_message result.message))

  answered-Before :
      (l' : List KisOrderRequest) (s' : Session) (answer : Option KisOrderResult)
      → Before xs n k below l' s'
      → Post
          (λ _. Before xs n k below l')
          (Settled xs n k below l')
          (elim answer as (λ _. Result KisOrderResult × Session) [
            | none ↦ (err transport_error, s')
            | some a ↦ (ok a, s')
          ])
  answered-Before l' s' none b = Before-Settled xs n k below l' s' b
  answered-Before l' s' (some x) b = b

  place_order-Before :
      (l : List KisOrderRequest) (t : RealTransport) (c : OrderCandidate) (account_no : Text)
      (r : KisOrderRequest)
      → let l' = l ++ request_of c account_no ∷ [] in
        Triple
          (λ s. (r ≡ request_of c account_no) × Before xs n k below l s)
          (λ _. Before xs n k below l')
          (Settled xs n k below l')
          (place_order (real t) r)
  unfolding place_order
  place_order-Before l t c account_no r = record {
    at = λ s h.
        let l' = l ++ request_of c account_no ∷ [] in
        let b : Before xs n k below l' (record s { sent = s.sent ++ r ∷ [] }) = record {
          orders = h.1.orders;
          next = h.1.next;
          sent = ap (λ m. m ++ r ∷ []) h.1.sent ∙ ap (λ q. l ++ q ∷ []) h.0;
        } in
        answered-Before l' (record s { sent = s.sent ++ r ∷ [] }) (t.answer_order s.sent r) b;
  }

  -- A dry run with another transport than the fake.
  pub execute_dry_run-Sent :
      (l : List KisOrderRequest) (sha256 : Text → Text) (e : RealOrderExecutor) (t : RealTransport)
      (c : OrderCandidate)
      → e.transport ≡ real t
      → c.id ≡ k
      → let l' = l ++ request_of c (codes "DRY_RUN") ∷ [] in
        (R : Session → Type 0)
        → ((s : Session) → Settled xs n k below l' s → R s)
        → Triple
            (Before xs n k below l)
            (λ r s. (r ≡ request_of c (codes "DRY_RUN")) × Before xs n k below l s)
            R
            (order_request c (codes "DRY_RUN"))
        → Triple
            (Before xs n k below l)
            (λ _. Settled xs n k below l')
            R
            (execute_dry_run sha256 e c)
  unfolding execute_dry_run
  execute_dry_run-Sent l sha256 e t c f i R keep asked =
      let account_no = codes "DRY_RUN" in
      let l' = l ++ request_of c account_no ∷ [] in
      Triple-bind (λ r s. (r ≡ request_of c account_no) × Before xs n k below l s)
        (λ _. Settled xs n k below l') _ _ asked
        λ r.
          Triple-weaken (λ _. Settled xs n k below l') (λ _. Settled xs n k below l') _ (λ s h. h)
            (λ a s h. h) keep
            (Triple-bind (λ _. Before xs n k below l') (λ _. Settled xs n k below l')
              (place_order e.transport r) _ (rw f (place_order-Before l t c account_no r))
              λ result.
                Triple-bind (Anchored xs n k below l') (λ _. Settled xs n k below l') _ _
                  (Triple-weaken (Anchored xs n k below l') (Anchored xs n k below l') _ (λ s h. h)
                    (λ o s h. h) (Before-Settled xs n k below l')
                    (create-Anchored xs n k below l' (dry_run_order sha256 c result.order_no) i))
                  λ o.
                    Triple-pure (λ _. Settled xs n k below l') (dry_run_result o.id)
                      (Anchored-Settled xs n k below l' o))
