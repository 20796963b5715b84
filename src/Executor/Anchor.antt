-- ===== src/Executor/Anchor.antt =====
-- The writes of a placement: a real order is created, then its row is written back.
use stock_ai_platform.Base.{
  ℕ, ◌+◌, ◌≡◌, ◌<◌, refl, ap, ◌∙◌, Option, some, List, [], ◌∷◌, ◌++◌, arith, inl, inr, ◌⊎◌, All,
  Text, pos, leb_ℤ, take, update_where,
}
use stock_ai_platform.Store.{
  OrderCandidate, RealOrder, RealOrderStatus, KisOrderRequest, Session, value_error,
  audit_validation, pure, gets, ◌>>◌,
}
use stock_ai_platform.Store.Triple.{Triple, Triple-pure, Triple-guard, Triple-bind}
use stock_ai_platform.RealOrder
use stock_ai_platform.Audit
use stock_ai_platform.Executor.Words.{ExecutorResult}
use stock_ai_platform.Executor.Place.{request_price}

-- The request of a candidate.
abbrev pub request_of : OrderCandidate → Text → KisOrderRequest
request_of c account_no = record {
  symbol = c.symbol;
  side = c.side;
  order_type = c.order_type;
  quantity = c.quantity;
  price = request_price c.limit_price;
  account_no = account_no;
}

-- Written back, the last row is replaced and the rows with smaller keys are kept.
update_where-last :
    (xs : List RealOrder) (n : ℕ) (o o' : RealOrder)
    → All (λ r. r.id < n) xs
    → o.id ≡ n
    → update_where (RealOrder.has_id n) (λ _. o') (xs ++ o ∷ []) ≡ xs ++ o' ∷ []
update_where-last [] n o o' h e = ground arith
update_where-last (x ∷ xs) n o o' h e = let ih = update_where-last xs n o o' h.1 e in ground arith

-- The rest is about one call that starts with the orders `xs`, the next key `n` and the log `l`,
-- for the candidate `k`.
module _ (xs : List RealOrder) (n k : ℕ) (below : All (λ r. r.id < n) xs) where
  -- No order yet.
  pub record Before (l : List KisOrderRequest) (t : Session) : Type 0 where
    pub orders : t.real_orders ≡ xs
    pub next : t.next_real_order ≡ n
    pub sent : t.sent ≡ l

  -- One more order, `o`.
  pub record Anchored (l : List KisOrderRequest) (o : RealOrder) (t : Session) : Type 0 where
    pub orders : t.real_orders ≡ xs ++ o ∷ []
    pub id : o.id ≡ n
    pub candidate : o.candidate_id ≡ k
    pub next : t.next_real_order ≡ n + 1
    pub sent : t.sent ≡ l

  pub create-Anchored :
      (l : List KisOrderRequest) (a : RealOrder.NewRealOrder)
      → a.candidate_id ≡ k
      → Triple (Before l) (Anchored l) (Before l) (RealOrder.create a)
  unfolding RealOrder.create
  create-Anchored l a e =
      Triple-guard (Anchored l) (leb_ℤ a.quantity (pos 0)) value_error _ (λ s h. h)
        (Triple-guard (Anchored l) (RealOrder.bad_limit a.order_type a.limit_price) value_error
          (RealOrder.add_order a) (λ s h. h)
          (record {
            at = λ s h. record {
              orders = ap (λ os. os ++ RealOrder.row_of a s.next_real_order s.clock ∷ []) h.orders;
              id = h.next;
              candidate = e;
              next = ap (λ m. m + 1) h.next;
              sent = h.sent;
            };
          }))

  -- At most one more order, and nothing more put to the broker.
  pub record Settled (l : List KisOrderRequest) (t : Session) : Type 0 where
    pub grew :
        ((t.real_orders ≡ xs) × (t.next_real_order ≡ n))
        ⊎ ((o : RealOrder) × (t.real_orders ≡ xs ++ o ∷ [])
            × (o.id ≡ n)
            × (o.candidate_id ≡ k)
            × (t.next_real_order ≡ n + 1))
    pub sent : t.sent ≡ l

  pub Before-Settled : (l : List KisOrderRequest) (t : Session) → Before l t → Settled l t
  Before-Settled l t h = record { grew = inl (h.orders, h.next); sent = h.sent }

  pub Anchored-Settled :
      (l : List KisOrderRequest) (o : RealOrder) (t : Session) → Anchored l o t → Settled l t
  Anchored-Settled l o t h = record {
    grew = inr (o, h.orders, h.id, h.candidate, h.next);
    sent = h.sent;
  }

  module _ (l : List KisOrderRequest) where
    pub save-Anchored :
        (o o' : RealOrder)
        → o'.id ≡ o.id
        → o'.candidate_id ≡ o.candidate_id
        → Triple (Anchored l o) (Anchored l) (Settled l) (RealOrder.save o')
    save-Anchored o o' i c = record {
      at = λ s h. record {
        orders =
            ap (update_where (RealOrder.has_id o'.id) (λ _. o')) h.orders
            ∙ ap (λ m. update_where (RealOrder.has_id m) (λ _. o') (xs ++ o ∷ [])) (i ∙ h.id)
            ∙ update_where-last xs n o o' below h.id;
        id = i ∙ h.id;
        candidate = c ∙ h.candidate;
        next = h.next;
        sent = h.sent;
      };
    }

    pub update_status-Anchored :
        (o : RealOrder) (w : RealOrderStatus)
        → Triple (Anchored l o) (Anchored l) (Settled l) (RealOrder.update_status o w)
    unfolding RealOrder.update_status
    update_status-Anchored o w =
        Triple-guard (Anchored l) (RealOrder.is_terminal o.status) value_error _
          (Anchored-Settled l o)
          (Triple-bind (λ _. Anchored l o) (Anchored l) (gets λ s. s.clock) _
            (record { at = λ s h. h })
            λ now. save-Anchored o (record o { status = w; updated_at = now }) refl refl)

    pub mark_submitted-Anchored :
        (o : RealOrder) (hash : Option Text)
        → Triple (Anchored l o) (Anchored l) (Settled l) (RealOrder.mark_submitted o hash)
    unfolding RealOrder.mark_submitted
    mark_submitted-Anchored o hash =
        Triple-bind (Anchored l) (Anchored l) (RealOrder.update_status o RealOrderStatus.submitted)
          _ (update_status-Anchored o RealOrderStatus.submitted)
          λ o1.
            Triple-bind (λ _. Anchored l o1) (Anchored l) (gets λ s. s.clock) _
              (record { at = λ s h. h })
              λ now.
                save-Anchored o1
                  (record o1 { broker_order_no_hash = hash; submitted_at = some now }) refl refl

    pub mark_failed-Anchored :
        (o : RealOrder) (code : Option Text) (m : Text)
        → Triple (Anchored l o) (Anchored l) (Settled l) (RealOrder.mark_failed o code (some m))
    unfolding RealOrder.mark_failed RealOrder.checked_message
    mark_failed-Anchored o code m =
        Triple-bind (λ _. Anchored l o) (Anchored l) (RealOrder.checked_message (some m)) _
          (Triple-guard (λ _. Anchored l o) (RealOrder.bad_message (take 500 m)) value_error
            (pure (some (take 500 m))) (Anchored-Settled l o) (record { at = λ s h. h }))
          λ message.
            Triple-bind (Anchored l) (Anchored l) (RealOrder.update_status o RealOrderStatus.failed)
              _ (update_status-Anchored o RealOrderStatus.failed)
              λ o1.
                save-Anchored o1 (record o1 { error_code = code; error_message = message }) refl
                  refl

    pub append-Anchored :
        (o : RealOrder) (a : Audit.NewEntry)
        → Triple (Anchored l o) (λ _. Settled l) (Settled l) (Audit.append a)
    unfolding Audit.append Audit.add_entry
    append-Anchored o a =
        let stop = Anchored-Settled l o in
        Triple-guard (λ _. Settled l) (Audit.details_leak a.details) audit_validation _ stop
          (Triple-guard (λ _. Settled l) (Audit.too_long a.ip_hash) audit_validation _ stop
            (Triple-guard (λ _. Settled l) (Audit.too_long a.user_agent_hash) audit_validation _
              stop (record { at = λ s h. record { grew = (stop s h).grew; sent = h.sent } })))

    -- The audit row of an outcome, then its result.
    pub recorded-Settled :
        (o : RealOrder) (a : Audit.NewEntry) (r : ExecutorResult)
        → Triple (Anchored l o) (λ _. Settled l) (Settled l) (Audit.append a >> pure r)
    recorded-Settled o a r =
        Triple-bind (λ _. Settled l) (λ _. Settled l) (Audit.append a) _ (append-Anchored o a)
          λ _. Triple-pure (λ _. Settled l) r (λ s h. h)
