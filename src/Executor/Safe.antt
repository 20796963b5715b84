-- ===== src/Executor/Safe.antt =====
-- When a call of the executor puts a request to the broker.
use stock_ai_platform.Base.{
  ℕ, ◌≡◌, ◌<◌, refl, ap, sym, ◌∙◌, true, false, [], ◌∷◌, ◌++◌, inl, inr, ◌⊎◌, All, Text, codes, pos,
  leb_ℤ, ltb_ℤ,
}
use mathlib.Core.Path.{subst}
use stock_ai_platform.Store.{
  OrderCandidate, Settings, Session, value_error, pure, ok, Action, raise_if, ◌>>◌, KisOrderRequest,
}
use stock_ai_platform.Store.Steps.{guard-go}
use stock_ai_platform.Store.Triple.{Post, Triple, Triple-ends}
use stock_ai_platform.Kis.{real, RealTransport, is_fake, new_request}
use stock_ai_platform.Executor.Words.{RealOrderExecutor}
use stock_ai_platform.Executor.Place.{execute_dry_run, request_price, order_request}
use stock_ai_platform.Executor.Run.{execute}
use stock_ai_platform.Executor.Gates.{Open, execute-cases, Open-dispatch}
use stock_ai_platform.Executor.Anchor.{request_of, Before, Settled}
use stock_ai_platform.Executor.Placed.{execute_dry_run-Sent}
use stock_ai_platform.Executor.Effect.{dispatch-Effect, dispatch-dry}

-- A good request is built.
pub order_request-go :
    (c : OrderCandidate) (account_no : Text) (s : Session)
    → leb_ℤ c.quantity (pos 0) ≡ false
    → ltb_ℤ (request_price c.limit_price) (pos 0) ≡ false
    → order_request c account_no s ≡ (ok (request_of c account_no), s)
unfolding new_request
order_request-go c account_no s q p =
    let built : Action KisOrderRequest = pure (request_of c account_no) in
    guard-go (leb_ℤ c.quantity (pos 0)) value_error
      (raise_if (ltb_ℤ (request_price c.limit_price) (pos 0)) value_error >> built) s q
    ∙ guard-go (ltb_ℤ (request_price c.limit_price) (pos 0)) value_error built s p

module _ (sha256 : Text → Text) (e : RealOrderExecutor) (settings : Settings) (i : ℕ) (s : Session)
    (below : All (λ o. o.id < s.next_real_order) s.real_orders) where
  -- In a session whose order keys are below the next one, and with the fake transport injected
  -- where the settings ask for a dry run: a call of the executor, whatever the transport answers,
  -- puts nothing to the broker, or all nine gates are open for the candidate, the settings do not
  -- ask for a dry run, and just the one request of the candidate is put.
  pub execute-sent :
      (settings.real_order_dry_run ≡ true → is_fake e.transport ≡ true)
      → ((execute sha256 e settings i s).1.sent ≡ s.sent)
        ⊎ ((c : OrderCandidate) × Open settings i c s
            × (settings.real_order_dry_run ≡ false)
            × ((execute sha256 e settings i s).1.sent
                ≡ s.sent ++ request_of c settings.kis_account_no ∷ []))
  execute-sent faked = elim (execute-cases sha256 e settings i s) [
    | inl (reason, order, same) ↦ inl (ap (λ r. r.1.sent) same)
    | inr (c, gates, same) ↦ elim (dispatch-Effect sha256 e settings c s below) [
      | inl quiet ↦ inl (ap (λ r. r.1.sent) same ∙ quiet.sent)
      | inr (inl (dry, other, loud)) ↦ absurd (let f = faked dry in cc)
      | inr (inr (live, loud)) ↦ inr (c, gates, live, ap (λ r. r.1.sent) same ∙ loud.sent)
    ]
  ]

  -- The dry run does not ask which transport was injected. With another one than the fake, in a
  -- session whose order keys are below the next one, and for a candidate that passes all nine
  -- gates, whose quantity is positive and whose price is not negative, the call puts the
  -- candidate's request to the broker although the settings ask for a dry run.
  pub dry_run-sends :
      (t : RealTransport) (c : OrderCandidate)
      → settings.real_order_dry_run ≡ true
      → e.transport ≡ real t
      → Open settings i c s
      → leb_ℤ c.quantity (pos 0) ≡ false
      → ltb_ℤ (request_price c.limit_price) (pos 0) ≡ false
      → (execute sha256 e settings i s).1.sent ≡ s.sent ++ request_of c (codes "DRY_RUN") ∷ []
  dry_run-sends t c dry injected gates quantity price =
      ap (λ r. r.1.sent)
        (Open-dispatch sha256 e settings i s c gates ∙ dispatch-dry sha256 e settings c s below dry)
      ∙ ran.sent
    where
      Placed : Session → Type 0
      Placed =
          Settled s.real_orders s.next_real_order c.id below
            (s.sent ++ request_of c (codes "DRY_RUN") ∷ [])

      asked :
          (P : Session → Type 0)
          → Triple P
              (λ r u. (r ≡ request_of c (codes "DRY_RUN")) × P u)
              Placed
              (order_request c (codes "DRY_RUN"))
      asked P = record {
        at = λ u h.
            subst (Post (λ r u. (r ≡ request_of c (codes "DRY_RUN")) × P u) Placed)
              (sym (order_request-go c (codes "DRY_RUN") u quantity price)) (refl, h);
      }

      ran : Placed (execute_dry_run sha256 e c s).1
      ran =
          Triple-ends (execute_dry_run sha256 e c) s
            (execute_dry_run-Sent s.real_orders s.next_real_order c.id below s.sent sha256 e t c
              injected refl Placed (λ u h. h)
              (asked (Before s.real_orders s.next_real_order c.id below s.sent)))
            (record { orders = refl; next = refl; sent = refl })
