-- ===== src/Approval/Aside.antt =====
-- The steps of the workflow that leave the candidates alone.
use stock_ai_platform.Base.{ℕ, Option, List, Text}
use stock_ai_platform.Store.{
  EventType, Json, OrderCandidate, Settings, Error, approval_service_error, paper_trading_disabled,
  or_raise, gets, catch,
}
use stock_ai_platform.Store.Yields.{Yields, Any, Yields-catch, Yields-bind, Yields-raise}
use stock_ai_platform.Store.Triple.{Triple, Triple-kept}
use stock_ai_platform.Candidate
use stock_ai_platform.Audit
use stock_ai_platform.Order
use stock_ai_platform.Broker
use stock_ai_platform.Risk.{evaluate}
use stock_ai_platform.Approval.Shared.{
  event_entry, ApprovalActor, record_event, assert_kill_switch_off,
}
use stock_ai_platform.Approval.Decide.{load_candidate, as_denied}
use stock_ai_platform.Approval.Keeps.{
  read-Keeps, or_raise-Keeps, event-Keeps, kill_switch-Keeps, submit_order-Keeps,
}
use stock_ai_platform.Approval.Settled.{Dropped}

-- A condition on the candidates is not touched by orders and audit rows.
module _ (F : List OrderCandidate → Type 0) where
  entry : (a : Audit.NewEntry) → Yields (λ s. F s.candidates) Any (Audit.add_entry a)
  unfolding Audit.add_entry
  entry a = record { at = λ s h. (h, tt) }

  pub event :
      (c : OrderCandidate) (e : EventType) (actor : ApprovalActor) (reason : Option Text)
      (details : Option (List (Text × Json)))
      → Triple
          (λ s. F s.candidates)
          (λ _ s. F s.candidates)
          Dropped
          (record_event c e actor reason details)
  event c e actor reason details = Triple-kept (record_event c e actor reason details) (
      event-Keeps (λ s. F s.candidates) c e actor reason details
        (entry (event_entry c e actor reason details)))

  pub switch :
      (settings : Settings) (c : OrderCandidate) (actor : ApprovalActor)
      → Triple
          (λ s. F s.candidates)
          (λ _ s. F s.candidates)
          Dropped
          (assert_kill_switch_off settings c actor)
  switch settings c actor =
      Triple-kept (assert_kill_switch_off settings c actor)
        (kill_switch-Keeps (λ s. F s.candidates) settings c actor entry)

  order : (a : Order.NewOrder) → Yields (λ s. F s.candidates) Any (Order.add_order a)
  unfolding Order.add_order
  order a = record { at = λ s h. (h, tt) }

  as_denied-kept : (e : Error) → Yields (λ s. F s.candidates) Any (as_denied e)
  as_denied-kept paper_trading_disabled = Yields-raise Any _
  as_denied-kept _ = Yields-raise Any _

  pub submitted :
      (settings : Settings) (r : Broker.OrderRequest)
      → Triple
          (λ s. F s.candidates)
          (λ _ s. F s.candidates)
          Dropped
          (catch (Broker.submit_order settings r) as_denied)
  submitted settings r = Triple-kept (catch (Broker.submit_order settings r) as_denied) (
      Yields-catch Any (Broker.submit_order settings r) as_denied
        (submit_order-Keeps (λ s. F s.candidates) order settings r) as_denied-kept)

  pub loaded :
      (i : ℕ) → Triple (λ s. F s.candidates) (λ _ s. F s.candidates) Dropped (load_candidate i)
  unfolding load_candidate Candidate.get_by_id
  loaded i = Triple-kept (load_candidate i) (
      Yields-bind Any Any (Candidate.get_by_id i) (λ found. or_raise found approval_service_error)
        (read-Keeps (λ s. F s.candidates) _)
        λ found _. or_raise-Keeps (λ s. F s.candidates) found approval_service_error)

  pub checked :
      (settings : Settings) (c : OrderCandidate) (now : ℕ)
      → Triple
          (λ s. F s.candidates)
          (λ _ s. F s.candidates)
          Dropped
          (gets (λ s. evaluate settings s c now))
  checked settings c now = record { at = λ s h. h }
