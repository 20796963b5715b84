-- ===== src/Approval/Keeps.antt =====
-- Conditions on the session that the adding of an order, or of an audit row, does not touch: then
-- a submission, or the recording of an event, does not touch them either.
use stock_ai_platform.Base.{
  is_some, false, ◌&&◌, ℕ, not, Option, none, some, List, Text, codes, pos, leb_ℤ, strip,
}
use stock_ai_platform.Base.Decimal.{Decimal, zero_dec, at_most}
use stock_ai_platform.Store.{
  parse_side, parse_order_type, OrderType, market, limit, VirtualOrder, OrderCandidate, EventType,
  Json, Session, Settings, Error, audit_validation, value_error, paper_trading_disabled,
  simulation_broker_error, kill_switch_blocked, pure, raise, or_raise, gets,
}
use stock_ai_platform.Store.Yields.{
  Yields, Any, Yields-pure, Yields-raise, Yields-if, Yields-guard, Yields-bind,
}
use stock_ai_platform.Audit
use stock_ai_platform.Order
use stock_ai_platform.Account
use stock_ai_platform.Broker
use stock_ai_platform.Approval.Shared.{
  ApprovalActor, event_entry, record_event, assert_kill_switch_off,
}

module _ (P : Session → Type 0) where
  pub read-Keeps : {A : Type 0} (f : Session → A) → Yields P Any (gets f)
  read-Keeps f = record { at = λ s h. (h, tt) }

  pub or_raise-Keeps : {A : Type 0} (o : Option A) (e : Error) → Yields P Any (or_raise o e)
  or_raise-Keeps none e = Yields-raise Any e
  or_raise-Keeps (some a) e = Yields-pure Any a tt

  pub append-Keeps :
      (a : Audit.NewEntry) → Yields P Any (Audit.add_entry a) → Yields P Any (Audit.append a)
  unfolding Audit.append
  append-Keeps a add = Yields-guard Any (Audit.details_leak a.details) audit_validation _ λ _.
      Yields-guard Any (Audit.too_long a.ip_hash) audit_validation _ λ _.
        Yields-guard Any (Audit.too_long a.user_agent_hash) audit_validation (Audit.add_entry a)
          λ _. add

  pub event-Keeps :
      (c : OrderCandidate) (e : EventType) (actor : ApprovalActor) (reason : Option Text)
      (details : Option (List (Text × Json)))
      → Yields P Any (Audit.add_entry (event_entry c e actor reason details))
      → Yields P Any (record_event c e actor reason details)
  unfolding record_event
  event-Keeps c e actor reason details add =
      Yields-bind Any Any (Audit.append (event_entry c e actor reason details)) (λ _. pure tt)
        (append-Keeps (event_entry c e actor reason details) add) λ _ _. Yields-pure Any tt tt

  pub kill_switch-Keeps :
      (settings : Settings) (c : OrderCandidate) (actor : ApprovalActor)
      → ((a : Audit.NewEntry) → Yields P Any (Audit.add_entry a))
      → Yields P Any (assert_kill_switch_off settings c actor)
  unfolding assert_kill_switch_off
  kill_switch-Keeps settings c actor add =
      Yields-if Any settings.kill_switch_enabled _ (pure tt)
        (λ _.
          Yields-bind Any Any
            (record_event c EventType.kill_switch_blocked actor (some (codes "kill_switch_enabled"))
              none)
            (λ _. raise kill_switch_blocked)
            (event-Keeps c EventType.kill_switch_blocked actor (some (codes "kill_switch_enabled"))
              none
              (add (
                event_entry c EventType.kill_switch_blocked actor
                  (some (codes "kill_switch_enabled")) none)))
            λ _ _. Yields-raise Any kill_switch_blocked)
        (λ _. Yields-pure Any tt tt)

  module _ (add : (a : Order.NewOrder) → Yields P Any (Order.add_order a)) where
    order_create-Keeps : (a : Order.NewOrder) → Yields P Any (Order.create a)
    unfolding Order.create
    order_create-Keeps a = Yields-guard Any (leb_ℤ a.quantity (pos 0)) value_error _ λ _.
        Yields-guard Any (Order.is_limit a.order_type && not (is_some a.limit_price)) value_error _
          λ _.
            Yields-guard Any (not (Order.is_limit a.order_type) && is_some a.limit_price)
              value_error (Order.add_order a) λ _. add a

    broker_limit-Keeps :
        (t : OrderType) (p : Option Decimal) → Yields P Any (Broker.normalize_limit t p)
    unfolding Broker.normalize_limit
    broker_limit-Keeps market none = Yields-pure Any none tt
    broker_limit-Keeps market (some p) = Yields-raise Any simulation_broker_error
    broker_limit-Keeps limit none = Yields-raise Any simulation_broker_error
    broker_limit-Keeps limit (some p) =
        Yields-guard Any (at_most p zero_dec) simulation_broker_error (pure (some p))
          λ _. Yields-pure Any (some p) tt

    find_existing-Keeps :
        (account : ℕ) (key : Option Text) → Yields P Any (Broker.find_existing account key)
    unfolding Order.get_by_idempotency_key
    find_existing-Keeps account none = Yields-pure Any none tt
    find_existing-Keeps account (some key) = read-Keeps _

    reuse_or_create-Keeps :
        (o : Option VirtualOrder) (a : Order.NewOrder) → Yields P Any (Broker.reuse_or_create o a)
    reuse_or_create-Keeps (some o) a = Yields-pure Any _ tt
    reuse_or_create-Keeps none a =
        Yields-bind Any Any (Order.create a)
          (λ o. pure (record { order = o; deduplicated = false })) (order_create-Keeps a)
          λ o _. Yields-pure Any (record { order = o; deduplicated = false }) tt

    pub submit_order-Keeps :
        (settings : Settings) (r : Broker.OrderRequest)
        → Yields P Any (Broker.submit_order settings r)
    unfolding Broker.submit_order Account.get_by_id
    submit_order-Keeps settings r =
        Yields-guard Any (not settings.paper_trading_enabled) paper_trading_disabled _ λ _.
          Yields-bind Any Any (Account.get_by_id r.account_id) _ (read-Keeps _) λ found _.
            Yields-bind Any Any (or_raise found simulation_broker_error) _
              (or_raise-Keeps found simulation_broker_error)
              λ account _.
                Yields-guard Any (not account.paper_trading_enabled) paper_trading_disabled _ λ _.
                  Yields-bind Any Any (or_raise (parse_side r.side) simulation_broker_error) _
                    (or_raise-Keeps (parse_side r.side) simulation_broker_error)
                    λ side _.
                      Yields-bind Any Any
                        (or_raise (parse_order_type r.order_type) simulation_broker_error) _
                        (or_raise-Keeps (parse_order_type r.order_type) simulation_broker_error)
                        λ order_type _.
                          Yields-guard Any (leb_ℤ r.quantity (pos 0)) simulation_broker_error _ λ _.
                            Yields-guard Any (Account.is_blank (strip r.symbol))
                              simulation_broker_error _
                              λ _.
                                Yields-bind Any Any
                                  (Broker.normalize_limit order_type r.limit_price) _
                                  (broker_limit-Keeps order_type r.limit_price)
                                  λ limit_price _.
                                    Yields-bind Any Any
                                      (Broker.find_existing r.account_id r.idempotency_key) _
                                      (find_existing-Keeps r.account_id r.idempotency_key)
                                      λ existing _.
                                        reuse_or_create-Keeps existing
                                          (Broker.order_of r side order_type limit_price)
