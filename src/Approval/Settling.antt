-- ===== src/Approval/Settling.antt =====
-- `create_candidate` goes from settled candidates to settled candidates where it returns.
use stock_ai_platform.Base.{ℕ, refl, not, Option, none, some, List, Text, All}
use stock_ai_platform.Store.{
  CandidateStatus, risk_checking, pending_approval, EventType, Json, OrderCandidate,
  RiskCheckResult, Session, Settings, trading_safety_disabled, kill_switch_blocked, pure, gets,
  ◌>>=◌, ◌>>◌,
}
use stock_ai_platform.Store.Triple.{Triple, Triple-pure, Triple-if, Triple-guard, Triple-bind}
use stock_ai_platform.Candidate
use stock_ai_platform.Risk.{evaluate}
use stock_ai_platform.Approval.Shared.{ApprovalActor, record_event, format_violations}
use stock_ai_platform.Approval.Create.{
  CreateRequest, CreateCandidateResult, new_candidate, verdict_details, created_details,
  checked_details, route_verdict, create_candidate,
}
use stock_ai_platform.Approval.Aside.{event, checked}
use stock_ai_platform.Approval.Settled.{
  Rests, RestsBut, Settled, SettledBut, Dropped, update_status-But, update_status-Settled,
  attach_risk_result-But, create-But,
}

module _ (n : ℕ) where
  pub event-SettledBut :
      (c : OrderCandidate) (e : EventType) (actor : ApprovalActor) (reason : Option Text)
      (details : Option (List (Text × Json)))
      → Triple (SettledBut n) (λ _. SettledBut n) Dropped (record_event c e actor reason details)
  event-SettledBut = event (All (RestsBut n))

pub event-Settled :
    (c : OrderCandidate) (e : EventType) (actor : ApprovalActor) (reason : Option Text)
    (details : Option (List (Text × Json)))
    → Triple Settled (λ _. Settled) Dropped (record_event c e actor reason details)
event-Settled = event (All Rests)

-- What returns one value and keeps the condition.
pub returning : {A : Type 0} (a : A) → Triple Settled (λ _. Settled) Dropped (pure a)
returning a = Triple-pure (λ _. Settled) a λ s h. h

route_verdict-Settled :
    (c : OrderCandidate) (r : RiskCheckResult) (actor : ApprovalActor)
    → Triple (SettledBut c.id) (λ _. Settled) Dropped (route_verdict c r actor)
unfolding route_verdict
route_verdict-Settled c r actor =
    let settled : OrderCandidate → Session → Type 0 = λ _. Settled in
    Triple-if settled r.passed (Candidate.update_status c pending_approval none none) _
      (λ _. update_status-Settled c pending_approval none none refl)
      λ _.
        Triple-bind settled settled
          (Candidate.update_status c CandidateStatus.risk_rejected (some (format_violations r))
            none)
          _
          (update_status-Settled c CandidateStatus.risk_rejected (some (format_violations r)) none
            refl)
          λ c'.
            Triple-bind (λ _. Settled) settled
              (record_event c' EventType.risk_rejected actor (some (format_violations r))
                (some (verdict_details r)))
              (λ _. pure c')
              (event-Settled c' EventType.risk_rejected actor (some (format_violations r))
                (some (verdict_details r)))
              λ _. returning c'

-- From RISK_CHECKING on.
checking-Settled :
    (settings : Settings) (r : CreateRequest) (actor : ApprovalActor) (now : ℕ) (c : OrderCandidate)
    → Triple {A = CreateCandidateResult}
        (SettledBut c.id)
        (λ _. Settled)
        Dropped
        (Candidate.update_status c risk_checking none none >>= λ c1.
          gets (λ s. evaluate settings s c1 now) >>= λ risk.
          Candidate.attach_risk_result c1 risk >>= λ c2.
          record_event c2 EventType.risk_checked actor none (some (checked_details risk))
          >> (route_verdict c2 risk actor >>= λ c3.
              pure (record { candidate = c3; risk_result = risk; risk_passed = risk.passed })))
checking-Settled settings r actor now c =
    Triple-bind (λ c1. SettledBut c1.id) (λ _. Settled)
      (Candidate.update_status c risk_checking none none) _
      (update_status-But c risk_checking none none)
      λ c1.
        Triple-bind (λ _. SettledBut c1.id) (λ _. Settled) (gets (λ s. evaluate settings s c1 now))
          _ (checked (All (RestsBut c1.id)) settings c1 now)
          λ risk.
            Triple-bind (λ c2. SettledBut c2.id) (λ _. Settled)
              (Candidate.attach_risk_result c1 risk) _ (attach_risk_result-But c1 risk)
              λ c2.
                Triple-bind (λ _. SettledBut c2.id) (λ _. Settled)
                  (record_event c2 EventType.risk_checked actor none (some (checked_details risk)))
                  _
                  (event-SettledBut c2.id c2 EventType.risk_checked actor none
                    (some (checked_details risk)))
                  λ _.
                    Triple-bind (λ _. Settled) (λ _. Settled) (route_verdict c2 risk actor) _
                      (route_verdict-Settled c2 risk actor)
                      λ c3.
                        returning {A = CreateCandidateResult}
                          (record { candidate = c3; risk_result = risk; risk_passed = risk.passed })

pub create_candidate-Settled :
    (settings : Settings) (r : CreateRequest) (actor : ApprovalActor) (now : ℕ)
    → Triple Settled (λ _. Settled) Dropped (create_candidate settings r actor now)
unfolding create_candidate
create_candidate-Settled settings r actor now =
    Triple-guard (λ _. Settled) (not settings.trading_safety_enabled) trading_safety_disabled _
      (λ _ _. tt)
      (Triple-guard (λ _. Settled) settings.kill_switch_enabled kill_switch_blocked _ (λ _ _. tt)
        (Triple-bind (λ c. SettledBut c.id) (λ _. Settled) (Candidate.create (new_candidate r now))
          _ (create-But (new_candidate r now))
          λ c.
            Triple-bind (λ _. SettledBut c.id) (λ _. Settled)
              (record_event c EventType.created actor none (some (created_details r c))) _
              (event-SettledBut c.id c EventType.created actor none (some (created_details r c)))
              λ _. checking-Settled settings r actor now c))
