-- ===== src/Approval/Trail.antt =====
-- The frame of the shared steps of the approval workflow and of `create_candidate`.
use stock_ai_platform.Base.{ℕ, not, Option, none, some, List, Text}
use stock_ai_platform.Store.{
  CandidateStatus, risk_checking, pending_approval, EventType, Json, OrderCandidate,
  RiskCheckResult, Session, Settings, trading_safety_disabled, kill_switch_blocked, pure, gets,
}
use stock_ai_platform.Store.Yields.{Yields, Any, Yields-pure, Yields-if, Yields-guard, Yields-bind}
use stock_ai_platform.Candidate
use stock_ai_platform.Risk.{evaluate}
use stock_ai_platform.Approval.Shared.{
  event_entry, ApprovalActor, record_event, assert_kill_switch_off, format_violations,
}
use stock_ai_platform.Approval.Create.{
  CreateRequest, new_candidate, verdict_details, created_details, checked_details, route_verdict,
  create_candidate,
}
use stock_ai_platform.Approval.Keeps.{event-Keeps, kill_switch-Keeps}
use stock_ai_platform.Approval.Frame.{
  Framed, read-Framed, add_entry-Framed, update_status-Framed, attach_risk_result-Framed,
  create-Framed,
}

module _ (s0 : Session) where
  pub event-Framed :
      (c : OrderCandidate) (e : EventType) (actor : ApprovalActor) (reason : Option Text)
      (details : Option (List (Text × Json)))
      → Yields (Framed s0) Any (record_event c e actor reason details)
  event-Framed c e actor reason details =
      event-Keeps (Framed s0) c e actor reason details
        (add_entry-Framed s0 (event_entry c e actor reason details))

  pub kill_switch-Framed :
      (settings : Settings) (c : OrderCandidate) (actor : ApprovalActor)
      → Yields (Framed s0) Any (assert_kill_switch_off settings c actor)
  kill_switch-Framed settings c actor =
      kill_switch-Keeps (Framed s0) settings c actor (add_entry-Framed s0)

  route_verdict-Framed :
      (c : OrderCandidate) (r : RiskCheckResult) (actor : ApprovalActor)
      → Yields (Framed s0) Any (route_verdict c r actor)
  unfolding route_verdict
  route_verdict-Framed c r actor =
      Yields-if Any r.passed (Candidate.update_status c pending_approval none none) _
        (λ _. update_status-Framed s0 c pending_approval none none)
        λ _.
          Yields-bind Any Any
            (Candidate.update_status c CandidateStatus.risk_rejected (some (format_violations r))
              none)
            _
            (update_status-Framed s0 c CandidateStatus.risk_rejected (some (format_violations r))
              none)
            λ c' _.
              Yields-bind Any Any
                (record_event c' EventType.risk_rejected actor (some (format_violations r))
                  (some (verdict_details r)))
                (λ _. pure c')
                (event-Framed c' EventType.risk_rejected actor (some (format_violations r))
                  (some (verdict_details r)))
                λ _ _. Yields-pure Any c' tt

  pub create_candidate-Framed :
      (settings : Settings) (r : CreateRequest) (actor : ApprovalActor) (now : ℕ)
      → Yields (Framed s0) Any (create_candidate settings r actor now)
  unfolding create_candidate
  create_candidate-Framed settings r actor now =
      Yields-guard Any (not settings.trading_safety_enabled) trading_safety_disabled _ λ _.
        Yields-guard Any settings.kill_switch_enabled kill_switch_blocked _ λ _.
          Yields-bind Any Any (Candidate.create (new_candidate r now)) _
            (create-Framed s0 (new_candidate r now))
            λ c _.
              Yields-bind Any Any
                (record_event c EventType.created actor none (some (created_details r c))) _
                (event-Framed c EventType.created actor none (some (created_details r c)))
                λ _ _.
                  Yields-bind Any Any (Candidate.update_status c risk_checking none none) _
                    (update_status-Framed s0 c risk_checking none none)
                    λ c1 _.
                      Yields-bind Any Any (gets (λ s. evaluate settings s c1 now)) _
                        (read-Framed s0 (λ s. evaluate settings s c1 now))
                        λ risk _.
                          Yields-bind Any Any (Candidate.attach_risk_result c1 risk) _
                            (attach_risk_result-Framed s0 c1 risk)
                            λ c2 _.
                              Yields-bind Any Any
                                (record_event c2 EventType.risk_checked actor none
                                  (some (checked_details risk)))
                                _
                                (event-Framed c2 EventType.risk_checked actor none
                                  (some (checked_details risk)))
                                λ _ _.
                                  Yields-bind Any Any (route_verdict c2 risk actor) _
                                    (route_verdict-Framed c2 risk actor)
                                    λ c3 _.
                                      Yields-pure Any
                                        (record {
                                          candidate = c3;
                                          risk_result = risk;
                                          risk_passed = risk.passed;
                                        })
                                        tt
