-- ===== src/Approval/Requests.antt =====
-- The frame of `approve`, `reject` and `expire`, and of any requests one after the other.
use stock_ai_platform.Base.{ℕ, not, none, some, List, [], ◌∷◌, Text, codes, if◌then◌else◌, get_or}
use stock_ai_platform.Store.{
  CandidateStatus, pending_approval, same_status, EventType, OrderCandidate, RiskCheckResult,
  Session, Settings, Error, approval_service_error, trading_safety_disabled, approval_denied,
  paper_trading_disabled, invalid_candidate_transition, pure, raise, or_raise, gets, catch,
}
use stock_ai_platform.Store.Yields.{
  Yields, Any, Yields-pure, Yields-raise, Yields-if, Yields-guard, Yields-bind, Yields-catch,
}
use stock_ai_platform.Candidate
use stock_ai_platform.Broker
use stock_ai_platform.Risk.{evaluate}
use stock_ai_platform.Approval.Shared.{
  ApprovalActor, record_event, assert_kill_switch_off, format_violations,
}
use stock_ai_platform.Approval.Create.{CreateRequest, create_candidate}
use stock_ai_platform.Approval.Decide.{
  load_candidate, recheck_details, decide, deny_recheck, as_denied, order_request, approved_details,
  executed_details, forward_order, accept, approve, reject, expire, transition_denied,
}
use stock_ai_platform.Approval.Frame.{
  Framed, Framed-refl, read-Framed, or_raise-Framed, update_status-Framed,
  attach_risk_result-Framed, attach_virtual_order-Framed, submit_order-Framed,
}
use stock_ai_platform.Approval.Trail.{event-Framed, kill_switch-Framed, create_candidate-Framed}

module _ (s0 : Session) where
  load-Framed : (i : ℕ) → Yields (Framed s0) Any (load_candidate i)
  unfolding load_candidate Candidate.get_by_id
  load-Framed i =
      Yields-bind Any Any (Candidate.get_by_id i) (λ found. or_raise found approval_service_error)
        (read-Framed s0 _) λ found _. or_raise-Framed s0 found approval_service_error

  deny_recheck-Framed :
      (c : OrderCandidate) (risk : RiskCheckResult) (actor : ApprovalActor)
      → Yields (Framed s0) Any (deny_recheck c risk actor)
  unfolding deny_recheck
  deny_recheck-Framed c risk actor =
      Yields-bind Any Any (Candidate.attach_risk_result c risk) _
        (attach_risk_result-Framed s0 c risk)
        λ c1 _.
          Yields-bind Any Any
            (Candidate.update_status c1 CandidateStatus.rejected (some (format_violations risk))
              actor.user_id)
            _
            (update_status-Framed s0 c1 CandidateStatus.rejected (some (format_violations risk))
              actor.user_id)
            λ c2 _.
              Yields-bind Any Any
                (record_event c2 EventType.risk_rejected actor (some (format_violations risk))
                  (some (recheck_details risk)))
                (λ _. raise approval_denied)
                (event-Framed s0 c2 EventType.risk_rejected actor (some (format_violations risk))
                  (some (recheck_details risk)))
                λ _ _. Yields-raise Any approval_denied

  as_denied-Framed : (e : Error) → Yields (Framed s0) Any (as_denied e)
  as_denied-Framed paper_trading_disabled = Yields-raise Any _
  as_denied-Framed _ = Yields-raise Any _

  forward_order-Framed :
      (settings : Settings) (c : OrderCandidate) (risk : RiskCheckResult) (actor : ApprovalActor)
      → Yields (Framed s0) Any (forward_order settings c risk actor)
  unfolding forward_order
  forward_order-Framed settings c risk actor =
      Yields-bind Any Any (catch (Broker.submit_order settings (order_request c)) as_denied) _
        (Yields-catch Any (Broker.submit_order settings (order_request c)) as_denied
          (submit_order-Framed s0 settings (order_request c)) as_denied-Framed)
        λ o _.
          Yields-bind Any Any (Candidate.attach_virtual_order c o.order.id) _
            (attach_virtual_order-Framed s0 c o.order.id)
            λ c1 _.
              Yields-bind Any Any
                (Candidate.update_status c1 CandidateStatus.executed_paper none none) _
                (update_status-Framed s0 c1 CandidateStatus.executed_paper none none)
                λ c2 _.
                  Yields-bind Any Any
                    (record_event c2 EventType.executed_paper actor none
                      (some (executed_details o)))
                    _
                    (event-Framed s0 c2 EventType.executed_paper actor none
                      (some (executed_details o)))
                    λ _ _.
                      Yields-pure Any
                        (record {
                          candidate = c2;
                          virtual_order_id = o.order.id;
                          risk_result = risk;
                        })
                        tt

  accept-Framed :
      (settings : Settings) (c : OrderCandidate) (risk : RiskCheckResult) (actor : ApprovalActor)
      → Yields (Framed s0) Any (accept settings c risk actor)
  unfolding accept
  accept-Framed settings c risk actor =
      Yields-bind Any Any (Candidate.update_status c CandidateStatus.approved none actor.user_id) _
        (update_status-Framed s0 c CandidateStatus.approved none actor.user_id)
        λ c1 _.
          Yields-bind Any Any
            (record_event c1 EventType.approved actor none (some (approved_details risk)))
            (λ _. forward_order settings c1 risk actor)
            (event-Framed s0 c1 EventType.approved actor none (some (approved_details risk)))
            λ _ _. forward_order-Framed settings c1 risk actor

  recheck-Framed :
      (risk : RiskCheckResult) (c : OrderCandidate) (actor : ApprovalActor)
      → Yields (Framed s0) Any (if risk.passed then pure tt else deny_recheck c risk actor)
  recheck-Framed risk c actor =
      Yields-if Any risk.passed (pure tt) (deny_recheck c risk actor) (λ _. Yields-pure Any tt tt)
        λ _. deny_recheck-Framed c risk actor

  decide-Framed :
      (settings : Settings) (c : OrderCandidate) (actor : ApprovalActor) (now : ℕ)
      → Yields (Framed s0) Any (decide settings c actor now)
  unfolding decide
  decide-Framed settings c actor now =
      Yields-bind Any Any (assert_kill_switch_off settings c actor) _
        (kill_switch-Framed s0 settings c actor)
        λ _ _.
          Yields-bind Any Any (gets (λ s. evaluate settings s c now)) _
            (read-Framed s0 (λ s. evaluate settings s c now))
            λ risk _.
              Yields-bind Any Any (if risk.passed then pure tt else deny_recheck c risk actor)
                (λ _. accept settings c risk actor) (recheck-Framed risk c actor)
                λ _ _. accept-Framed settings c risk actor

  approve-Framed :
      (settings : Settings) (i : ℕ) (actor : ApprovalActor) (now : ℕ)
      → Yields (Framed s0) Any (approve settings i actor now)
  unfolding approve
  approve-Framed settings i actor now =
      Yields-guard Any (not settings.trading_safety_enabled) trading_safety_disabled _ λ _.
        Yields-bind Any Any (load_candidate i) _ (load-Framed i) λ c _.
          Yields-guard Any (not (same_status c.status pending_approval)) approval_denied
            (decide settings c actor now) λ _. decide-Framed settings c actor now

  reject-Framed :
      (settings : Settings) (i : ℕ) (actor : ApprovalActor) (reason : Text)
      → Yields (Framed s0) Any (reject settings i actor reason)
  unfolding reject Candidate.reject
  reject-Framed settings i actor reason =
      Yields-guard Any (not settings.trading_safety_enabled) trading_safety_disabled _ λ _.
        Yields-bind Any Any (load_candidate i) _ (load-Framed i) λ c _.
          Yields-guard Any (not (same_status c.status pending_approval)) approval_denied _ λ _.
            Yields-bind Any Any (assert_kill_switch_off settings c actor) _
              (kill_switch-Framed s0 settings c actor)
              λ _ _.
                Yields-bind Any Any (Candidate.reject c (get_or actor.user_id 0) reason) _
                  (update_status-Framed s0 c CandidateStatus.rejected (Candidate.capped reason)
                    (some (get_or actor.user_id 0)))
                  λ c1 _.
                    Yields-bind Any Any
                      (record_event c1 EventType.rejected actor (Candidate.capped reason) none)
                      (λ _. pure c1)
                      (event-Framed s0 c1 EventType.rejected actor (Candidate.capped reason) none)
                      λ _ _. Yields-pure Any c1 tt

  transition_denied-Framed : (e : Error) → Yields (Framed s0) Any (transition_denied e)
  transition_denied-Framed invalid_candidate_transition = Yields-raise Any _
  transition_denied-Framed _ = Yields-raise Any _

  expire-Framed : (i : ℕ) (actor : ApprovalActor) → Yields (Framed s0) Any (expire i actor)
  unfolding expire Candidate.expire
  expire-Framed i actor = Yields-bind Any Any (load_candidate i) _ (load-Framed i) λ c _.
      Yields-bind Any Any (catch (Candidate.expire c) transition_denied) _
        (Yields-catch Any (Candidate.expire c) transition_denied
          (update_status-Framed s0 c CandidateStatus.expired (some (codes "ttl_expired")) none)
          transition_denied-Framed)
        λ c1 _.
          Yields-bind Any Any
            (record_event c1 EventType.expired actor (some (codes "ttl_expired")) none)
            (λ _. pure c1)
            (event-Framed s0 c1 EventType.expired actor (some (codes "ttl_expired")) none)
            λ _ _. Yields-pure Any c1 tt

-- One request to the workflow.
pub data Request : Type 0 where
  creation : Settings → CreateRequest → ApprovalActor → ℕ → Request
  approval : Settings → ℕ → ApprovalActor → ℕ → Request
  rejection : Settings → ℕ → ApprovalActor → Text → Request
  expiry : ℕ → ApprovalActor → Request

-- The session after a request, whether it returned or raised.
unfoldable pub after : Request → Session → Session
after (creation settings r actor now) s = (create_candidate settings r actor now s).1
after (approval settings i actor now) s = (approve settings i actor now s).1
after (rejection settings i actor reason) s = (reject settings i actor reason s).1
after (expiry i actor) s = (expire i actor s).1

unfoldable pub after_all : List Request → Session → Session
unfolding after
after_all [] s = s
after_all (q ∷ qs) s = after_all qs (after q s)

after-Framed : (s0 : Session) (q : Request) (s : Session) → Framed s0 s → Framed s0 (after q s)
unfolding after
after-Framed s0 (creation settings r actor now) s h =
    ((create_candidate-Framed s0 settings r actor now).at s h).0
after-Framed s0 (approval settings i actor now) s h =
    ((approve-Framed s0 settings i actor now).at s h).0
after-Framed s0 (rejection settings i actor reason) s h =
    ((reject-Framed s0 settings i actor reason).at s h).0
after-Framed s0 (expiry i actor) s h = ((expire-Framed s0 i actor).at s h).0

after_all-from :
    (s0 : Session) (qs : List Request) (s : Session) → Framed s0 s → Framed s0 (after_all qs s)
unfolding after_all
after_all-from s0 [] s h = h
after_all-from s0 (q ∷ qs) s h = after_all-from s0 qs (after q s) (after-Framed s0 q s h)

-- After any requests, granted or refused, the accounts, positions, fills and snapshots are as they
-- were, and the audit trail is the old one with new rows at its end.
pub after_all-Framed : (qs : List Request) (s : Session) → Framed s (after_all qs s)
after_all-Framed qs s = after_all-from s qs s (Framed-refl s)
