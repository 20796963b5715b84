-- ===== src/Approval/Decide.antt =====
-- `ApprovalService.approve`, `reject` and `expire`.
use stock_ai_platform.Base.{
  ℕ, not, none, some, List, [], ◌∷◌, ◌++◌, Text, codes, decimal, if◌then◌else◌, get_or,
}
use stock_ai_platform.Store.{
  Side, buy, sell, OrderType, market, limit, CandidateStatus, pending_approval, same_status,
  EventType, Json, text, number, flag, OrderCandidate, RiskCheckResult, Settings, Error,
  invalid_candidate_transition, paper_trading_disabled, simulation_broker_error,
  approval_service_error, approval_denied, Action, Done, pure, raise, gets, or_raise, raise_if,
  catch, ◌>>=◌, ◌>>◌,
}
use stock_ai_platform.Candidate
use stock_ai_platform.Candidate.{NewCandidate}
use stock_ai_platform.Broker
use stock_ai_platform.Risk.{evaluate}
use stock_ai_platform.Approval.Shared.{
  ApprovalActor, format_violations, rule_ids, record_event, assert_workflow_active,
  assert_kill_switch_off,
}

pub record ApproveResult : Type 0 where
  pub candidate : OrderCandidate
  pub virtual_order_id : ℕ
  pub risk_result : RiskCheckResult

-- The candidate, if it is there.
unfoldable pub load_candidate : ℕ → Action OrderCandidate
unfolding Candidate.get_by_id
load_candidate i = do found ← Candidate.get_by_id i; or_raise found approval_service_error

abbrev pub recheck_details : RiskCheckResult → List (Text × Json)
recheck_details risk =
    (codes "policy_version", text risk.policy_version)
    ∷ (codes "violation_rule_ids", rule_ids risk)
    ∷ (codes "phase", text (codes "approve_recheck"))
    ∷ []

abbrev pub approved_details : RiskCheckResult → List (Text × Json)
approved_details risk = (codes "policy_version", text risk.policy_version) ∷ []

abbrev pub executed_details : Broker.SubmitResult → List (Text × Json)
executed_details o =
    (codes "virtual_order_id", number o.order.id) ∷ (codes "deduplicated", flag o.deduplicated) ∷ []

-- The failed re-check of `approve`: the candidate is rejected, recorded, and the call denied.
unfoldable pub deny_recheck : OrderCandidate → RiskCheckResult → ApprovalActor → Action Done
unfolding Candidate.attach_risk_result Candidate.update_status record_event format_violations
deny_recheck c risk actor = do
  c1 ← Candidate.attach_risk_result c risk
  c2 ←
      Candidate.update_status c1 CandidateStatus.rejected (some (format_violations risk))
        actor.user_id
  record_event c2 EventType.risk_rejected actor (some (format_violations risk))
      (some (recheck_details risk))
  raise approval_denied

abbrev pub side_text : Side → Text
side_text buy = codes "BUY"
side_text sell = codes "SELL"

abbrev pub order_type_text : OrderType → Text
order_type_text market = codes "MARKET"
order_type_text limit = codes "LIMIT"

-- `except (PaperTradingDisabledError, SimulationBrokerError)`; any other error goes on.
abbrev pub as_denied : Error → Action Broker.SubmitResult
as_denied paper_trading_disabled = raise approval_denied
as_denied simulation_broker_error = raise approval_denied
as_denied e = raise e

-- The order that an approved candidate is forwarded as.
abbrev pub order_request : OrderCandidate → Broker.OrderRequest
order_request c = record {
  account_id = c.account_id;
  symbol = c.symbol;
  side = side_text c.side;
  quantity = c.quantity;
  order_type = order_type_text c.order_type;
  limit_price = c.limit_price;
  idempotency_key = some (codes "approval-" ++ decimal c.id);
  note = some (codes "approved candidate id=" ++ decimal c.id);
}

-- From the approval on: the broker, the link, the last transition, the audit row.
unfoldable pub forward_order :
    Settings → OrderCandidate → RiskCheckResult → ApprovalActor → Action ApproveResult
unfolding decimal Broker.submit_order Candidate.attach_virtual_order Candidate.update_status
    record_event
forward_order settings c risk actor = do
  submitted ← catch (Broker.submit_order settings (order_request c)) as_denied
  c1 ← Candidate.attach_virtual_order c submitted.order.id
  c2 ← Candidate.update_status c1 CandidateStatus.executed_paper none none
  record_event c2 EventType.executed_paper actor none (some (executed_details submitted))
  pure (record { candidate = c2; virtual_order_id = submitted.order.id; risk_result = risk })

-- The part of `approve` after a passed re-check.
unfoldable pub accept :
    Settings → OrderCandidate → RiskCheckResult → ApprovalActor → Action ApproveResult
unfolding Candidate.update_status record_event forward_order
accept settings c risk actor = do
  c1 ← Candidate.update_status c CandidateStatus.approved none actor.user_id
  record_event c1 EventType.approved actor none (some (approved_details risk))
  forward_order settings c1 risk actor

-- The part of `approve` on a candidate found pending.
unfoldable pub decide : Settings → OrderCandidate → ApprovalActor → ℕ → Action ApproveResult
unfolding assert_kill_switch_off evaluate deny_recheck accept
decide settings c actor now = do
  assert_kill_switch_off settings c actor
  risk ← gets (λ s. evaluate settings s c now)
  if risk.passed then pure tt else deny_recheck c risk actor
  accept settings c risk actor

unfoldable pub approve : Settings → ℕ → ApprovalActor → ℕ → Action ApproveResult
unfolding load_candidate decide
approve settings candidate_id actor now = do
  assert_workflow_active settings
  c ← load_candidate candidate_id
  raise_if (not (same_status c.status pending_approval)) approval_denied
  decide settings c actor now

unfoldable pub reject : Settings → ℕ → ApprovalActor → Text → Action OrderCandidate
unfolding load_candidate assert_kill_switch_off Candidate.reject record_event
reject settings candidate_id actor reason = do
  assert_workflow_active settings
  c ← load_candidate candidate_id
  raise_if (not (same_status c.status pending_approval)) approval_denied
  assert_kill_switch_off settings c actor
  c1 ← Candidate.reject c (get_or actor.user_id 0) reason
  record_event c1 EventType.rejected actor (Candidate.capped reason) none
  pure c1

-- `except InvalidOrderCandidateTransition`; any other error goes on.
abbrev pub transition_denied : Error → Action OrderCandidate
transition_denied invalid_candidate_transition = raise approval_denied
transition_denied e = raise e

-- Neither gate is asked: an expiry must go through whatever the settings are.
unfoldable pub expire : ℕ → ApprovalActor → Action OrderCandidate
unfolding load_candidate Candidate.expire record_event
expire candidate_id actor = do
  c ← load_candidate candidate_id
  c1 ← catch (Candidate.expire c) transition_denied
  record_event c1 EventType.expired actor (some (codes "ttl_expired")) none
  pure c1
