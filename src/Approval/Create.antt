-- ===== src/Approval/Create.antt =====
-- `ApprovalService.create_candidate`: DRAFT, RISK_CHECKING, then the state that the verdict calls for.
use stock_ai_platform.Base.{
  ℕ, zero, suc, ◌+◌, Bool, Option, none, some, List, [], ◌∷◌, Text, codes, ℤ, if◌then◌else◌,
}
use stock_ai_platform.Base.Decimal.{Decimal}
use stock_ai_platform.Store.{
  CandidateStatus, risk_checking, pending_approval, EventType, Json, text, flag, OrderCandidate,
  RiskCheckResult, Settings, kill_switch_blocked, Action, pure, gets, raise_if, ◌>>=◌, ◌>>◌,
}
use stock_ai_platform.Candidate
use stock_ai_platform.Candidate.{NewCandidate}
use stock_ai_platform.Risk.{evaluate}
use stock_ai_platform.Approval.Shared.{
  ApprovalActor, default_ttl, format_violations, rule_ids, record_event, assert_workflow_active,
}

pub record CreateRequest : Type 0 where
  pub account_id : ℕ
  pub source : Text
  pub symbol : Text
  pub side : Text
  pub quantity : ℤ
  pub order_type : Text
  pub limit_price : Option Decimal
  pub estimated_amount : Decimal
  pub source_ref_id : Option ℕ
  pub ttl : Option ℕ

pub record CreateCandidateResult : Type 0 where
  pub candidate : OrderCandidate
  pub risk_result : RiskCheckResult
  pub risk_passed : Bool

-- `ttl or DEFAULT_TTL`: a ttl of zero counts as none.
abbrev pub ttl_or_default : Option ℕ → ℕ
ttl_or_default none = default_ttl
ttl_or_default (some zero) = default_ttl
ttl_or_default (some (suc n)) = suc n

abbrev pub new_candidate : CreateRequest → ℕ → NewCandidate
new_candidate r now = record {
  account_id = r.account_id;
  source = r.source;
  symbol = r.symbol;
  side = r.side;
  quantity = r.quantity;
  order_type = r.order_type;
  limit_price = r.limit_price;
  estimated_amount = r.estimated_amount;
  source_ref_id = r.source_ref_id;
  expires_at = some (now + ttl_or_default r.ttl);
  status = codes "DRAFT";
}

abbrev pub verdict_details : RiskCheckResult → List (Text × Json)
verdict_details r =
    (codes "policy_version", text r.policy_version) ∷ (codes "violation_rule_ids", rule_ids r) ∷ []

abbrev pub created_details : CreateRequest → OrderCandidate → List (Text × Json)
created_details r c = (codes "source", text r.source) ∷ (codes "symbol", text c.symbol) ∷ []

abbrev pub checked_details : RiskCheckResult → List (Text × Json)
checked_details r =
    (codes "policy_version", text r.policy_version)
    ∷ (codes "passed", flag r.passed)
    ∷ (codes "violation_rule_ids", rule_ids r)
    ∷ []

-- The last part of `create_candidate`: the state that the verdict calls for.
unfoldable pub route_verdict :
    OrderCandidate → RiskCheckResult → ApprovalActor → Action OrderCandidate
unfolding Candidate.update_status record_event format_violations
route_verdict c r actor =
    if r.passed then Candidate.update_status c pending_approval none none else (do
      c' ← Candidate.update_status c CandidateStatus.risk_rejected (some (format_violations r)) none
      record_event c' EventType.risk_rejected actor (some (format_violations r))
          (some (verdict_details r))
      pure c')

unfoldable pub create_candidate :
    Settings → CreateRequest → ApprovalActor → ℕ → Action CreateCandidateResult
unfolding Candidate.create record_event Candidate.update_status evaluate
    Candidate.attach_risk_result route_verdict
create_candidate settings r actor now = do
  assert_workflow_active settings
  raise_if settings.kill_switch_enabled kill_switch_blocked
  c ← Candidate.create (new_candidate r now)
  record_event c EventType.created actor none (some (created_details r c))
  c1 ← Candidate.update_status c risk_checking none none
  risk ← gets (λ s. evaluate settings s c1 now)
  c2 ← Candidate.attach_risk_result c1 risk
  record_event c2 EventType.risk_checked actor none (some (checked_details risk))
  c3 ← route_verdict c2 risk actor
  pure (record { candidate = c3; risk_result = risk; risk_passed = risk.passed })
