-- ===== src/Approval/Key.antt =====
-- The texts that the workflow builds: the broker's key and the reason of a rejection.
use mathlib.Core.List.{List, [], ◌∷◌, ◌++◌}
use stock_ai_platform.Base.{
  ℕ, ◌+◌, ◌*◌, ◌≤◌, ◌≡◌, arith, codes, decimal-injective, length, length-append,
}
use stock_ai_platform.Store.{
  RuleId, account_paper_enabled, kill_switch_off, per_symbol_limit, daily_total_limit,
  position_ratio_limit, daily_loss_limit, duplicate_recent, rule_text, RiskViolation,
  OrderCandidate, Session, Settings,
}
use stock_ai_platform.Risk.{evaluate}
use stock_ai_platform.Risk.Report.{rank, Ordered, evaluate-Ordered}
use stock_ai_platform.Approval.Shared.{join_rules, worded, format_violations}
use stock_ai_platform.Approval.Decide.{order_request}

-- Two candidates whose orders go out under one idempotency key have the same id.
pub order_request-key :
    (c d : OrderCandidate)
    → (order_request c).idempotency_key ≡ (order_request d).idempotency_key
    → c.id ≡ d.id
order_request-key c d h = decimal-injective c.id d.id cc

rule_text-short : (r : RuleId) → length (rule_text r) ≤ 21
rule_text-short account_paper_enabled = omega arith
rule_text-short kill_switch_off = omega arith
rule_text-short per_symbol_limit = omega arith
rule_text-short daily_total_limit = omega arith
rule_text-short position_ratio_limit = omega arith
rule_text-short daily_loss_limit = omega arith
rule_text-short duplicate_recent = omega arith

join_rules-short : (vs : List RiskViolation) → length (join_rules vs) ≤ 23 * length vs
unfolding join_rules
join_rules-short [] = omega arith
join_rules-short (v ∷ []) = omega (arith, rule_text-short v.rule_id)
join_rules-short (v ∷ w ∷ vs) = omega (
  arith,
  rule_text-short v.rule_id,
  join_rules-short (w ∷ vs),
  length-append (rule_text v.rule_id) (codes ", " ++ join_rules (w ∷ vs)),
)

rank-le : (r : RuleId) → rank r ≤ 7
rank-le account_paper_enabled = omega arith
rank-le kill_switch_off = omega arith
rank-le per_symbol_limit = omega arith
rank-le daily_total_limit = omega arith
rank-le position_ratio_limit = omega arith
rank-le daily_loss_limit = omega arith
rank-le duplicate_recent = omega arith

Ordered-length :
    (low : ℕ) (vs : List RiskViolation) → low ≤ 7 → Ordered low vs → low + length vs ≤ 7
Ordered-length low [] h k = omega (arith, h)
Ordered-length low (v ∷ vs) h k =
    omega (arith, k.0, Ordered-length (rank v.rule_id) vs (rank-le v.rule_id) k.1)

worded-short : (vs : List RiskViolation) → length vs ≤ 7 → length (worded vs) ≤ 256
worded-short [] h = omega arith
worded-short (v ∷ vs) h =
    omega (arith, h, join_rules-short (v ∷ vs), length-append (join_rules (v ∷ vs)) (codes "]"))

-- The reason that is written for a verdict of the risk engine fits its column of 256 characters.
pub format_violations-fits :
    (settings : Settings) (s : Session) (c : OrderCandidate) (now : ℕ)
    → length (format_violations (evaluate settings s c now)) ≤ 256
unfolding format_violations
format_violations-fits settings s c now =
    let vs = (evaluate settings s c now).violations in
    worded-short vs
      (omega (arith, Ordered-length 0 vs (omega arith) (evaluate-Ordered settings s c now).0))
