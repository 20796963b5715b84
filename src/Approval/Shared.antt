-- ===== src/Approval/Shared.antt =====
-- What the operations of ApprovalService share: the caller, the audit rows, the two gates.
use stock_ai_platform.Base.{
  ℕ, not, Option, none, some, List, [], ◌∷◌, ◌++◌, map, Text, codes, if◌then◌else◌,
}
use stock_ai_platform.Store.{
  EventType, Json, texts, rule_text, OrderCandidate, RiskCheckResult, RiskViolation, Settings,
  trading_safety_disabled, kill_switch_blocked, Action, Done, pure, raise, raise_if, ◌>>=◌, ◌>>◌,
}
use stock_ai_platform.Audit

-- The caller, with the hashes already taken.
pub record ApprovalActor : Type 0 where
  pub user_id : Option ℕ
  pub ip_hash : Option Text
  pub user_agent_hash : Option Text

abbrev pub no_actor : ApprovalActor
no_actor = record { user_id = none; ip_hash = none; user_agent_hash = none }

-- Thirty minutes, in microseconds.
abbrev pub default_ttl : ℕ
default_ttl = 1800000000

-- `", ".join(rule ids)`
unfoldable pub join_rules : List RiskViolation → Text
join_rules [] = []
join_rules (v ∷ []) = rule_text v.rule_id
join_rules (v ∷ w ∷ vs) = rule_text v.rule_id ++ (codes ", " ++ join_rules (w ∷ vs))

abbrev pub worded : List RiskViolation → Text
worded [] = codes "risk passed"
worded (v ∷ vs) = codes "risk:pre-trade-v1 violations=[" ++ (join_rules (v ∷ vs) ++ codes "]")

unfoldable pub format_violations : RiskCheckResult → Text
unfolding join_rules
format_violations r = worded r.violations

abbrev pub rule_ids : RiskCheckResult → Json
rule_ids r = texts (map (λ v. rule_text v.rule_id) r.violations)

-- An audit row of the actor on a candidate.
abbrev pub event_entry :
    OrderCandidate
    → EventType
    → ApprovalActor
    → Option Text
    → Option (List (Text × Json))
    → Audit.NewEntry
event_entry c event actor reason details = record {
  candidate_id = c.id;
  event_type = event;
  user_id = actor.user_id;
  reason = reason;
  details = details;
  ip_hash = actor.ip_hash;
  user_agent_hash = actor.user_agent_hash;
}

unfoldable pub record_event :
    OrderCandidate
    → EventType
    → ApprovalActor
    → Option Text
    → Option (List (Text × Json))
    → Action Done
unfolding Audit.append
record_event c event actor reason details =
    Audit.append (event_entry c event actor reason details) >>= λ _. pure tt

-- `_assert_workflow_active`
abbrev pub assert_workflow_active : Settings → Action Done
assert_workflow_active settings =
    raise_if (not settings.trading_safety_enabled) trading_safety_disabled

-- `_assert_kill_switch_off`, with a candidate at hand: the block is recorded, then raised.
unfoldable pub assert_kill_switch_off : Settings → OrderCandidate → ApprovalActor → Action Done
unfolding record_event
assert_kill_switch_off settings c actor =
    if settings.kill_switch_enabled
    then (record_event c EventType.kill_switch_blocked actor (some (codes "kill_switch_enabled"))
          none
        >> raise kill_switch_blocked)
    else pure tt
