-- ===== src/Store/Enums.antt =====
-- The string columns that hold one of a fixed set of words, as data types, with the words that
-- the repositories accept. A word outside the set has no value.
use stock_ai_platform.Base.{
  Bool, true, false, Option, none, some, Text, codes, eq_text, if◌then◌else◌,
}

pub data Side : Type 0 where
  buy sell : Side

pub data OrderType : Type 0 where
  market limit : OrderType

pub data Source : Type 0 where
  recommendation strategy paper manual : Source

pub data CandidateStatus : Type 0 where
  draft risk_checking risk_rejected pending_approval : CandidateStatus
  approved executed_paper rejected expired : CandidateStatus

pub data OrderStatus : Type 0 where
  created submitted partially_filled filled canceled rejected : OrderStatus

-- The events of the approval workflow, then those of the real-order path.
pub data EventType : Type 0 where
  created risk_checked risk_rejected approved rejected expired : EventType
  executed_paper kill_switch_blocked : EventType
  real_order_submitted real_order_failed : EventType
  real_order_fill_synced real_order_fill_failed fill_sync_negative_delta : EventType

pub data RuleId : Type 0 where
  account_paper_enabled kill_switch_off per_symbol_limit daily_total_limit : RuleId
  position_ratio_limit daily_loss_limit duplicate_recent : RuleId

unfoldable pub parse_side : Text → Option Side
unfolding eq_text
parse_side t =
    if eq_text t (codes "BUY")
    then some buy
    else if eq_text t (codes "SELL")
    then some sell
    else none

unfoldable pub parse_order_type : Text → Option OrderType
unfolding eq_text
parse_order_type t =
    if eq_text t (codes "MARKET")
    then some market
    else if eq_text t (codes "LIMIT")
    then some limit
    else none

unfoldable pub parse_source : Text → Option Source
unfolding eq_text
parse_source t =
    if eq_text t (codes "RECOMMENDATION")
    then some recommendation
    else if eq_text t (codes "STRATEGY")
    then some strategy
    else if eq_text t (codes "PAPER")
    then some paper
    else if eq_text t (codes "MANUAL")
    then some manual
    else none

unfoldable pub parse_candidate_status : Text → Option CandidateStatus
unfolding eq_text
parse_candidate_status t =
    if eq_text t (codes "DRAFT")
    then some draft
    else if eq_text t (codes "RISK_CHECKING")
    then some risk_checking
    else if eq_text t (codes "RISK_REJECTED")
    then some CandidateStatus.risk_rejected
    else if eq_text t (codes "PENDING_APPROVAL")
    then some pending_approval
    else if eq_text t (codes "APPROVED")
    then some CandidateStatus.approved
    else if eq_text t (codes "EXECUTED_PAPER")
    then some CandidateStatus.executed_paper
    else if eq_text t (codes "REJECTED")
    then some CandidateStatus.rejected
    else if eq_text t (codes "EXPIRED")
    then some CandidateStatus.expired
    else none

abbrev pub same_status : CandidateStatus → CandidateStatus → Bool
same_status draft draft = true
same_status risk_checking risk_checking = true
same_status CandidateStatus.risk_rejected CandidateStatus.risk_rejected = true
same_status pending_approval pending_approval = true
same_status CandidateStatus.approved CandidateStatus.approved = true
same_status CandidateStatus.executed_paper CandidateStatus.executed_paper = true
same_status CandidateStatus.rejected CandidateStatus.rejected = true
same_status CandidateStatus.expired CandidateStatus.expired = true
same_status _ _ = false

abbrev pub same_side : Side → Side → Bool
same_side buy buy = true
same_side sell sell = true
same_side _ _ = false

-- The words of `RiskViolation.rule_id`.
abbrev pub rule_text : RuleId → Text
rule_text account_paper_enabled = codes "account_paper_enabled"
rule_text kill_switch_off = codes "kill_switch_off"
rule_text per_symbol_limit = codes "per_symbol_limit"
rule_text daily_total_limit = codes "daily_total_limit"
rule_text position_ratio_limit = codes "position_ratio_limit"
rule_text daily_loss_limit = codes "daily_loss_limit"
rule_text duplicate_recent = codes "duplicate_recent"
