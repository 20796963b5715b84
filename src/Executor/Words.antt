-- ===== src/Executor/Words.antt =====
-- The words of the executor's results, and what it reads off a message.
use stock_ai_platform.Base.{
  ℕ, Bool, Option, List, [], ◌∷◌, ◌==◌, if◌then◌else◌, Text, codes, strip, upper, eq_text,
}
use stock_ai_platform.Store.{Side, buy, sell, Settings}
use stock_ai_platform.RealOrder
use stock_ai_platform.RealOrder.Redact.{lower, contains_sub, redact}
use stock_ai_platform.Kis.{Transport}

-- The classes of a placement, `_PLACE_PREFIXES`.
pub data Placement : Type 0 where
  submitted rejected timeout network_error unknown : Placement

-- `blocked_reason`; a failed placement gives its class.
pub data BlockedReason : Type 0 where
  candidate_not_found not_approved duplicate_real_order already_executed : BlockedReason
  kill_switch_on trading_safety_disabled real_trading_disabled : BlockedReason
  kis_order_disabled amount_exceeds_per_order_cap amount_exceeds_daily_cap : BlockedReason
  risk_rejected transport_unavailable : BlockedReason
  placement : Placement → BlockedReason

pub data ExecutorStatus : Type 0 where
  dry_run blocked submitted failed : ExecutorStatus

pub record ExecutorResult : Type 0 where
  pub success : Bool
  pub dry_run : Bool
  pub blocked_reason : Option BlockedReason
  pub real_order_id : Option ℕ
  pub status : ExecutorStatus

-- The transport that was injected, the fake by default, and the factory for the real path, where
-- none is an exception.
pub record RealOrderExecutor : Type 0 where
  pub transport : Transport
  pub real_transport_factory : Option (Settings → Option Transport)

-- `_scrub`, its words taken in the order of the list.
unfoldable pub scrub_words : List Text → Text → Text
unfolding contains_sub lower redact
scrub_words [] t = t
scrub_words (w ∷ ws) t = scrub_words ws (if contains_sub w (lower t) then redact w t else t)

unfoldable pub scrub : Text → Text
unfolding scrub_words
scrub t = scrub_words RealOrder.sensitive_substrings t

-- `message.split(":", 1)[0]`
unfoldable pub before_colon : Text → Text
before_colon [] = []
before_colon (c ∷ t) = if c == b':' then [] else c ∷ before_colon t

unfoldable pub classify_place_message : Text → Placement
unfolding before_colon strip upper eq_text
classify_place_message message =
    let head = upper (strip (before_colon message)) in
    if eq_text head (codes "SUBMITTED")
    then Placement.submitted
    else if eq_text head (codes "REJECTED")
    then rejected
    else if eq_text head (codes "TIMEOUT")
    then timeout
    else if eq_text head (codes "NETWORK_ERROR")
    then network_error
    else unknown

abbrev pub placement_text : Placement → Text
placement_text Placement.submitted = codes "SUBMITTED"
placement_text rejected = codes "REJECTED"
placement_text timeout = codes "TIMEOUT"
placement_text network_error = codes "NETWORK_ERROR"
placement_text unknown = codes "UNKNOWN"

abbrev pub side_text : Side → Text
side_text buy = codes "BUY"
side_text sell = codes "SELL"
