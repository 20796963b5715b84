-- ===== src/Audit.antt =====
-- ApprovalAuditLogRepository (app/data/repositories/approval_audit_log.py).
pub mod Appended
use mathlib.Core.List.{reverse}
use stock_ai_platform.Base.{
  ℕ, ◌+◌, Bool, true, false, ◌&&◌, ◌||◌, Option, none, some, List, [], ◌∷◌, ◌++◌, ltb, leb, ◌==◌,
  Text, codes, eq_text, take, select, length, if◌then◌else◌,
}
use stock_ai_platform.Store.{
  EventType, ApprovalAuditLog, Json, Session, audit_validation, Action, gets, raise_if, ◌>>=◌, ◌>>◌,
  ok,
}

-- The arguments of `append`.
pub record NewEntry : Type 0 where
  pub candidate_id : ℕ
  pub event_type : EventType
  pub user_id : Option ℕ
  pub reason : Option Text
  pub details : Option (List (Text × Json))
  pub ip_hash : Option Text
  pub user_agent_hash : Option Text

-- `_FORBIDDEN_DETAILS_KEYS`
abbrev pub forbidden_keys : List Text
forbidden_keys =
    codes "api_key"
    ∷ codes "token"
    ∷ codes "secret"
    ∷ codes "access_token"
    ∷ codes "jwt_secret"
    ∷ codes "broker_order_id"
    ∷ codes "kis_order_id"
    ∷ codes "real_account"
    ∷ codes "real_order_id"
    ∷ codes "account_number"
    ∷ codes "raw_text"
    ∷ codes "body"
    ∷ codes "full_text"
    ∷ codes "source_file_path"
    ∷ []

unfoldable pub contains : List Text → Text → Bool
unfolding eq_text
contains [] k = false
contains (x ∷ xs) k = eq_text x k || contains xs k

-- Does the document use a forbidden key?
unfoldable pub leaks : List (Text × Json) → Bool
unfolding contains
leaks [] = false
leaks ((k, v) ∷ d) = contains forbidden_keys k || leaks d

unfoldable pub details_leak : Option (List (Text × Json)) → Bool
unfolding leaks
details_leak none = false
details_leak (some d) = leaks d

abbrev pub too_long : Option Text → Bool
too_long none = false
too_long (some h) = ltb 64 (length h)

-- `reason[:256] if reason else None`
abbrev pub capped_reason : Option Text → Option Text
capped_reason none = none
capped_reason (some []) = none
capped_reason (some (x ∷ t)) = some (take 256 (x ∷ t))

-- The row under its key, stamped.
abbrev pub row_of : NewEntry → ℕ → ℕ → ApprovalAuditLog
row_of a id now = record {
  id = id;
  candidate_id = a.candidate_id;
  event_type = a.event_type;
  user_id = a.user_id;
  reason = capped_reason a.reason;
  details = a.details;
  ip_hash = a.ip_hash;
  user_agent_hash = a.user_agent_hash;
  created_at = now;
}

unfoldable pub add_entry : NewEntry → Action ApprovalAuditLog
add_entry a s =
    let row = row_of a s.next_audit s.clock in
    (ok row, record s { audits = s.audits ++ row ∷ []; next_audit = s.next_audit + 1 })

unfoldable pub append : NewEntry → Action ApprovalAuditLog
unfolding details_leak add_entry
append a = do
  raise_if (details_leak a.details) audit_validation
  raise_if (too_long a.ip_hash) audit_validation
  raise_if (too_long a.user_agent_hash) audit_validation
  add_entry a

-- Oldest first.
unfoldable pub list_by_candidate : ℕ → ℕ → Action (List ApprovalAuditLog)
list_by_candidate candidate n =
    gets λ s. take n (select (λ a. a.candidate_id == candidate) s.audits)

abbrev pub same_event : EventType → EventType → Bool
same_event EventType.created EventType.created = true
same_event EventType.risk_checked EventType.risk_checked = true
same_event EventType.risk_rejected EventType.risk_rejected = true
same_event EventType.approved EventType.approved = true
same_event EventType.rejected EventType.rejected = true
same_event EventType.expired EventType.expired = true
same_event EventType.executed_paper EventType.executed_paper = true
same_event EventType.kill_switch_blocked EventType.kill_switch_blocked = true
same_event EventType.real_order_submitted EventType.real_order_submitted = true
same_event EventType.real_order_failed EventType.real_order_failed = true
same_event EventType.real_order_fill_synced EventType.real_order_fill_synced = true
same_event EventType.real_order_fill_failed EventType.real_order_fill_failed = true
same_event EventType.fill_sync_negative_delta EventType.fill_sync_negative_delta = true
same_event _ _ = false

-- Newest first.
unfoldable pub list_recent : Option EventType → Option ℕ → ℕ → Action (List ApprovalAuditLog)
list_recent event since n = gets λ s. take n (
    reverse (
      select
        (λ a.
          elim event [ none ↦ true | some e ↦ same_event a.event_type e ]
          && elim since [ none ↦ true | some t ↦ leb t a.created_at ])
        s.audits))
