-- ===== src/Audit/Appended.antt =====
-- What `append` writes, and what it refuses.
use stock_ai_platform.Base.{
  ◌≡◌, Option, none, some, [], ◌∷◌, ◌++◌, arith, ◌≤◌, Text, length, length-take-le, false, inl, inr,
  Option-cases,
}
use stock_ai_platform.Store.{ApprovalAuditLog, Session, ok}
use stock_ai_platform.Audit.{NewEntry, row_of, capped_reason, details_leak, add_entry, append}

-- At most 256 characters, where there is a text.
abbrev pub Short : Option Text → Type 0
Short none = Unit
Short (some t) = length t ≤ 256

abbrev pub HashFits : Option Text → Type 0
HashFits none = Unit
HashFits (some t) = length t ≤ 64

capped_reason-Short : (r : Option Text) → Short (capped_reason r)
capped_reason-Short none = tt
capped_reason-Short (some []) = tt
capped_reason-Short (some (x ∷ t)) = length-take-le 256 (x ∷ t)

-- What the trail promises of a row.
pub record IsValid (a : ApprovalAuditLog) : Type 0 where
  pub no_leak : details_leak a.details ≡ false
  pub reason_short : Short a.reason
  pub ip_fits : HashFits a.ip_hash
  pub agent_fits : HashFits a.user_agent_hash

-- A successful `append` puts one valid row at the end of the trail, under the next key and with
-- the arguments it was given; the rows before it stay.
pub append-IsValid :
    (a : NewEntry) (s : Session) (row : ApprovalAuditLog) (s' : Session)
    → append a s ≡ (ok row, s')
    → IsValid row × (row ≡ row_of a s.next_audit s.clock) × (s'.audits ≡ s.audits ++ row ∷ [])
unfolding append add_entry
append-IsValid a s row s' h = elim (Option-cases a.ip_hash) [
  | inl no_ip ↦ elim (Option-cases a.user_agent_hash) [
    | inl no_agent ↦ ground (arith, capped_reason-Short a.reason)
    | inr (u, agent) ↦ ground (arith, capped_reason-Short a.reason)
  ]
  | inr (i, ip) ↦ elim (Option-cases a.user_agent_hash) [
    | inl no_agent ↦ ground (arith, capped_reason-Short a.reason)
    | inr (u, agent) ↦ ground (arith, capped_reason-Short a.reason)
  ]
]
