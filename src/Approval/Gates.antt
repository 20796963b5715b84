-- ===== src/Approval/Gates.antt =====
-- The kill switch as a gate in front of approval and rejection.
use stock_ai_platform.Base.{
  ℕ, ◌≡◌, refl, ap, ◌∙◌, true, not, none, some, [], ◌∷◌, ◌++◌, find, Text, codes, get_or, ◌+◌, ◌==◌,
  if◌then◌else◌,
}
use stock_ai_platform.Store.{
  pending_approval, same_status, EventType, OrderCandidate, RiskCheckResult, Session, Settings,
  approval_denied, kill_switch_blocked, trading_safety_disabled, Action, Done, pure, raise,
  raise_if, gets, ◌>>=◌, ◌>>◌, err,
}
use stock_ai_platform.Store.Steps.{guard-go, bind-go, bind-stop}
use stock_ai_platform.Candidate
use stock_ai_platform.Audit
use stock_ai_platform.Risk.{evaluate}
use stock_ai_platform.Approval.Shared.{
  ApprovalActor, event_entry, record_event, assert_kill_switch_off,
}
use stock_ai_platform.Approval.Outcome.{
  ActorFits, record_event-writes, load_candidate-found, approve-pending,
}
use stock_ai_platform.Approval.Decide.{
  load_candidate, deny_recheck, accept, decide, approve, reject, ApproveResult,
}

-- The event of a blocked request.
abbrev pub blocked_event : OrderCandidate → ApprovalActor → Audit.NewEntry
blocked_event c actor =
    event_entry c EventType.kill_switch_blocked actor (some (codes "kill_switch_enabled")) none

-- The session with an event at the end of its trail.
abbrev pub with_event : Audit.NewEntry → Session → Session
with_event entry s = record s {
  audits = s.audits ++ Audit.row_of entry s.next_audit s.clock ∷ [];
  next_audit = s.next_audit + 1;
}

kill_switch_on-blocks :
    (settings : Settings) (c : OrderCandidate) (actor : ApprovalActor) (s : Session)
    → settings.kill_switch_enabled ≡ true
    → ActorFits actor
    → assert_kill_switch_off settings c actor s
      ≡ (err kill_switch_blocked, with_event (blocked_event c actor) s)
unfolding assert_kill_switch_off Audit.details_leak
kill_switch_on-blocks settings c actor s on fits =
    let m =
      record_event c EventType.kill_switch_blocked actor (some (codes "kill_switch_enabled"))
        none in
    ap (λ b. (if b then m >> raise kill_switch_blocked else pure tt) s) on
    ∙ bind-go m (λ _. raise kill_switch_blocked) s tt (with_event (blocked_event c actor) s)
        (record_event-writes c EventType.kill_switch_blocked actor
          (some (codes "kill_switch_enabled")) none s fits refl)

-- With the kill switch on, approving and rejecting a pending candidate are both blocked: the
-- call raises KillSwitchBlockedError, and the session changes by one KILL_SWITCH_BLOCKED event.
pub kill_switch-blocks :
    (settings : Settings) (i : ℕ) (c : OrderCandidate) (actor : ApprovalActor) (now : ℕ)
    (reason : Text) (s : Session)
    → settings.trading_safety_enabled ≡ true
    → settings.kill_switch_enabled ≡ true
    → find (λ r. r.id == i) s.candidates ≡ some c
    → c.status ≡ pending_approval
    → ActorFits actor
    → (approve settings i actor now s
        ≡ (err kill_switch_blocked, with_event (blocked_event c actor) s))
      × (reject settings i actor reason s
          ≡ (err kill_switch_blocked, with_event (blocked_event c actor) s))
unfolding decide reject
kill_switch-blocks settings i c actor now reason s active on found pending fits =
    let blocked = kill_switch_on-blocks settings c actor s on fits in
    let check : RiskCheckResult → Action Done =
      λ r. if r.passed then pure tt else deny_recheck c r actor in
    let rest : Action ApproveResult =
      gets (λ s. evaluate settings s c now) >>= λ r. check r >>= λ _. accept settings c r actor in
    let record_rejection : OrderCandidate → Action OrderCandidate = λ c.
      Candidate.reject c (get_or actor.user_id 0) reason >>= λ c1.
      record_event c1 EventType.rejected actor (Candidate.capped reason) none >> pure c1 in
    let asked : OrderCandidate → Action OrderCandidate =
      λ c. assert_kill_switch_off settings c actor >> record_rejection c in
    let loaded : OrderCandidate → Action OrderCandidate =
      λ c. raise_if (not (same_status c.status pending_approval)) approval_denied >> asked c in
    (
      approve-pending settings i c actor now s active found pending
          ∙ bind-stop (assert_kill_switch_off settings c actor) (λ _. rest) s kill_switch_blocked
              (with_event (blocked_event c actor) s) blocked,
      guard-go (not settings.trading_safety_enabled) trading_safety_disabled
            (load_candidate i >>= loaded) s (ap not active)
          ∙ bind-go (load_candidate i) loaded s c s (load_candidate-found i c s found)
          ∙ guard-go (not (same_status c.status pending_approval)) approval_denied (asked c) s
              (ap (λ w. not (same_status w pending_approval)) pending)
          ∙ bind-stop (assert_kill_switch_off settings c actor) (λ _. record_rejection c) s
              kill_switch_blocked (with_event (blocked_event c actor) s) blocked,
    )
