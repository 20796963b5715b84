-- ===== src/Approval/Outcome.antt =====
-- What `approve` does on each side of its re-check.
use stock_ai_platform.Base.{
  ℕ, ◌≡◌, refl, ap, ◌∙◌, true, false, not, Option, none, some, List, [], ◌∷◌, ◌++◌, arith, find,
  Text, update_where, ◌+◌, ◌==◌, if◌then◌else◌,
}
use stock_ai_platform.Store.{
  CandidateStatus, pending_approval, same_status, EventType, OrderCandidate, RiskCheckResult,
  Session, Settings, approval_denied, trading_safety_disabled, Action, Done, pure, raise, raise_if,
  gets, ◌>>=◌, ◌>>◌, ok, err, Json,
}
use stock_ai_platform.Store.Steps.{guard-go, bind-go, bind-stop}
use stock_ai_platform.Candidate
use stock_ai_platform.Audit
use stock_ai_platform.Audit.Appended.{HashFits}
use stock_ai_platform.Risk.{evaluate}
use stock_ai_platform.Approval.Shared.{
  ApprovalActor, event_entry, record_event, assert_kill_switch_off, format_violations,
}
use stock_ai_platform.Approval.Decide.{
  load_candidate, recheck_details, deny_recheck, accept, decide, approve, ApproveResult,
}

-- The hashes of the actor fit their columns.
abbrev pub ActorFits : ApprovalActor → Type 0
ActorFits a = HashFits a.ip_hash × HashFits a.user_agent_hash

fits-not_long : (h : Option Text) → HashFits h → Audit.too_long h ≡ false
fits-not_long none k = refl
fits-not_long (some t) k = ground arith

-- With hashes that fit and details without a forbidden key, an event is written.
pub record_event-writes :
    (c : OrderCandidate) (e : EventType) (actor : ApprovalActor) (reason : Option Text)
    (details : Option (List (Text × Json))) (s : Session)
    → ActorFits actor
    → Audit.details_leak details ≡ false
    → record_event c e actor reason details s ≡ (
      ok tt,
      record s {
        audits =
            s.audits
            ++ Audit.row_of (event_entry c e actor reason details) s.next_audit s.clock ∷ [];
        next_audit = s.next_audit + 1;
      },
    )
unfolding record_event Audit.append Audit.add_entry
record_event-writes c e actor reason details s fits clean =
    let i = fits-not_long actor.ip_hash fits.0 in
    let u = fits-not_long actor.user_agent_hash fits.1 in ground arith

-- A candidate whose saved row is allowed to move.
update_status-go :
    (c : OrderCandidate) (t : CandidateStatus) (reason : Option Text) (user : Option ℕ)
    (s : Session)
    → Candidate.allowed c.status t ≡ true
    → Candidate.update_status c t reason user s
      ≡ Candidate.save
          (record c {
            status = t;
            rejection_reason = Candidate.or_keep reason c.rejection_reason;
            approver_user_id = Candidate.or_keep user c.approver_user_id;
          })
          s
unfolding Candidate.update_status
update_status-go c t reason user s h = ground arith

-- The rejected row that a failed re-check leaves.
abbrev pub denied_row : OrderCandidate → RiskCheckResult → ApprovalActor → ℕ → OrderCandidate
denied_row c risk actor now = record c {
  risk_check_result = some risk;
  status = CandidateStatus.rejected;
  rejection_reason = some (format_violations risk);
  approver_user_id = Candidate.or_keep actor.user_id c.approver_user_id;
  updated_at = now;
}

abbrev pub denied_event : OrderCandidate → RiskCheckResult → ApprovalActor → Audit.NewEntry
denied_event c risk actor =
    event_entry c EventType.risk_rejected actor (some (format_violations risk))
      (some (recheck_details risk))

-- The session after a failed re-check: the candidate's row stands rejected, one event is recorded.
abbrev pub denied_session : OrderCandidate → RiskCheckResult → ApprovalActor → Session → Session
denied_session c risk actor s = record s {
  candidates =
      update_where (λ r. r.id == c.id) (λ _. denied_row c risk actor s.clock)
        (update_where (λ r. r.id == c.id)
          (λ _. record c { risk_check_result = some risk; updated_at = s.clock }) s.candidates);
  audits =
      s.audits
      ++ Audit.row_of (denied_event (denied_row c risk actor s.clock) risk actor) s.next_audit
          s.clock
        ∷ [];
  next_audit = s.next_audit + 1;
}

recheck_details-clean :
    (risk : RiskCheckResult) → Audit.details_leak (some (recheck_details risk)) ≡ false
unfolding Audit.details_leak
recheck_details-clean risk = refl

pub deny_recheck-ends :
    (c : OrderCandidate) (risk : RiskCheckResult) (actor : ApprovalActor) (s : Session)
    → ActorFits actor
    → c.status ≡ pending_approval
    → deny_recheck c risk actor s ≡ (err approval_denied, denied_session c risk actor s)
unfolding deny_recheck Candidate.attach_risk_result Candidate.save Candidate.update_status
deny_recheck-ends c risk actor s fits pending =
    let c1 : OrderCandidate = record c { risk_check_result = some risk; updated_at = s.clock } in
    let c2 = denied_row c risk actor s.clock in
    let rows = update_where (λ r. r.id == c.id) (λ _. c1) s.candidates in
    let reason = some (format_violations risk) in
    let s2 : Session = record s { candidates = update_where (λ r. r.id == c.id) (λ _. c2) rows } in
    bind-go (Candidate.update_status c1 CandidateStatus.rejected reason actor.user_id)
      (λ x.
        record_event x EventType.risk_rejected actor reason (some (recheck_details risk))
        >> raise approval_denied)
      (record s { candidates = rows }) c2 s2
      (update_status-go c1 CandidateStatus.rejected reason actor.user_id
        (record s { candidates = rows })
        (ap (λ w. Candidate.allowed w CandidateStatus.rejected) pending))
    ∙ bind-go (record_event c2 EventType.risk_rejected actor reason (some (recheck_details risk)))
        (λ _. raise approval_denied) s2 tt (denied_session c risk actor s)
        (record_event-writes c2 EventType.risk_rejected actor reason (some (recheck_details risk))
          s2 fits (recheck_details-clean risk))

pub kill_switch_off-passes :
    (settings : Settings) (c : OrderCandidate) (actor : ApprovalActor) (s : Session)
    → settings.kill_switch_enabled ≡ false
    → assert_kill_switch_off settings c actor s ≡ (ok tt, s)
unfolding assert_kill_switch_off
kill_switch_off-passes settings c actor s h = ground arith

pub load_candidate-found :
    (i : ℕ) (c : OrderCandidate) (s : Session)
    → find (λ r. r.id == i) s.candidates ≡ some c
    → load_candidate i s ≡ (ok c, s)
unfolding load_candidate Candidate.get_by_id
load_candidate-found i c s h = ground arith

-- `approve` on a candidate found pending comes down to the decision.
pub approve-pending :
    (settings : Settings) (i : ℕ) (c : OrderCandidate) (actor : ApprovalActor) (now : ℕ)
    (s : Session)
    → settings.trading_safety_enabled ≡ true
    → find (λ r. r.id == i) s.candidates ≡ some c
    → c.status ≡ pending_approval
    → approve settings i actor now s ≡ decide settings c actor now s
unfolding approve
approve-pending settings i c actor now s active found pending =
    let rest : OrderCandidate → Action ApproveResult = λ c.
      raise_if (not (same_status c.status pending_approval)) approval_denied
      >> decide settings c actor now in
    guard-go (not settings.trading_safety_enabled) trading_safety_disabled
      (load_candidate i >>= rest) s (ap not active)
    ∙ bind-go (load_candidate i) rest s c s (load_candidate-found i c s found)
    ∙ guard-go (not (same_status c.status pending_approval)) approval_denied
        (decide settings c actor now) s (ap (λ w. not (same_status w pending_approval)) pending)

-- Where the workflow is on, the kill switch off and the candidate pending, a failed re-check ends
-- `approve` with a denial: the row stands REJECTED with the re-check's result, one RISK_REJECTED
-- event ends the trail, and nothing else of the session has changed.
pub approve-recheck_failed :
    (settings : Settings) (i : ℕ) (c : OrderCandidate) (actor : ApprovalActor) (now : ℕ)
    (s : Session)
    → settings.trading_safety_enabled ≡ true
    → settings.kill_switch_enabled ≡ false
    → find (λ r. r.id == i) s.candidates ≡ some c
    → c.status ≡ pending_approval
    → ActorFits actor
    → (evaluate settings s c now).passed ≡ false
    → approve settings i actor now s
      ≡ (err approval_denied, denied_session c (evaluate settings s c now) actor s)
unfolding decide
approve-recheck_failed settings i c actor now s active off found pending fits failed =
    let risk = evaluate settings s c now in
    let check : RiskCheckResult → Action Done =
      λ r. if r.passed then pure tt else deny_recheck c r actor in
    let rest : Action ApproveResult =
      gets (λ s. evaluate settings s c now) >>= λ r. check r >>= λ _. accept settings c r actor in
    approve-pending settings i c actor now s active found pending
    ∙ bind-go (assert_kill_switch_off settings c actor) (λ _. rest) s tt s
        (kill_switch_off-passes settings c actor s off)
    ∙ bind-stop (check risk) (λ _. accept settings c risk actor) s approval_denied
        (denied_session c risk actor s)
        (ap (λ b. (if b then pure tt else deny_recheck c risk actor) s) failed
          ∙ deny_recheck-ends c risk actor s fits pending)
