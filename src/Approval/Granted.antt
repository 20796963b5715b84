-- ===== src/Approval/Granted.antt =====
-- What an approval that returns has gone through.
use mathlib.Core.Path.{subst}
use stock_ai_platform.Base.{
  ℕ, ◌≡◌, refl, ◌∙◌, Bool, true, false, not, Option, none, some, arith, find, Text, codes, ◌==◌,
  if◌then◌else◌,
}
use stock_ai_platform.Store.{
  CandidateStatus, pending_approval, same_status, EventType, OrderCandidate, RiskCheckResult,
  Session, Settings, approval_denied, invalid_candidate_transition, Result, catch,
  kill_switch_blocked, trading_safety_disabled, approval_service_error, Action, Done, pure, raise,
  raise_if, gets, ◌>>=◌, ◌>>◌, ok, err,
}
use stock_ai_platform.Store.Inversion.{>>=-ok, guard-ok, or_raise-ok}
use stock_ai_platform.Store.Yields.{
  Yields, Any, Of, Yields-pure, Yields-raise, Yields-guard, Yields-bind,
}
use stock_ai_platform.Broker
use stock_ai_platform.Candidate
use stock_ai_platform.Risk.{evaluate}
use stock_ai_platform.Approval.Shared.{
  ApprovalActor, record_event, assert_kill_switch_off, format_violations,
}
use stock_ai_platform.Approval.Decide.{
  load_candidate, recheck_details, deny_recheck, accept, decide, approve, ApproveResult,
  forward_order, approved_details, executed_details, order_request, as_denied,
}

abbrev Anywhere : Session → Type 0
Anywhere s = Unit

Any-Yields : {A : Type 0} (m : Action A) → Yields Anywhere Any m
Any-Yields {A} m = record { at = λ s h. (tt, known (m s).0) }
  where
    known : (r : Result A) → Of Any r
    known (ok a) = tt
    known (err e) = tt

-- The row that a transition returns.
update_status-Gives :
    (c : OrderCandidate) (t : CandidateStatus) (reason : Option Text) (user : Option ℕ)
    → Yields Anywhere
        (λ r. (r.status ≡ t) × (r.virtual_order_id ≡ c.virtual_order_id) × (r.id ≡ c.id))
        (Candidate.update_status c t reason user)
unfolding Candidate.update_status Candidate.save
update_status-Gives c t reason user =
    Yields-guard (λ r. (r.status ≡ t) × (r.virtual_order_id ≡ c.virtual_order_id) × (r.id ≡ c.id))
      (not (Candidate.allowed c.status t)) invalid_candidate_transition _
      λ _. record { at = λ s h. (tt, (refl, refl, refl)) }

attach-Gives :
    (c : OrderCandidate) (i : ℕ)
    → Yields Anywhere
        (λ r. (r.virtual_order_id ≡ some i) × (r.id ≡ c.id))
        (Candidate.attach_virtual_order c i)
unfolding Candidate.attach_virtual_order Candidate.save
attach-Gives c i =
    Yields-guard (λ r. (r.virtual_order_id ≡ some i) × (r.id ≡ c.id))
      (Candidate.links_elsewhere c.virtual_order_id i) invalid_candidate_transition _
      λ _. record { at = λ s h. (tt, (refl, refl)) }

-- What is promised of a granted approval.
pub record Granted (i : ℕ) (risk : RiskCheckResult) (out : ApproveResult) : Type 0 where
  pub executed : out.candidate.status ≡ CandidateStatus.executed_paper
  pub linked : out.candidate.virtual_order_id ≡ some out.virtual_order_id
  pub same_id : out.candidate.id ≡ i
  pub same_risk : out.risk_result ≡ risk

forward_order-Gives :
    (settings : Settings) (c : OrderCandidate) (risk : RiskCheckResult) (actor : ApprovalActor)
    → Yields Anywhere (Granted c.id risk) (forward_order settings c risk actor)
unfolding forward_order
forward_order-Gives settings c risk actor =
    Yields-bind Any (Granted c.id risk)
      (catch (Broker.submit_order settings (order_request c)) as_denied) _ (Any-Yields _)
      λ o _.
        Yields-bind (λ r. (r.virtual_order_id ≡ some o.order.id) × (r.id ≡ c.id))
          (Granted c.id risk) (Candidate.attach_virtual_order c o.order.id) _
          (attach-Gives c o.order.id)
          λ c1 h1.
            Yields-bind
              (λ r.
                (r.status ≡ CandidateStatus.executed_paper)
                × (r.virtual_order_id ≡ c1.virtual_order_id)
                × (r.id ≡ c1.id))
              (Granted c.id risk)
              (Candidate.update_status c1 CandidateStatus.executed_paper none none) _
              (update_status-Gives c1 CandidateStatus.executed_paper none none)
              λ c2 h2.
                Yields-bind Any (Granted c.id risk)
                  (record_event c2 EventType.executed_paper actor none (some (executed_details o)))
                  _ (Any-Yields _)
                  λ _ _.
                    Yields-pure (Granted c.id risk)
                      (record { candidate = c2; virtual_order_id = o.order.id; risk_result = risk })
                      (record {
                        executed = h2.0;
                        linked = h2.1 ∙ h1.0;
                        same_id = h2.2 ∙ h1.1;
                        same_risk = refl;
                      })

accept-Gives :
    (settings : Settings) (c : OrderCandidate) (risk : RiskCheckResult) (actor : ApprovalActor)
    → Yields Anywhere (Granted c.id risk) (accept settings c risk actor)
unfolding accept
accept-Gives settings c risk actor =
    Yields-bind
      (λ r.
        (r.status ≡ CandidateStatus.approved)
        × (r.virtual_order_id ≡ c.virtual_order_id)
        × (r.id ≡ c.id))
      (Granted c.id risk) (Candidate.update_status c CandidateStatus.approved none actor.user_id) _
      (update_status-Gives c CandidateStatus.approved none actor.user_id)
      λ c1 h1.
        Yields-bind Any (Granted c.id risk)
          (record_event c1 EventType.approved actor none (some (approved_details risk)))
          (λ _. forward_order settings c1 risk actor) (Any-Yields _)
          λ _ _.
            subst (λ n. Yields Anywhere (Granted n risk) (forward_order settings c1 risk actor))
              h1.2 (forward_order-Gives settings c1 risk actor)

-- A denial returns nothing.
deny_recheck-Gives :
    (c : OrderCandidate) (risk : RiskCheckResult) (actor : ApprovalActor)
    → Yields Anywhere (λ _. ⊥) (deny_recheck c risk actor)
unfolding deny_recheck
deny_recheck-Gives c risk actor =
    Yields-bind Any (λ _. ⊥) (Candidate.attach_risk_result c risk) _ (Any-Yields _)
      λ c1 _.
        Yields-bind Any (λ _. ⊥)
          (Candidate.update_status c1 CandidateStatus.rejected (some (format_violations risk))
            actor.user_id)
          _ (Any-Yields _)
          λ c2 _.
            Yields-bind Any (λ _. ⊥)
              (record_event c2 EventType.risk_rejected actor (some (format_violations risk))
                (some (recheck_details risk)))
              _ (Any-Yields _) λ _ _. Yields-raise (λ _. ⊥) approval_denied

-- Of a run that returned, what is known of the value holds.
returned :
    {A : Type 0} (Q : A → Type 0) (m : Action A) (s : Session) (a : A) (t : Session)
    → Yields Anywhere Q m
    → m s ≡ (ok a, t)
    → Q a
returned Q m s a t y h = subst (λ r. Of Q r.0) h (y.at s tt).1

switch-passed :
    (settings : Settings) (c : OrderCandidate) (actor : ApprovalActor) (s : Session) (u : Done)
    (t : Session)
    → assert_kill_switch_off settings c actor s ≡ (ok u, t)
    → (settings.kill_switch_enabled ≡ false) × (t ≡ s)
unfolding assert_kill_switch_off
switch-passed settings c actor s u t h = off settings.kill_switch_enabled h
  where
    m : Action Done
    m = record_event c EventType.kill_switch_blocked actor (some (codes "kill_switch_enabled")) none

    off :
        (b : Bool)
        → (if b then m >> raise kill_switch_blocked else pure tt) s ≡ (ok u, t)
        → (b ≡ false) × (t ≡ s)
    off true e = absurd (
        returned (λ _. ⊥) (m >> raise kill_switch_blocked) s u t
          (Yields-bind Any (λ _. ⊥) m (λ _. raise kill_switch_blocked) (Any-Yields m)
            λ _ _. Yields-raise (λ _. ⊥) kill_switch_blocked)
          e)
    off false e = (refl, ground arith)

recheck-passed :
    (b : Bool) (c : OrderCandidate) (risk : RiskCheckResult) (actor : ApprovalActor) (s : Session)
    (u : Done) (t : Session)
    → (if b then pure tt else deny_recheck c risk actor) s ≡ (ok u, t)
    → (b ≡ true) × (t ≡ s)
recheck-passed true c risk actor s u t h = (refl, ground arith)
recheck-passed false c risk actor s u t h =
    absurd (returned (λ _. ⊥) (deny_recheck c risk actor) s u t (deny_recheck-Gives c risk actor) h)

decide-ok :
    (settings : Settings) (c : OrderCandidate) (actor : ApprovalActor) (now : ℕ) (s : Session)
    (out : ApproveResult) (s' : Session)
    → decide settings c actor now s ≡ (ok out, s')
    → (settings.kill_switch_enabled ≡ false)
      × ((evaluate settings s c now).passed ≡ true)
      × Granted c.id (evaluate settings s c now) out
unfolding decide
decide-ok settings c actor now s out s' h =
    let check : RiskCheckResult → Action Done =
      λ r. if r.passed then pure tt else deny_recheck c r actor in
    let rest : Action ApproveResult =
      gets (λ s. evaluate settings s c now) >>= λ r. check r >>= λ _. accept settings c r actor in
    let t1 = >>=-ok (assert_kill_switch_off settings c actor) (λ _. rest) s out s' h in
    let (off, same) = switch-passed settings c actor s t1.value t1.mid t1.first in
    let h2 : rest s ≡ (ok out, s') = subst (λ t. rest t ≡ (ok out, s')) same t1.rest in
    let risk = evaluate settings s c now in
    let t2 = >>=-ok (check risk) (λ _. accept settings c risk actor) s out s' h2 in
    let p = recheck-passed risk.passed c risk actor s t2.value t2.mid t2.first in
    (
      off,
      p.0,
      returned (Granted c.id risk) (accept settings c risk actor) t2.mid out s'
          (accept-Gives settings c risk actor) t2.rest,
    )

-- An approval that returns: the workflow was on, the kill switch off, the candidate was stored and
-- pending, and it passed the risk engine again in the session as it was; the row comes back
-- EXECUTED_PAPER under the same key, linked to the order that the result names.
pub approve-Granted :
    (settings : Settings) (i : ℕ) (actor : ApprovalActor) (now : ℕ) (s : Session)
    (out : ApproveResult) (s' : Session)
    → approve settings i actor now s ≡ (ok out, s')
    → (settings.trading_safety_enabled ≡ true)
      × (settings.kill_switch_enabled ≡ false)
      × ((c : OrderCandidate) × (find (λ r. r.id == i) s.candidates ≡ some c)
          × (c.status ≡ pending_approval)
          × ((evaluate settings s c now).passed ≡ true)
          × Granted c.id (evaluate settings s c now) out)
unfolding approve load_candidate Candidate.get_by_id
approve-Granted settings i actor now s out s' h =
    let loaded : OrderCandidate → Action ApproveResult = λ c.
      raise_if (not (same_status c.status pending_approval)) approval_denied
      >> decide settings c actor now in
    let g1 =
      guard-ok (not settings.trading_safety_enabled) trading_safety_disabled
        (load_candidate i >>= loaded) s out s' h in
    let (c, found, h2) =
      or_raise-ok (find (λ r. r.id == i) s.candidates) approval_service_error loaded s out s'
        g1.1 in
    let g3 =
      guard-ok (not (same_status c.status pending_approval)) approval_denied
        (decide settings c actor now) s out s' h2 in
    let d = decide-ok settings c actor now s out s' g3.1 in
    (ground arith, d.0, (c, found, is_pending c.status g3.0, d.1, d.2))
  where
    is_pending :
        (w : CandidateStatus) → not (same_status w pending_approval) ≡ false → w ≡ pending_approval
    is_pending w h = ground arith
