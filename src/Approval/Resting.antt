-- ===== src/Approval/Resting.antt =====
-- `approve`, `reject` and `expire` go from settled candidates to settled candidates where they
-- return.
use stock_ai_platform.Base.{ℕ, refl, not, none, some, Text, All, codes, if◌then◌else◌, get_or}
use stock_ai_platform.Store.{
  CandidateStatus, pending_approval, same_status, EventType, OrderCandidate, RiskCheckResult,
  Session, Settings, Error, trading_safety_disabled, approval_denied, invalid_candidate_transition,
  Action, Result, ok, err, pure, raise, gets, catch,
}
use stock_ai_platform.Store.Triple.{
  Triple, Post, Triple-pure, Triple-if, Triple-guard, Triple-bind, Triple-weaken, Triple-catch,
}
use stock_ai_platform.Candidate
use stock_ai_platform.Broker
use stock_ai_platform.Risk.{evaluate}
use stock_ai_platform.Approval.Shared.{
  ApprovalActor, record_event, assert_kill_switch_off, format_violations,
}
use stock_ai_platform.Approval.Decide.{
  ApproveResult, load_candidate, recheck_details, decide, deny_recheck, as_denied, order_request,
  approved_details, executed_details, forward_order, accept, approve, reject, expire,
  transition_denied,
}
use stock_ai_platform.Approval.Aside.{switch, submitted, loaded, checked}
use stock_ai_platform.Approval.Settling.{event-SettledBut, event-Settled, returning}
use stock_ai_platform.Approval.Settled.{
  Rests, RestsBut, Settled, SettledBut, Dropped, SettledBut-weaken, update_status-But,
  update_status-Settled, attach_virtual_order-But,
}

forward_order-Settled :
    (settings : Settings) (c : OrderCandidate) (risk : RiskCheckResult) (actor : ApprovalActor)
    → Triple (SettledBut c.id) (λ _. Settled) Dropped (forward_order settings c risk actor)
unfolding forward_order
forward_order-Settled settings c risk actor =
    Triple-bind (λ _. SettledBut c.id) (λ _. Settled)
      (catch (Broker.submit_order settings (order_request c)) as_denied) _
      (submitted (All (RestsBut c.id)) settings (order_request c))
      λ o.
        Triple-bind (λ c1. SettledBut c1.id) (λ _. Settled)
          (Candidate.attach_virtual_order c o.order.id) _ (attach_virtual_order-But c o.order.id)
          λ c1.
            Triple-bind (λ _. Settled) (λ _. Settled)
              (Candidate.update_status c1 CandidateStatus.executed_paper none none) _
              (update_status-Settled c1 CandidateStatus.executed_paper none none refl)
              λ c2.
                Triple-bind (λ _. Settled) (λ _. Settled)
                  (record_event c2 EventType.executed_paper actor none (some (executed_details o)))
                  _
                  (event-Settled c2 EventType.executed_paper actor none (some (executed_details o)))
                  λ _.
                    returning {A = ApproveResult}
                      (record { candidate = c2; virtual_order_id = o.order.id; risk_result = risk })

accept-Settled :
    (settings : Settings) (c : OrderCandidate) (risk : RiskCheckResult) (actor : ApprovalActor)
    → Triple (SettledBut c.id) (λ _. Settled) Dropped (accept settings c risk actor)
unfolding accept
accept-Settled settings c risk actor =
    Triple-bind (λ c1. SettledBut c1.id) (λ _. Settled)
      (Candidate.update_status c CandidateStatus.approved none actor.user_id) _
      (update_status-But c CandidateStatus.approved none actor.user_id)
      λ c1.
        Triple-bind (λ _. SettledBut c1.id) (λ _. Settled)
          (record_event c1 EventType.approved actor none (some (approved_details risk)))
          (λ _. forward_order settings c1 risk actor)
          (event-SettledBut c1.id c1 EventType.approved actor none (some (approved_details risk)))
          λ _. forward_order-Settled settings c1 risk actor

anywhere : {A : Type 0} (m : Action A) → Triple (λ _. Unit) (λ _ _. Unit) Dropped m
anywhere {A} m = record { at = λ s h. outcome (m s) }
  where
    outcome : (r : Result A × Session) → Post (λ _ _. Unit) Dropped r
    outcome (ok a, t) = tt
    outcome (err e, t) = tt

-- A denial never returns.
deny_recheck-Raises :
    (c : OrderCandidate) (risk : RiskCheckResult) (actor : ApprovalActor)
    → Triple (λ _. Unit) (λ _ _. ⊥) Dropped (deny_recheck c risk actor)
unfolding deny_recheck
deny_recheck-Raises c risk actor =
    Triple-bind (λ _ _. Unit) (λ _ _. ⊥) (Candidate.attach_risk_result c risk) _ (anywhere _)
      λ c1.
        Triple-bind (λ _ _. Unit) (λ _ _. ⊥)
          (Candidate.update_status c1 CandidateStatus.rejected (some (format_violations risk))
            actor.user_id)
          _ (anywhere _)
          λ c2.
            Triple-bind (λ _ _. Unit) (λ _ _. ⊥)
              (record_event c2 EventType.risk_rejected actor (some (format_violations risk))
                (some (recheck_details risk)))
              (λ _. raise approval_denied) (anywhere _) λ _. record { at = λ s h. tt }

decide-Settled :
    (settings : Settings) (c : OrderCandidate) (actor : ApprovalActor) (now : ℕ)
    → Triple (SettledBut c.id) (λ _. Settled) Dropped (decide settings c actor now)
unfolding decide
decide-Settled settings c actor now =
    Triple-bind (λ _. SettledBut c.id) (λ _. Settled) (assert_kill_switch_off settings c actor) _
      (switch (All (RestsBut c.id)) settings c actor)
      λ _.
        Triple-bind (λ _. SettledBut c.id) (λ _. Settled) (gets (λ s. evaluate settings s c now)) _
          (checked (All (RestsBut c.id)) settings c now)
          λ risk.
            Triple-bind (λ _. SettledBut c.id) (λ _. Settled)
              (if risk.passed then pure tt else deny_recheck c risk actor)
              (λ _. accept settings c risk actor)
              (Triple-if (λ _. SettledBut c.id) risk.passed (pure tt) (deny_recheck c risk actor)
                (λ _. Triple-pure (λ _. SettledBut c.id) tt λ s h. h)
                λ _.
                  Triple-weaken (λ _ _. ⊥) (λ _. SettledBut c.id) (deny_recheck c risk actor)
                    (λ s h. tt) (λ a s h. absurd h) (λ s h. h) (deny_recheck-Raises c risk actor))
              λ _. accept-Settled settings c risk actor

-- A loaded row is the one that may pass through other statuses.
on_loaded :
    {A : Type 0} (c : OrderCandidate) (m : Action A)
    → Triple (SettledBut c.id) (λ _. Settled) Dropped m
    → Triple Settled (λ _. Settled) Dropped m
on_loaded c m k =
    Triple-weaken (λ _. Settled) (λ _. Settled) m (λ s h. SettledBut-weaken c.id s h) (λ a s h. h)
      (λ s h. h) k

pub approve-Settled :
    (settings : Settings) (i : ℕ) (actor : ApprovalActor) (now : ℕ)
    → Triple Settled (λ _. Settled) Dropped (approve settings i actor now)
unfolding approve
approve-Settled settings i actor now =
    Triple-guard (λ _. Settled) (not settings.trading_safety_enabled) trading_safety_disabled _
      (λ _ _. tt)
      (Triple-bind (λ _. Settled) (λ _. Settled) (load_candidate i) _ (loaded (All Rests) i)
        λ c.
          Triple-guard (λ _. Settled) (not (same_status c.status pending_approval)) approval_denied
            (decide settings c actor now) (λ _ _. tt)
            (on_loaded c (decide settings c actor now) (decide-Settled settings c actor now)))

rejecting-Settled :
    (c : OrderCandidate) (actor : ApprovalActor) (reason : Text)
    → Triple
        (SettledBut c.id)
        (λ _. Settled)
        Dropped
        (Candidate.reject c (get_or actor.user_id 0) reason)
unfolding Candidate.reject
rejecting-Settled c actor reason =
    update_status-Settled c CandidateStatus.rejected (Candidate.capped reason)
      (some (get_or actor.user_id 0)) refl

pub reject-Settled :
    (settings : Settings) (i : ℕ) (actor : ApprovalActor) (reason : Text)
    → Triple Settled (λ _. Settled) Dropped (reject settings i actor reason)
unfolding reject
reject-Settled settings i actor reason =
    Triple-guard (λ _. Settled) (not settings.trading_safety_enabled) trading_safety_disabled _
      (λ _ _. tt)
      (Triple-bind (λ _. Settled) (λ _. Settled) (load_candidate i) _ (loaded (All Rests) i)
        λ c.
          Triple-guard (λ _. Settled) (not (same_status c.status pending_approval)) approval_denied
            _ (λ _ _. tt)
            (Triple-bind (λ _. Settled) (λ _. Settled) (assert_kill_switch_off settings c actor) _
              (switch (All Rests) settings c actor)
              λ _.
                Triple-bind (λ _. Settled) (λ _. Settled)
                  (Candidate.reject c (get_or actor.user_id 0) reason) _
                  (on_loaded c (Candidate.reject c (get_or actor.user_id 0) reason)
                    (rejecting-Settled c actor reason))
                  λ c1.
                    Triple-bind (λ _. Settled) (λ _. Settled)
                      (record_event c1 EventType.rejected actor (Candidate.capped reason) none)
                      (λ _. pure c1)
                      (event-Settled c1 EventType.rejected actor (Candidate.capped reason) none)
                      λ _. returning c1))

transition_denied-Raises : (e : Error) → Triple Dropped (λ _. Settled) Dropped (transition_denied e)
transition_denied-Raises invalid_candidate_transition = record { at = λ s h. tt }
transition_denied-Raises _ = record { at = λ s h. tt }

expiring-Settled :
    (c : OrderCandidate) → Triple (SettledBut c.id) (λ _. Settled) Dropped (Candidate.expire c)
unfolding Candidate.expire
expiring-Settled c =
    update_status-Settled c CandidateStatus.expired (some (codes "ttl_expired")) none refl

pub expire-Settled :
    (i : ℕ) (actor : ApprovalActor) → Triple Settled (λ _. Settled) Dropped (expire i actor)
unfolding expire
expire-Settled i actor =
    Triple-bind (λ _. Settled) (λ _. Settled) (load_candidate i) _ (loaded (All Rests) i)
      λ c.
        Triple-bind (λ _. Settled) (λ _. Settled) (catch (Candidate.expire c) transition_denied) _
          (Triple-catch (λ _. Settled) (Candidate.expire c) transition_denied
            (on_loaded c (Candidate.expire c) (expiring-Settled c)) transition_denied-Raises)
          λ c1.
            Triple-bind (λ _. Settled) (λ _. Settled)
              (record_event c1 EventType.expired actor (some (codes "ttl_expired")) none)
              (λ _. pure c1)
              (event-Settled c1 EventType.expired actor (some (codes "ttl_expired")) none)
              λ _. returning c1
