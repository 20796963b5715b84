-- ===== src/Approval/Route/Commit.antt =====
-- What a handler leaves in the database.
use stock_ai_platform.Base.{ℕ, ◌≡◌, ap, ◌∙◌, true, false, some, arith, find, ◌==◌}
use stock_ai_platform.Store.{
  pending_approval, OrderCandidate, Session, Settings, Error, approval_denied, Result, ok, err,
  Action,
}
use stock_ai_platform.Risk.{evaluate}
use stock_ai_platform.Approval.{ApprovalActor, approve}
use stock_ai_platform.Approval.Outcome.{ActorFits, denied_session, approve-recheck_failed}
use stock_ai_platform.Approval.Route.{Reply, answered, failed, committed, gated, post_approve}

committed-failed :
    {A : Type 0} (m : Action A) (s : Session) (e : Error) (t : Session)
    → m s ≡ (err e, t)
    → committed m s ≡ (failed e, s)
committed-failed {A} m s e t h =
    ap {A = Result A × Session}
      (λ r. elim r.0 as (λ _. Reply A × Session) [
        | ok a ↦ (answered a, r.1)
        | err e ↦ (failed e, s)
      ])
      h

gated-open :
    {A : Type 0} (settings : Settings) (s : Session) (next : Reply A × Session)
    → settings.trading_safety_enabled ≡ true
    → settings.kill_switch_enabled ≡ false
    → gated settings s next ≡ next
gated-open settings s next h k = ground arith

-- A failed re-check of the approve handler is lost: the service rejects the candidate and records
-- the event, the handler replies with the denial, and the database is as it was before.
pub post_approve-denial_lost :
    (settings : Settings) (i : ℕ) (c : OrderCandidate) (actor : ApprovalActor) (now : ℕ)
    (s : Session)
    → settings.trading_safety_enabled ≡ true
    → settings.kill_switch_enabled ≡ false
    → find (λ r. r.id == i) s.candidates ≡ some c
    → c.status ≡ pending_approval
    → ActorFits actor
    → (evaluate settings s c now).passed ≡ false
    → (approve settings i actor now s
        ≡ (err approval_denied, denied_session c (evaluate settings s c now) actor s))
      × (post_approve settings i actor now s ≡ (failed approval_denied, s))
unfolding post_approve
post_approve-denial_lost settings i c actor now s active off found pending fits rejected =
    let service =
      approve-recheck_failed settings i c actor now s active off found pending fits rejected in
    (
      service,
      gated-open settings s (committed (approve settings i actor now) s) active off
          ∙ committed-failed (approve settings i actor now) s approval_denied
              (denied_session c (evaluate settings s c now) actor s) service,
    )
