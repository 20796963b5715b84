-- ===== src/Executor/Unreached.antt =====
-- The real-order executor behind the approval handlers.
use stock_ai_platform.Base.{
  ℕ, ◌≡◌, ◌⊎◌, inl, inr, refl, ◌==◌, none, List, Text, All-find, find, arith, Option-cases,
}
use stock_ai_platform.Store.{OrderCandidate, Session, Settings, ok}
use stock_ai_platform.Approval.Settled.{Settled, Rests}
use stock_ai_platform.Approval.Route.Posts.{Request, after_posts, after_posts-Settled}
use stock_ai_platform.Executor.Words.{RealOrderExecutor, candidate_not_found, not_approved}
use stock_ai_platform.Executor.Run.{blocked_result, attempt, execute}

module _ (sha256 : Text → Text) (e : RealOrderExecutor) (settings : Settings) (i : ℕ) where
  attempt-blocked :
      (c : OrderCandidate) (s : Session)
      → Rests c
      → attempt sha256 e settings i c s
        ≡ (ok (blocked_result not_approved settings.real_order_dry_run none), s)
  unfolding attempt
  attempt-blocked c s h = ground arith

  execute-blocked :
      (s : Session)
      → Settled s
      → (execute sha256 e settings i s
          ≡ (ok (blocked_result candidate_not_found settings.real_order_dry_run none), s))
        ⊎ (execute sha256 e settings i s
            ≡ (ok (blocked_result not_approved settings.real_order_dry_run none), s))
  unfolding execute
  execute-blocked s h = elim (Option-cases (find (λ c. c.id == i) s.candidates)) [
    | inl absent ↦ inl (rw (execute, absent) refl)
    | inr (c, found) ↦ inr (
        rw (execute, found)
          (attempt-blocked c s (All-find Rests (λ c. c.id == i) s.candidates c h found)))
  ]

  -- In a database where no candidate was DRAFT, RISK_CHECKING or APPROVED, none is after any list
  -- of requests to the four handlers, answered or refused, wherever in the service an error comes
  -- up. So a call of the real-order executor then finds no candidate, or one that is not approved:
  -- it is blocked and leaves the session as it was.
  pub after_posts-blocked :
      (qs : List Request) (s : Session)
      → Settled s
      → let t = after_posts qs s in
        Settled t
        × ((execute sha256 e settings i t
              ≡ (ok (blocked_result candidate_not_found settings.real_order_dry_run none), t))
            ⊎ (execute sha256 e settings i t
                ≡ (ok (blocked_result not_approved settings.real_order_dry_run none), t)))
  after_posts-blocked qs s h =
      let k = after_posts-Settled qs s h in (k, execute-blocked (after_posts qs s) k)
