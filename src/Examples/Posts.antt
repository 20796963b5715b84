-- ===== src/Examples/Posts.antt =====
-- Requests to the handlers of the approval routes at concrete rows.
use stock_ai_platform.Base.{◌≡◌, ◌⊎◌, refl, none, some, List, [], ◌∷◌, ◌++◌, Text, codes}
use stock_ai_platform.Store.{ok}
use stock_ai_platform.Approval.Settled.{Settled}
use stock_ai_platform.Approval.Route.Posts.{
  Request, creation, approval, rejection, expiry, after_posts,
}
use stock_ai_platform.Approval.Route.Frozen.{Frozen, after_posts-Frozen}
use stock_ai_platform.Kis.{fake}
use stock_ai_platform.Executor.{
  RealOrderExecutor, candidate_not_found, not_approved, blocked_result, execute,
}
use stock_ai_platform.Executor.Unreached.{after_posts-blocked}
use stock_ai_platform.Examples.Data.{enabled, strict, killed, now, actor, request, pending_session}

-- One candidate is refused and granted in turn, another one created and rejected.
abbrev day : List Request
day =
    approval strict 1 actor now
    ∷ approval enabled 1 actor now
    ∷ creation enabled (some 1) request actor now
    ∷ rejection enabled 2 actor (codes "no")
    ∷ []

abbrev broker : RealOrderExecutor
broker = record { transport = fake; real_transport_factory = none }

abbrev doubled : Text → Text
doubled t = t ++ t

after_posts-blocked_example :
    Settled (after_posts day pending_session)
    × ((execute doubled broker enabled 1 (after_posts day pending_session) ≡ (
      ok (blocked_result candidate_not_found enabled.real_order_dry_run none),
      after_posts day pending_session,
    ))
        ⊎ (execute doubled broker enabled 1 (after_posts day pending_session) ≡ (
          ok (blocked_result not_approved enabled.real_order_dry_run none),
          after_posts day pending_session,
        )))
after_posts-blocked_example =
    after_posts-blocked doubled broker enabled 1 day pending_session (refl, tt)

-- While the kill switch is on, an approval and a creation come in, and the candidate expires.
abbrev blocked_day : List Request
blocked_day =
    approval killed 1 actor now
    ∷ creation killed (some 1) request actor now
    ∷ expiry killed 1 actor
    ∷ []

after_posts-Frozen_example : Frozen pending_session (after_posts blocked_day pending_session)
after_posts-Frozen_example =
    after_posts-Frozen blocked_day pending_session (refl, (refl, (refl, tt)))
