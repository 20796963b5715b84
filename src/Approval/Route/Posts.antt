-- ===== src/Approval/Route/Posts.antt =====
-- Requests to the four handlers, one after the other.
use stock_ai_platform.Base.{
  ℕ, Bool, true, false, Option, none, some, List, [], ◌∷◌, Text, if◌then◌else◌,
}
use stock_ai_platform.Store.{Session, Settings, Result, ok, err, Action}
use stock_ai_platform.Store.Triple.{Triple, Post}
use stock_ai_platform.Approval.{
  ApprovalActor, CreateRequest, create_candidate, approve, reject, expire,
}
use stock_ai_platform.Approval.Settled.{Settled, Dropped}
use stock_ai_platform.Approval.Settling.{create_candidate-Settled}
use stock_ai_platform.Approval.Resting.{approve-Settled, reject-Settled, expire-Settled}
use stock_ai_platform.Approval.Route.{
  Reply, answered, unavailable, failed, committed, create_on, resolve_account_id, post_candidate,
  post_approve, post_reject, post_expire,
}

-- A request to one of the handlers, with the settings and the time at which it comes in.
pub data Request : Type 0 where
  creation : Settings → Option ℕ → CreateRequest → ApprovalActor → ℕ → Request
  approval : Settings → ℕ → ApprovalActor → ℕ → Request
  rejection : Settings → ℕ → ApprovalActor → Text → Request
  expiry : Settings → ℕ → ApprovalActor → Request

-- The database after the reply.
unfoldable pub after_post : Request → Session → Session
after_post (creation settings requested r actor now) s =
    (post_candidate settings requested r actor now s).1
after_post (approval settings i actor now) s = (post_approve settings i actor now s).1
after_post (rejection settings i actor reason) s = (post_reject settings i actor reason s).1
after_post (expiry settings i actor) s = (post_expire settings i actor s).1

unfoldable pub after_posts : List Request → Session → Session
unfolding after_post
after_posts [] s = s
after_posts (q ∷ qs) s = after_posts qs (after_post q s)

module _ (P : Session → Type 0) where
  -- What an action keeps where it returns, the handler keeps.
  pub committed-Keeps :
      {A : Type 0} (m : Action A) (s : Session)
      → Triple P (λ _. P) Dropped m
      → P s
      → P (committed m s).1
  committed-Keeps {A} m s k h = go (m s) (k.at s h)
    where
      go :
          (r : Result A × Session)
          → Post (λ _. P) Dropped r
          → P
              (elim r.0 as (λ _. Reply A × Session) [
                | ok a ↦ (answered a, r.1)
                | err e ↦ (failed e, s)
              ]).1
      go (ok a, t) p = p
      go (err e, t) p = h

  pub if_open-Keeps :
      {A : Type 0} (b : Bool) (s : Session) (next : Reply A × Session)
      → P s
      → P next.1
      → P (if b then (unavailable, s) else next).1
  if_open-Keeps true s next h k = h
  if_open-Keeps false s next h k = k

create_on-Settled :
    (settings : Settings) (r : CreateRequest) (actor : ApprovalActor) (now : ℕ) (s : Session)
    (o : Option ℕ)
    → Settled s
    → Settled (create_on settings r actor now s o).1
create_on-Settled settings r actor now s none h = h
create_on-Settled settings r actor now s (some account) h =
    let r' = record r { account_id = account } in
    committed-Keeps Settled (create_candidate settings r' actor now) s
      (create_candidate-Settled settings r' actor now) h

after_post-Settled : (q : Request) (s : Session) → Settled s → Settled (after_post q s)
unfolding after_post post_candidate post_approve post_reject post_expire
after_post-Settled (creation settings requested r actor now) s h =
    if_open-Keeps Settled _ s _ h
      (create_on-Settled settings r actor now s (resolve_account_id s requested actor.user_id) h)
after_post-Settled (approval settings i actor now) s h = if_open-Keeps Settled _ s _ h (
    committed-Keeps Settled (approve settings i actor now) s (approve-Settled settings i actor now)
      h)
after_post-Settled (rejection settings i actor reason) s h = if_open-Keeps Settled _ s _ h (
    committed-Keeps Settled (reject settings i actor reason) s
      (reject-Settled settings i actor reason) h)
after_post-Settled (expiry settings i actor) s h =
    if_open-Keeps Settled _ s _ h
      (committed-Keeps Settled (expire i actor) s (expire-Settled i actor) h)

-- However many requests come to the four handlers, answered or refused, and wherever in the
-- service an error comes up: if no stored candidate was DRAFT, RISK_CHECKING or APPROVED before
-- them, none is after them.
pub after_posts-Settled : (qs : List Request) (s : Session) → Settled s → Settled (after_posts qs s)
unfolding after_posts
after_posts-Settled [] s h = h
after_posts-Settled (q ∷ qs) s h =
    after_posts-Settled qs (after_post q s) (after_post-Settled q s h)
