-- ===== src/Approval/Route.antt =====
-- The mutating handlers of app/api/approval_routes.py over the session that app/db/session.py
-- opens: it is committed when the service returned, and closed without a commit when an
-- HTTPException goes out. The status code of a service's error is left out, since the handlers
-- read it off the message. The caller has been authenticated.
pub mod Commit
pub mod Posts
pub mod Frozen
use stock_ai_platform.Base.{
  ℕ, not, ◌||◌, Option, none, some, List, [], ◌∷◌, Text, if◌then◌else◌, find, select,
}
use stock_ai_platform.Store.{
  OrderCandidate, VirtualAccount, Session, Settings, Error, Result, ok, err, Action,
}
use stock_ai_platform.Account
use stock_ai_platform.Approval.{
  ApprovalActor, CreateRequest, CreateCandidateResult, create_candidate, ApproveResult, approve,
  reject, expire,
}

-- The answer, one of the two 503 gates, a missing account, or an exception of the service.
pub data Reply (A : Type 0) : Type 0 where
  answered : A → Reply A
  unavailable : Reply A
  account_not_found : Reply A
  failed : Error → Reply A

-- `session.commit()` after a call that returned; otherwise what it wrote is dropped.
abbrev pub committed : {A : Type 0} → Action A → Session → Reply A × Session
committed m s = let (r, t) = m s in elim r [ ok a ↦ (answered a, t) | err e ↦ (failed e, s) ]

-- `_require_trading_safety_enabled` and `_require_kill_switch_off`, in this order.
abbrev pub gated : {A : Type 0} → Settings → Session → Reply A × Session → Reply A × Session
gated settings s next =
    if not settings.trading_safety_enabled || settings.kill_switch_enabled
    then (unavailable, s)
    else next

abbrev pub first_of : List VirtualAccount → List VirtualAccount → Option ℕ
first_of (a ∷ rest) _ = some a.id
first_of [] (a ∷ rest) = some a.id
first_of [] [] = none

abbrev pub id_of : Option VirtualAccount → Option ℕ
id_of none = none
id_of (some a) = some a.id

-- `_resolve_account_id`; none is its 404.
unfoldable pub resolve_account_id : Session → Option ℕ → Option ℕ → Option ℕ
resolve_account_id s (some requested) user = id_of (find (Account.has_id requested) s.accounts)
resolve_account_id s none user =
    first_of (select (λ a. Account.same_user a.user_id user) s.accounts)
      (select (λ a. Account.same_user a.user_id none) s.accounts)

abbrev pub create_on :
    Settings
    → CreateRequest
    → ApprovalActor
    → ℕ
    → Session
    → Option ℕ
    → Reply CreateCandidateResult × Session
create_on settings r actor now s none = (account_not_found, s)
create_on settings r actor now s (some account) =
    committed (create_candidate settings (record r { account_id = account }) actor now) s

-- The account of `r` is replaced by the resolved one.
unfoldable pub post_candidate :
    Settings
    → Option ℕ
    → CreateRequest
    → ApprovalActor
    → ℕ
    → Session
    → Reply CreateCandidateResult × Session
unfolding resolve_account_id create_candidate
post_candidate settings requested r actor now s =
    gated settings s
      (create_on settings r actor now s (resolve_account_id s requested actor.user_id))

unfoldable pub post_approve :
    Settings → ℕ → ApprovalActor → ℕ → Session → Reply ApproveResult × Session
unfolding approve
post_approve settings i actor now s = gated settings s (committed (approve settings i actor now) s)

unfoldable pub post_reject :
    Settings → ℕ → ApprovalActor → Text → Session → Reply OrderCandidate × Session
unfolding reject
post_reject settings i actor reason s =
    gated settings s (committed (reject settings i actor reason) s)

-- The kill switch is not asked here.
unfoldable pub post_expire : Settings → ℕ → ApprovalActor → Session → Reply OrderCandidate × Session
unfolding expire
post_expire settings i actor s =
    if not settings.trading_safety_enabled then (unavailable, s) else committed (expire i actor) s
