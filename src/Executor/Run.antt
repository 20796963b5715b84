-- ===== src/Executor/Run.antt =====
-- `RealOrderExecutor.execute`: the gates in their order, then the branch.
use stock_ai_platform.Base.{
  ℕ, ◌+◌, ◌*◌, Bool, false, not, ◌&&◌, Option, none, some, List, [], ◌∷◌, ltb, leb, ◌==◌,
  if◌then◌else◌, Text, find, select,
}
use stock_ai_platform.Base.Decimal.{Decimal, zero_dec, of_ℕ, add, less}
use stock_ai_platform.Store.{
  CandidateStatus, same_status, OrderCandidate, RealOrder, Settings, Session, Action, pure, ok,
}
use stock_ai_platform.RealOrder
use stock_ai_platform.Kis.{Transport, fake, real}
use stock_ai_platform.Risk.{evaluate}
use stock_ai_platform.Risk.Rules.{day_length, kst_offset, kst_date}
use stock_ai_platform.Executor.Words.{
  BlockedReason, candidate_not_found, not_approved, duplicate_real_order, already_executed,
  kill_switch_on, trading_safety_disabled, real_trading_disabled, kis_order_disabled,
  amount_exceeds_per_order_cap, amount_exceeds_daily_cap, risk_rejected, transport_unavailable,
  blocked, ExecutorResult, RealOrderExecutor,
}
use stock_ai_platform.Executor.Place.{execute_dry_run, execute_real}

-- A real order of the account's, created on the Korean day, that has not failed.
abbrev pub of_account : ℕ → List OrderCandidate → RealOrder → Bool
of_account account candidates o = elim (find (λ c. c.id == o.candidate_id) candidates) [
  | none ↦ false
  | some c ↦ c.account_id == account
]

abbrev pub on_day : ℕ → RealOrder → Bool
on_day date o =
    leb (date * day_length) (o.created_at + kst_offset)
    && ltb (o.created_at + kst_offset) (date * day_length + day_length)

unfoldable pub sum_estimated : List RealOrder → Decimal
sum_estimated [] = zero_dec
sum_estimated (o ∷ os) = add o.estimated_amount (sum_estimated os)

unfoldable pub today_real_order_total : Session → ℕ → Decimal
unfolding sum_estimated kst_date
today_real_order_total s account = sum_estimated (
    select
      (λ o.
        of_account account s.candidates o
        && (on_day (kst_date s.clock) o && RealOrder.is_active o.status))
      s.real_orders)

-- Gates 3 to 9: the reason of the first that is shut.
unfoldable pub shut_gate : Settings → Session → OrderCandidate → Option BlockedReason
unfolding today_real_order_total evaluate less
shut_gate settings s c =
    if settings.kill_switch_enabled
    then some kill_switch_on
    else if not settings.trading_safety_enabled
    then some trading_safety_disabled
    else if not settings.real_trading_enabled
    then some real_trading_disabled
    else if not settings.kis_order_enabled
    then some kis_order_disabled
    else if less (of_ℕ settings.max_real_order_amount) c.estimated_amount
    then some amount_exceeds_per_order_cap
    else if less (of_ℕ settings.max_real_daily_order_amount)
        (add (today_real_order_total s c.account_id) c.estimated_amount)
    then some amount_exceeds_daily_cap
    else if not (evaluate settings s c s.clock).passed
    then some risk_rejected
    else none

abbrev pub blocked_result : BlockedReason → Bool → Option ℕ → ExecutorResult
blocked_result reason is_dry order = record {
  success = false;
  dry_run = is_dry;
  blocked_reason = some reason;
  real_order_id = order;
  status = blocked;
}

-- `_resolve_real_transport`
abbrev pub not_fake : Transport → Option Transport
not_fake fake = none
not_fake (real t) = some (real t)

unfoldable pub resolve_real_transport : RealOrderExecutor → Settings → Option Transport
resolve_real_transport e settings = elim e.real_transport_factory [
  | none ↦ not_fake e.transport
  | some build ↦ elim (build settings) [ none ↦ none | some t ↦ not_fake t ]
]

abbrev pub map_id : Option RealOrder → Option ℕ
map_id none = none
map_id (some o) = some o.id

module _ (sha256 : Text → Text) where
  -- After the nine gates: the dry run, or gate 10 and the real placement.
  unfoldable pub dispatch : RealOrderExecutor → Settings → OrderCandidate → Action ExecutorResult
  unfolding execute_dry_run execute_real resolve_real_transport
  dispatch e settings c =
      if settings.real_order_dry_run
      then execute_dry_run sha256 e c
      else elim (resolve_real_transport e settings) [
        | none ↦ pure (blocked_result transport_unavailable false none)
        | some t ↦ execute_real sha256 settings t c
      ]

  -- Gates 1 and 2 in front of them, for the candidate that was found.
  unfoldable pub attempt : RealOrderExecutor → Settings → ℕ → OrderCandidate → Action ExecutorResult
  unfolding RealOrder.exists_non_failed_for_candidate RealOrder.get_by_candidate_id shut_gate
      dispatch
  attempt e settings i c s =
      if not (same_status c.status CandidateStatus.approved)
      then (ok (blocked_result not_approved settings.real_order_dry_run none), s)
      else if RealOrder.exists_non_failed_for_candidate i s
      then (
        ok (
            blocked_result
              (if settings.real_order_dry_run then already_executed else duplicate_real_order)
              settings.real_order_dry_run
              (map_id
                (find (λ o. RealOrder.is_active o.status) (RealOrder.get_by_candidate_id i s)))),
        s,
      )
      else elim (shut_gate settings s c) [
        | some reason ↦ (ok (blocked_result reason settings.real_order_dry_run none), s)
        | none ↦ dispatch e settings c s
      ]

  unfoldable pub execute : RealOrderExecutor → Settings → ℕ → Action ExecutorResult
  unfolding attempt
  execute e settings i s = elim (find (λ c. c.id == i) s.candidates) [
    | none ↦ (ok (blocked_result candidate_not_found settings.real_order_dry_run none), s)
    | some c ↦ attempt e settings i c s
  ]
