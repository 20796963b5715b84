-- ===== src/Executor/Gates.antt =====
-- What an attempt went through before it placed an order.
use stock_ai_platform.Base.{
  ℕ, ◌≡◌, refl, ap, true, false, Option, none, some, arith, inl, inr, ◌⊎◌, Bool-cases, Option-cases,
  if◌then◌else◌, Text, find, ◌==◌,
}
use stock_ai_platform.Base.Decimal.{of_ℕ, add, less}
use stock_ai_platform.Store.{
  CandidateStatus, same_status, OrderCandidate, Settings, Session, Result, ok,
}
use stock_ai_platform.RealOrder
use stock_ai_platform.Risk.{evaluate}
use stock_ai_platform.Executor.Words.{
  ExecutorResult, RealOrderExecutor, BlockedReason, candidate_not_found, not_approved,
  duplicate_real_order, already_executed,
}
use stock_ai_platform.Executor.Run.{
  shut_gate, attempt, dispatch, execute, today_real_order_total, blocked_result, map_id,
}

-- The nine gates in front of the branch, all open.
pub record Open (settings : Settings) (i : ℕ) (c : OrderCandidate) (s : Session) : Type 0 where
  pub found : find (λ r. r.id == i) s.candidates ≡ some c
  pub approved : c.status ≡ CandidateStatus.approved
  pub fresh : RealOrder.exists_non_failed_for_candidate i s ≡ false
  pub kill_switch : settings.kill_switch_enabled ≡ false
  pub safety : settings.trading_safety_enabled ≡ true
  pub real_trading : settings.real_trading_enabled ≡ true
  pub kis_order : settings.kis_order_enabled ≡ true
  pub order_cap : less (of_ℕ settings.max_real_order_amount) c.estimated_amount ≡ false
  pub daily_cap :
      less
        (of_ℕ settings.max_real_daily_order_amount)
        (add (today_real_order_total s c.account_id) c.estimated_amount)
      ≡ false
  pub risk : (evaluate settings s c s.clock).passed ≡ true

shut_gate-Open :
    (settings : Settings) (i : ℕ) (c : OrderCandidate) (s : Session)
    → find (λ r. r.id == i) s.candidates ≡ some c
    → same_status c.status CandidateStatus.approved ≡ true
    → RealOrder.exists_non_failed_for_candidate i s ≡ false
    → shut_gate settings s c ≡ none
    → Open settings i c s
unfolding shut_gate
shut_gate-Open settings i c s found approved fresh h = ground arith

Open-shut_gate :
    (settings : Settings) (i : ℕ) (c : OrderCandidate) (s : Session)
    → Open settings i c s
    → shut_gate settings s c ≡ none
unfolding shut_gate
Open-shut_gate settings i c s o =
    let k = o.kill_switch in
    let t = o.safety in
    let r = o.real_trading in
    let a = o.kis_order in
    let p = o.order_cap in let d = o.daily_cap in let v = o.risk in ground arith

module _ (sha256 : Text → Text) (e : RealOrderExecutor) (settings : Settings) (i : ℕ)
    (s : Session) where
  -- A call that a gate stopped: the session is as it was.
  abbrev pub Stopped : Result ExecutorResult × Session → Type 0
  Stopped out =
      (reason : BlockedReason) × (order : Option ℕ) × (out
        ≡ (ok (blocked_result reason settings.real_order_dry_run order), s))

  -- A call is stopped at a gate, or it found the gates open and goes on with the branch.
  pub execute-cases :
      Stopped (execute sha256 e settings i s)
      ⊎ ((c : OrderCandidate) × Open settings i c s
          × (execute sha256 e settings i s ≡ dispatch sha256 e settings c s))
  unfolding execute attempt
  execute-cases = elim (Option-cases (find (λ r. r.id == i) s.candidates)) [
    | inl missing ↦ inl (candidate_not_found, none, rw (execute, missing) refl)
    | inr (c, found) ↦ elim (Bool-cases (same_status c.status CandidateStatus.approved)) [
      | inl approved ↦ elim (Bool-cases (RealOrder.exists_non_failed_for_candidate i s)) [
        | inl taken ↦ inl (
          if settings.real_order_dry_run then already_executed else duplicate_real_order,
          map_id (find (λ o. RealOrder.is_active o.status) (RealOrder.get_by_candidate_id i s)),
          rw (execute, attempt, found, approved, taken) refl,
        )
        | inr fresh ↦ elim (Option-cases (shut_gate settings s c)) [
          | inl opened ↦ inr (
            c,
            shut_gate-Open settings i c s found approved fresh opened,
            rw (execute, attempt, found, approved, fresh, opened) refl,
          )
          | inr (reason, shut) ↦
              inl (reason, none, rw (execute, attempt, found, approved, fresh, shut) refl)
        ]
      ]
      | inr unapproved ↦ inl (not_approved, none, rw (execute, attempt, found, unapproved) refl)
    ]
  ]

  -- A call with open gates goes on with the branch.
  pub Open-dispatch :
      (c : OrderCandidate)
      → Open settings i c s
      → execute sha256 e settings i s ≡ dispatch sha256 e settings c s
  unfolding execute attempt
  Open-dispatch c o =
      let shut = Open-shut_gate settings i c s o in
      let approved : same_status c.status CandidateStatus.approved ≡ true =
        ap (λ w. same_status w CandidateStatus.approved) o.approved in
      rw (execute, attempt, o.found, approved, o.fresh, shut) refl
