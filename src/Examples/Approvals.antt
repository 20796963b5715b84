-- ===== src/Examples/Approvals.antt =====
-- The approval workflow, the candidates, the risk engine and the trail at concrete rows.
use stock_ai_platform.Base.{
  ◌≡◌, refl, true, false, none, some, List, [], ◌∷◌, arith, find, length, ◌≤◌, ◌==◌, ◌↔◌, codes,
  strip, eq_text,
}
use stock_ai_platform.Base.Decimal.{Le, less, at_most, of_ℕ, add, div, neg, Positive}
use stock_ai_platform.Store.{
  draft, risk_checking, pending_approval, CandidateStatus, Session, ok, err, kill_switch_blocked,
  approval_denied, invalid_candidate_transition, parse_side, parse_order_type, is_ok, Result,
  OrderCandidate, VirtualAccount,
}
use stock_ai_platform.Account
use stock_ai_platform.Candidate.{update_status}
use stock_ai_platform.Candidate.Machine.{
  Edge, Change, run_updates, targets, update_status-Edge_iff, executed_only_through_approval,
  updates_bounded,
}
use stock_ai_platform.Risk.{evaluate, is_clean}
use stock_ai_platform.Risk.Rules.{
  active_symbol_amount, active_daily_amount, kst_date, is_duplicate, estimate_total_account_value,
  estimate_position_market_value, check_account_paper_enabled, check_kill_switch_off,
  check_per_symbol_limit, check_daily_total_limit, check_position_ratio_limit,
  check_daily_loss_limit, check_duplicate_recent,
}
use stock_ai_platform.Risk.Verdict.{evaluate-passed, evaluate-ratio, evaluate-loss}
use stock_ai_platform.Risk.Report.{Ordered, evaluate-Ordered}
use stock_ai_platform.Approval.{ApproveResult, approve, reject, format_violations}
use stock_ai_platform.Approval.Frame.{Framed}
use stock_ai_platform.Approval.Requests.{
  Request, creation, approval, rejection, expiry, after_all, after_all-Framed,
}
use stock_ai_platform.Approval.Outcome.{denied_session, approve-recheck_failed}
use stock_ai_platform.Approval.Gates.{blocked_event, with_event, kill_switch-blocks}
use stock_ai_platform.Approval.Granted.{Granted, approve-Granted}
use stock_ai_platform.Approval.Key.{order_request-key, format_violations-fits}
use stock_ai_platform.Approval.Route.{failed, post_approve}
use stock_ai_platform.Approval.Route.Commit.{post_approve-denial_lost}
use stock_ai_platform.Examples.Data.{
  now, enabled, strict, killed, account, row_with, candidate, snapshot, session_of, pending_session,
  actor, request,
}

-- What a result holds, or a default where it is an error.
abbrev value_or : {A : Type 0} → A → Result A → A
value_or d (ok a) = a
value_or d (err e) = d

unfoldable granted : Result ApproveResult × Session
unfolding approve
granted = approve enabled 1 actor now pending_session

abbrev granted_result : ApproveResult
granted_result =
    value_or
      (record {
        candidate = candidate;
        virtual_order_id = 0;
        risk_result = evaluate enabled pending_session candidate now;
      })
      granted.0

granted_runs : approve enabled 1 actor now pending_session ≡ (ok granted_result, granted.1)
unfolding granted approve check_account_paper_enabled check_kill_switch_off check_per_symbol_limit
    less add check_daily_total_limit check_position_ratio_limit at_most div check_daily_loss_limit
    neg check_duplicate_recent parse_side parse_order_type strip
granted_runs = refl

approve-Granted_example :
    (enabled.trading_safety_enabled ≡ true)
    × (enabled.kill_switch_enabled ≡ false)
    × ((c : OrderCandidate) × (find (λ r. r.id == 1) pending_session.candidates ≡ some c)
        × (c.status ≡ pending_approval)
        × ((evaluate enabled pending_session c now).passed ≡ true)
        × Granted c.id (evaluate enabled pending_session c now) granted_result)
approve-Granted_example =
    approve-Granted enabled 1 actor now pending_session granted_result granted.1 granted_runs

approve-recheck_failed_example : approve strict 1 actor now pending_session ≡ (
  err approval_denied,
  denied_session candidate (evaluate strict pending_session candidate now) actor pending_session,
)
unfolding evaluate check_account_paper_enabled check_per_symbol_limit less add check_kill_switch_off
approve-recheck_failed_example =
    approve-recheck_failed strict 1 candidate actor now pending_session refl refl refl refl
      (omega arith, tt) refl

kill_switch-blocks_example :
    (approve killed 1 actor now pending_session
      ≡ (err kill_switch_blocked, with_event (blocked_event candidate actor) pending_session))
    × (reject killed 1 actor (codes "no") pending_session
        ≡ (err kill_switch_blocked, with_event (blocked_event candidate actor) pending_session))
kill_switch-blocks_example =
    kill_switch-blocks killed 1 candidate actor now (codes "no") pending_session refl refl refl refl
      (omega arith, tt)

post_approve-denial_lost_example :
    (approve strict 1 actor now pending_session ≡ (
      err approval_denied,
      denied_session candidate
          (evaluate strict pending_session candidate now)
          actor
          pending_session,
    ))
    × (post_approve strict 1 actor now pending_session ≡ (failed approval_denied, pending_session))
unfolding evaluate check_account_paper_enabled check_per_symbol_limit less add check_kill_switch_off
post_approve-denial_lost_example =
    post_approve-denial_lost strict 1 candidate actor now pending_session refl refl refl refl
      (omega arith, tt) refl

abbrev requests : List Request
requests =
    approval enabled 1 actor now
    ∷ rejection enabled 1 actor (codes "no")
    ∷ creation enabled request actor now
    ∷ expiry 2 actor
    ∷ []

after_all-Framed_example : Framed pending_session (after_all requests pending_session)
after_all-Framed_example = after_all-Framed requests pending_session

order_request-key_example : candidate.id ≡ (row_with draft).id
order_request-key_example = order_request-key candidate (row_with draft) refl

format_violations-fits_example :
    length (format_violations (evaluate strict pending_session candidate now)) ≤ 256
format_violations-fits_example = format_violations-fits strict pending_session candidate now

evaluate-passed_example :
    ((a : VirtualAccount) × (find (Account.has_id candidate.account_id) pending_session.accounts
        ≡ some a)
      × (a.paper_trading_enabled ≡ true))
    × (enabled.kill_switch_enabled ≡ false)
    × Le
        (add (active_symbol_amount pending_session candidate) candidate.estimated_amount)
        (of_ℕ enabled.max_order_amount)
    × Le
        (add
          (active_daily_amount pending_session candidate (kst_date now))
          candidate.estimated_amount)
        (of_ℕ enabled.max_daily_order_amount)
    × (find (is_duplicate candidate now) pending_session.candidates ≡ none)
unfolding evaluate check_account_paper_enabled check_kill_switch_off check_per_symbol_limit less add
    check_daily_total_limit check_position_ratio_limit at_most div check_daily_loss_limit neg
    check_duplicate_recent eq_text
evaluate-passed_example = evaluate-passed enabled pending_session candidate now refl

evaluate-ratio_example :
    Positive (estimate_total_account_value pending_session account)
    × Le
        (div
          (add
            (estimate_position_market_value pending_session account.id candidate.symbol)
            candidate.estimated_amount)
          (estimate_total_account_value pending_session account))
        enabled.max_position_ratio
unfolding evaluate check_account_paper_enabled check_kill_switch_off check_per_symbol_limit less add
    check_daily_total_limit check_position_ratio_limit at_most div check_daily_loss_limit neg
    check_duplicate_recent eq_text
evaluate-ratio_example = evaluate-ratio enabled pending_session candidate now account refl refl refl

evaluate-loss_example : Le (neg (of_ℕ enabled.max_daily_loss_amount)) snapshot.realized_pnl
unfolding evaluate check_account_paper_enabled check_kill_switch_off check_per_symbol_limit less add
    check_daily_total_limit check_position_ratio_limit at_most div check_daily_loss_limit neg
    check_duplicate_recent eq_text
evaluate-loss_example = evaluate-loss enabled pending_session candidate now snapshot refl refl

evaluate-Ordered_example :
    Ordered 0 (evaluate strict pending_session candidate now).violations
    × ((evaluate strict pending_session candidate now).passed
        ≡ is_clean (evaluate strict pending_session candidate now).violations)
evaluate-Ordered_example = evaluate-Ordered strict pending_session candidate now

update_status-Edge_iff_example :
    ((is_ok (update_status candidate CandidateStatus.executed_paper none none pending_session).0
        ≡ true)
      ↔ Edge pending_approval CandidateStatus.executed_paper)
    × (¬ Edge pending_approval CandidateStatus.executed_paper
        → update_status candidate CandidateStatus.executed_paper none none pending_session
          ≡ (err invalid_candidate_transition, pending_session))
update_status-Edge_iff_example =
    update_status-Edge_iff candidate CandidateStatus.executed_paper none none pending_session

abbrev change : CandidateStatus → Change
change w = record { target = w; reason = none; user = none }

abbrev whole_way : List Change
whole_way =
    change risk_checking
    ∷ change pending_approval
    ∷ change CandidateStatus.approved
    ∷ change CandidateStatus.executed_paper
    ∷ []

abbrev draft_session : Session
draft_session = session_of (row_with draft ∷ [])

unfoldable walked : Result OrderCandidate × Session
unfolding run_updates
walked = run_updates whole_way (row_with draft) draft_session

abbrev walked_row : OrderCandidate
walked_row = value_or candidate walked.0

walked_runs : run_updates whole_way (row_with draft) draft_session ≡ (ok walked_row, walked.1)
unfolding walked run_updates update_status
walked_runs = refl

executed_only_through_approval_example :
    targets whole_way
    ≡ risk_checking ∷ pending_approval ∷ CandidateStatus.approved ∷ CandidateStatus.executed_paper
      ∷ []
unfolding walked run_updates update_status
executed_only_through_approval_example =
    executed_only_through_approval whole_way (row_with draft) draft_session walked_row walked.1
      walked_runs refl refl

updates_bounded_example : length (targets whole_way) ≤ 4
updates_bounded_example =
    updates_bounded whole_way (row_with draft) draft_session walked_row walked.1 walked_runs
