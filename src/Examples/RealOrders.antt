-- ===== src/Examples/RealOrders.antt =====
-- Real orders: the executor, its messages and the fill sync at concrete rows and transports.
use stock_ai_platform.Base.{
  ℕ, List, ◌≡◌, refl, true, false, some, none, [], ◌∷◌, ◌++◌, ◌⊎◌, codes, pos, Text, All, ◌≤ℤ◌,
  arith, eq_text, take, strip, upper,
}
use stock_ai_platform.Base.Decimal.{of_ℕ, add, less, at_most, div, neg}
use stock_ai_platform.Store.{
  buy, market, CandidateStatus, RealOrderStatus, OrderCandidate, RealOrder, Session, Settings,
  is_ok,
}
use stock_ai_platform.Risk.{evaluate}
use stock_ai_platform.Risk.Rules.{
  check_account_paper_enabled, check_kill_switch_off, check_per_symbol_limit,
  check_daily_total_limit, check_position_ratio_limit, check_daily_loss_limit,
  check_duplicate_recent,
}
use stock_ai_platform.RealOrder
use stock_ai_platform.RealOrder.Fill
use stock_ai_platform.Kis.{fake, real, RealTransport, KisFillStatusResult, BrokerStatus}
use stock_ai_platform.Executor.{RealOrderExecutor, execute, scrub, today_real_order_total}
use stock_ai_platform.Executor.Gates.{Open}
use stock_ai_platform.Executor.Anchor.{request_of}
use stock_ai_platform.Executor.Classify.{classify_place_message-placement_text}
use stock_ai_platform.Executor.Safe.{execute-sent, dry_run-sends}
use stock_ai_platform.Executor.Once.{Single}
use stock_ai_platform.RealOrder.Single.{SingleRows-empty}
use stock_ai_platform.RealTrading.{Call, execute_call, sync_call, after_calls, after_calls-Single}
use stock_ai_platform.Executor.Scrubbed.{scrub-Clean}
use stock_ai_platform.Executor.Outcome.{Stands, ended, placed_result}
use stock_ai_platform.Executor.Ends.{execute-Stands}
use stock_ai_platform.Executor.{
  Placement, before_colon, placement_text, classify_place_message, resolve_real_transport,
}
use stock_ai_platform.Store.{ok}
use stock_ai_platform.Kis.{KisOrderResult}
use stock_ai_platform.FillSync.{sync_fills}
use stock_ai_platform.FillSync.Counter.{Progress, advance}
use stock_ai_platform.FillSync.Refines.{Holds, answer_to, sync_fills-Holds}
use stock_ai_platform.FillSync.Sequence.{
  SyncCall, sync_all, answers, advance_all, Within, sync_all-refines, sync_fills-again,
  sync_all-within,
}
use stock_ai_platform.FillSync.Route.{post_sync, post_sync-fills}
use stock_ai_platform.Examples.Data.{enabled, row_with, session_of}

-- A digest to run with.
abbrev digest : Text → Text
digest t = t ++ t

abbrev half_filled : KisFillStatusResult
half_filled = record {
  success = true;
  order_no = codes "77";
  filled_quantity = pos 2;
  remaining_quantity = pos 1;
  status = BrokerStatus.partially_filled;
  message = codes "PARTIAL";
}

-- A broker that takes every order and reports two shares filled.
abbrev broker : RealTransport
broker = record {
  answer_order = λ log r.
      some (record { success = true; order_no = codes "77"; message = codes "SUBMITTED: ok" });
  answer_fill_status = λ log ref. some half_filled;
}

abbrev live : RealOrderExecutor
live = record { transport = real broker; real_transport_factory = none }

abbrev approved : OrderCandidate
approved = row_with CandidateStatus.approved

abbrev approved_session : Session
approved_session = session_of (approved ∷ [])

abbrev dry : Settings
dry = record enabled { real_order_dry_run = true }

execute-sent_example :
    ((execute digest live enabled 1 approved_session).1.sent ≡ approved_session.sent)
    ⊎ ((c : OrderCandidate) × Open enabled 1 c approved_session
        × (enabled.real_order_dry_run ≡ false)
        × ((execute digest live enabled 1 approved_session).1.sent
            ≡ approved_session.sent ++ request_of c enabled.kis_account_no ∷ []))
execute-sent_example = execute-sent digest live enabled 1 approved_session tt (λ d. cc)

opened : Open dry 1 approved approved_session
unfolding evaluate check_account_paper_enabled check_kill_switch_off check_per_symbol_limit less add
    check_daily_total_limit check_position_ratio_limit at_most div check_daily_loss_limit neg
    check_duplicate_recent eq_text RealOrder.exists_non_failed_for_candidate today_real_order_total
opened = record {
  found = refl;
  approved = refl;
  fresh = refl;
  kill_switch = refl;
  safety = refl;
  real_trading = refl;
  kis_order = refl;
  order_cap = refl;
  daily_cap = refl;
  risk = refl;
}

dry_run-sends_example :
    (execute digest live dry 1 approved_session).1.sent
    ≡ approved_session.sent ++ request_of approved (codes "DRY_RUN") ∷ []
dry_run-sends_example =
    dry_run-sends digest live dry 1 approved_session tt broker approved refl refl opened refl refl

abbrev calls : List (Call × ℕ)
calls =
    (execute_call live enabled 1, 1700000000000000)
    ∷ (sync_call (real broker) 1 none, 1700000001000000)
    ∷ (execute_call live enabled 1, 1700000002000000)
    ∷ []

after_calls-Single_example : Single (after_calls digest calls approved_session)
after_calls-Single_example = after_calls-Single digest calls approved_session (SingleRows-empty 1)

scrub-Clean_example :
    RealOrder.bad_message (take 500 (scrub (codes "REJECTED: bad API_KEY aapi_keypi_key"))) ≡ false
scrub-Clean_example = scrub-Clean (codes "REJECTED: bad API_KEY aapi_keypi_key") 500

abbrev submitted_order : RealOrder
submitted_order = record {
  id = 1;
  candidate_id = 1;
  symbol = codes "005930";
  side = buy;
  quantity = pos 3;
  order_type = market;
  limit_price = none;
  estimated_amount = of_ℕ 210000;
  status = RealOrderStatus.submitted;
  dry_run = false;
  fake_order_no = none;
  broker_order_no_hash = some (codes "77");
  request_id = none;
  error_code = none;
  error_message = none;
  submitted_at = some 1699999999000000;
  created_at = 1699999999000000;
  updated_at = 1699999999000000;
}

abbrev submitted_session : Session
submitted_session = record approved_session {
  real_orders = submitted_order ∷ [];
  next_real_order = 2;
}

abbrev begun : Progress
begun = record { status = RealOrderStatus.submitted; filled = pos 0 }

submitted_session-Holds : Holds 1 (pos 3) begun submitted_session
unfolding Fill.total_filled_quantity
submitted_session-Holds = record {
  order = submitted_order;
  found = refl;
  live = refl;
  quantity_same = refl;
  status = refl;
  total = refl;
}

abbrev ask : SyncCall
ask = record { transport = real broker; plaintext = some (codes "77") }

abbrev ask_fake : SyncCall
ask_fake = record { transport = fake; plaintext = none }

sync_fills-Holds_example :
    (is_ok (sync_fills (real broker) 1 none submitted_session).0 ≡ true)
    × Holds 1
        (pos 3)
        (advance (pos 3) begun (answer_to (real broker) 1 none submitted_session))
        (sync_fills (real broker) 1 none submitted_session).1
sync_fills-Holds_example =
    sync_fills-Holds (real broker) 1 none (pos 3) begun submitted_session refl
      submitted_session-Holds

sync_all-refines_example :
    Holds 1
      (pos 3)
      (advance_all (pos 3) begun (answers 1 (ask ∷ ask_fake ∷ []) submitted_session))
      (sync_all 1 (ask ∷ ask_fake ∷ []) submitted_session)
sync_all-refines_example =
    sync_all-refines 1 (ask ∷ ask_fake ∷ []) (pos 3) begun submitted_session refl
      submitted_session-Holds

answered_alike :
    answer_to (real broker) 1 (some (codes "77")) (sync_all 1 (ask ∷ []) submitted_session)
    ≡ answer_to (real broker) 1 (some (codes "77")) submitted_session
unfolding answer_to sync_all
answered_alike = refl

sync_fills-again_example :
    (q : Progress) × Holds 1 (pos 3) q (sync_all 1 (ask ∷ []) submitted_session)
    × Holds 1 (pos 3) q (sync_all 1 (ask ∷ ask ∷ []) submitted_session)
sync_fills-again_example =
    sync_fills-again 1 ask ask (pos 3) begun submitted_session refl submitted_session-Holds
      answered_alike

ask-Within : All (Within (pos 3)) (answers 1 (ask ∷ []) submitted_session)
unfolding answers answer_to
ask-Within = (omega arith, tt)

sync_all-within_example :
    Fill.total_filled_quantity 1 (sync_all 1 (ask ∷ []) submitted_session) ≤ℤ pos 3
sync_all-within_example =
    sync_all-within 1 (ask ∷ []) (pos 3) begun submitted_session refl submitted_session-Holds
      (omega arith) (omega arith) ask-Within

post_sync-fills_example :
    Holds 1
      (pos 3)
      (record { status = RealOrderStatus.filled; filled = pos 3 })
      (post_sync enabled 1 none submitted_session).1
post_sync-fills_example =
    post_sync-fills enabled 1 none (pos 3) begun submitted_session refl refl submitted_session-Holds
      refl (omega arith) (omega arith)

live_opened : Open enabled 1 approved approved_session
unfolding evaluate check_account_paper_enabled check_kill_switch_off check_per_symbol_limit less add
    check_daily_total_limit check_position_ratio_limit at_most div check_daily_loss_limit neg
    check_duplicate_recent eq_text RealOrder.exists_non_failed_for_candidate today_real_order_total
live_opened = record {
  found = refl;
  approved = refl;
  fresh = refl;
  kill_switch = refl;
  safety = refl;
  real_trading = refl;
  kis_order = refl;
  order_cap = refl;
  daily_cap = refl;
  risk = refl;
}

abbrev taken : KisOrderResult
taken = record { success = true; order_no = codes "77"; message = codes "SUBMITTED: ok" }

execute-Stands_example :
    ((execute digest live enabled 1 approved_session).0
      ≡ ok (placed_result (classify_place_message taken.message) 1))
    × Stands 1
        (ended (classify_place_message taken.message))
        (execute digest live enabled 1 approved_session).1
unfolding resolve_real_transport
execute-Stands_example =
    execute-Stands digest live enabled 1 broker approved taken approved_session live_opened refl
      refl tt refl refl refl refl

classify_place_message-placement_text_example :
    (classify_place_message (placement_text Placement.rejected) ≡ Placement.rejected)
    × (classify_place_message (placement_text Placement.rejected ++ b':' ∷ codes " rt_cd=7")
        ≡ Placement.rejected)
    × ((classify_place_message taken.message ≡ Placement.unknown)
        ⊎ (upper (strip (before_colon taken.message))
            ≡ placement_text (classify_place_message taken.message)))
classify_place_message-placement_text_example =
    classify_place_message-placement_text Placement.rejected (codes " rt_cd=7") taken.message
