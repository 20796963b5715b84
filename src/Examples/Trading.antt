-- ===== src/Examples/Trading.antt =====
-- The candidates' table, the trail, the broker, the costs and the matching at concrete rows.
use stock_ai_platform.Base.{
  ◌≡◌, ◌≢◌, refl, true, false, none, some, [], ◌∷◌, ◌++◌, arith, codes, strip, upper, pos,
}
use stock_ai_platform.Base.Decimal.{Le, of_ℕ, less}
use stock_ai_platform.Store.{
  buy, sell, market, OrderStatus, EventType, Session, ok, err, Result, OrderCandidate, VirtualOrder,
  parse_side, parse_order_type, parse_source, parse_candidate_status, text,
}
use stock_ai_platform.Audit
use stock_ai_platform.Audit.Appended
use stock_ai_platform.Audit.Appended.{append-IsValid}
use stock_ai_platform.Candidate
use stock_ai_platform.Candidate.{NewCandidate}
use stock_ai_platform.Candidate.Created
use stock_ai_platform.Candidate.Created.{create-IsValid}
use stock_ai_platform.Cost.{default_paper_model, costs_of}
use stock_ai_platform.Cost.Bounds.{RatesNonneg, costs_of-no_gain}
use stock_ai_platform.Broker.{OrderRequest, submit_order}
use stock_ai_platform.Broker.Submit.{submit_order-twice}
use stock_ai_platform.Broker.Match.{execute_pending_orders}
use stock_ai_platform.Books.Sound.{Sound}
use stock_ai_platform.Books.Trading.{execute_pending_orders-Sound}
use stock_ai_platform.Examples.Data.{enabled, candidate, pending_session}

abbrev value_or : {A : Type 0} → A → Result A → A
value_or d (ok a) = a
value_or d (err e) = d

abbrev new_candidate : NewCandidate
new_candidate = record {
  account_id = 1;
  source = codes "MANUAL";
  symbol = codes " abc ";
  side = codes "BUY";
  quantity = pos 3;
  order_type = codes "MARKET";
  limit_price = none;
  estimated_amount = of_ℕ 210000;
  source_ref_id = none;
  expires_at = none;
  status = codes "DRAFT";
}

unfoldable created : Result OrderCandidate × Session
unfolding Candidate.create
created = Candidate.create new_candidate pending_session

abbrev created_row : OrderCandidate
created_row = value_or candidate created.0

created_runs : Candidate.create new_candidate pending_session ≡ (ok created_row, created.1)
unfolding created Candidate.create parse_side parse_order_type parse_source parse_candidate_status
    strip less
created_runs = refl

create-IsValid_example :
    Created.IsValid created_row
    × (created_row.id ≡ pending_session.next_candidate)
    × (strip new_candidate.symbol ≢ [])
    × (created_row.symbol ≡ upper (strip new_candidate.symbol))
    × (created.1.candidates ≡ pending_session.candidates ++ created_row ∷ [])
create-IsValid_example =
    create-IsValid new_candidate pending_session created_row created.1 created_runs

abbrev entry : Audit.NewEntry
entry = record {
  candidate_id = 1;
  event_type = EventType.approved;
  user_id = some 7;
  reason = some (codes "fine");
  details = some ((codes "policy_version", text (codes "pre-trade-v1")) ∷ []);
  ip_hash = some (codes "a1");
  user_agent_hash = none;
}

append-IsValid_example :
    Appended.IsValid (Audit.row_of entry 1 pending_session.clock)
    × (Audit.row_of entry 1 pending_session.clock
        ≡ Audit.row_of entry pending_session.next_audit pending_session.clock)
    × ((record pending_session {
      audits = Audit.row_of entry 1 pending_session.clock ∷ [];
      next_audit = 2;
    }).audits
        ≡ pending_session.audits ++ Audit.row_of entry 1 pending_session.clock ∷ [])
unfolding Audit.append Audit.add_entry Audit.details_leak
append-IsValid_example =
    append-IsValid entry pending_session (Audit.row_of entry 1 pending_session.clock)
      (record pending_session {
        audits = Audit.row_of entry 1 pending_session.clock ∷ [];
        next_audit = 2;
      })
      refl

abbrev order_request : OrderRequest
order_request = record {
  account_id = 1;
  symbol = codes "005930";
  side = codes "BUY";
  quantity = pos 3;
  order_type = codes "MARKET";
  limit_price = none;
  idempotency_key = some (codes "approval-1");
  note = none;
}

abbrev first_order : VirtualOrder
first_order = record {
  id = 1;
  account_id = 1;
  symbol = codes "005930";
  side = buy;
  quantity = pos 3;
  order_type = market;
  limit_price = none;
  status = OrderStatus.created;
  idempotency_key = some (codes "approval-1");
  reason = none;
  note = none;
  updated_at = 1700000000000000;
}

abbrev ordered_session : Session
ordered_session = record pending_session { orders = first_order ∷ []; next_order = 2 }

submitted :
    submit_order enabled order_request pending_session
    ≡ (ok (record { order = first_order; deduplicated = false }), ordered_session)
unfolding submit_order parse_side parse_order_type strip
submitted = refl

submit_order-twice_example :
    submit_order enabled order_request ordered_session
    ≡ (ok (record { order = first_order; deduplicated = true }), ordered_session)
submit_order-twice_example =
    submit_order-twice enabled order_request (codes "approval-1") pending_session
      (record { order = first_order; deduplicated = false }) ordered_session refl submitted

rates : RatesNonneg default_paper_model
rates = record {
  buy_fee = omega arith;
  sell_fee = omega arith;
  sell_tax = omega arith;
  slippage = omega arith;
}

costs_of-no_gain_example :
    Le (of_ℕ 210000) (costs_of default_paper_model buy (of_ℕ 210000)).net_amount
    × Le (costs_of default_paper_model sell (of_ℕ 210000)).net_amount (of_ℕ 210000)
    × Le
        (costs_of default_paper_model sell (of_ℕ 210000)).net_amount
        (costs_of default_paper_model buy (of_ℕ 210000)).net_amount
costs_of-no_gain_example = costs_of-no_gain default_paper_model (of_ℕ 210000) rates (omega arith)

start : Sound ordered_session
start = record { solvent = (omega arith, tt); held = tt }

execute_pending_orders-Sound_example :
    Sound (execute_pending_orders default_paper_model 19675 none 0 ordered_session).1
execute_pending_orders-Sound_example =
    execute_pending_orders-Sound default_paper_model 19675 none 0 ordered_session start
