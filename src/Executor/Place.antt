-- ===== src/Executor/Place.antt =====
-- The two branches behind the gates: `_execute_dry_run` and `_execute_real`.
use stock_ai_platform.Base.{
  ℕ, ◌+◌, ◌-◌, ◌/◌, Bool, true, false, Option, none, some, List, [], ◌∷◌, ◌++◌, Text, codes, ℤ, pos,
  sub_ℕ, take,
}
use stock_ai_platform.Base.Decimal.{Decimal}
use stock_ai_platform.Store.{
  RealOrderStatus, EventType, OrderCandidate, RealOrder, KisOrderRequest, Json, text, integer, flag,
  null, Settings, Action, pure, ◌>>=◌, ◌>>◌,
}
use stock_ai_platform.Audit
use stock_ai_platform.RealOrder
use stock_ai_platform.Kis.{Transport, KisOrderResult, new_request, place_order}
use stock_ai_platform.Executor.Words.{
  Placement, placement, ExecutorStatus, failed, ExecutorResult, RealOrderExecutor, scrub,
  classify_place_message, placement_text, side_text,
}

-- `int(candidate.limit_price or 0)`: cut towards zero.
abbrev pub truncated : Decimal → ℤ
truncated p = sub_ℕ ((p.plus - p.minus) / (p.below + 1)) ((p.minus - p.plus) / (p.below + 1))

abbrev pub request_price : Option Decimal → ℤ
request_price none = pos 0
request_price (some p) = truncated p

-- The anchor row of a candidate.
abbrev pub order_of :
    OrderCandidate → Bool → Option Text → Option Text → RealOrderStatus → RealOrder.NewRealOrder
order_of c is_dry fake_order_no request_id status = record {
  candidate_id = c.id;
  symbol = c.symbol;
  side = c.side;
  quantity = c.quantity;
  order_type = c.order_type;
  limit_price = c.limit_price;
  estimated_amount = c.estimated_amount;
  dry_run = is_dry;
  fake_order_no = fake_order_no;
  request_id = request_id;
  status = status;
}

abbrev pub audit_entry : OrderCandidate → EventType → Text → List (Text × Json) → Audit.NewEntry
audit_entry c event reason details = record {
  candidate_id = c.id;
  event_type = event;
  user_id = none;
  reason = some reason;
  details = some details;
  ip_hash = none;
  user_agent_hash = none;
}

abbrev pub base_details : OrderCandidate → Placement → List (Text × Json) → List (Text × Json)
base_details c class more =
    (codes "classification", text (placement_text class))
    ∷ (codes "dry_run", flag false)
    ∷ (codes "symbol", text c.symbol)
    ∷ (codes "side", text (side_text c.side))
    ∷ (codes "quantity", integer c.quantity)
    ∷ more

abbrev pub order_request : OrderCandidate → Text → Action KisOrderRequest
order_request c account_no =
    new_request c.symbol c.side c.order_type c.quantity (request_price c.limit_price) account_no

abbrev pub failed_entry : OrderCandidate → Placement → Audit.NewEntry
failed_entry c class =
    audit_entry c EventType.real_order_failed
      (codes "real-path place_order returned " ++ placement_text class) (base_details c class [])

abbrev pub dry_run_result : ℕ → ExecutorResult
dry_run_result order = record {
  success = true;
  dry_run = true;
  blocked_reason = none;
  real_order_id = some order;
  status = ExecutorStatus.dry_run;
}

abbrev pub submitted_result : ℕ → ExecutorResult
submitted_result order = record {
  success = true;
  dry_run = false;
  blocked_reason = none;
  real_order_id = some order;
  status = ExecutorStatus.submitted;
}

abbrev pub failed_result : ℕ → Placement → ExecutorResult
failed_result order class = record {
  success = false;
  dry_run = false;
  blocked_reason = some (placement class);
  real_order_id = some order;
  status = failed;
}

module _ (sha256 : Text → Text) where
  abbrev pub dry_run_order : OrderCandidate → Text → RealOrder.NewRealOrder
  dry_run_order c order_no =
      order_of c true (some order_no) (some (take 16 (sha256 order_no))) RealOrderStatus.dry_run

  -- `_execute_dry_run`
  unfoldable pub execute_dry_run : RealOrderExecutor → OrderCandidate → Action ExecutorResult
  unfolding new_request place_order RealOrder.create
  execute_dry_run e c = do
    request ← order_request c (codes "DRY_RUN")
    result ← place_order e.transport request
    o ← RealOrder.create (dry_run_order c result.order_no)
    pure (dry_run_result o.id)

  abbrev pub broker_hash : Text → Option Text
  broker_hash [] = none
  broker_hash (c ∷ order_no) = some (sha256 (c ∷ order_no))

  abbrev pub hash_prefix : Option Text → Json
  hash_prefix none = null
  hash_prefix (some h) = text (take 16 h)

  abbrev pub submitted_entry : OrderCandidate → KisOrderResult → Audit.NewEntry
  submitted_entry c result =
      audit_entry c EventType.real_order_submitted (codes "real-path place_order succeeded") (
        base_details c Placement.submitted
          ((codes "broker_order_no_hash_prefix", hash_prefix (broker_hash result.order_no)) ∷ []))

  -- The SUBMITTED branch of `_execute_real`.
  unfoldable pub record_submitted :
      OrderCandidate → RealOrder → KisOrderResult → Action ExecutorResult
  unfolding RealOrder.mark_submitted Audit.append
  record_submitted c o result = do
    RealOrder.mark_submitted o (broker_hash result.order_no)
    Audit.append (submitted_entry c result)
    pure (submitted_result o.id)

  -- Every other class.
  unfoldable pub record_failed :
      OrderCandidate → RealOrder → KisOrderResult → Placement → Action ExecutorResult
  unfolding scrub RealOrder.mark_failed Audit.append
  record_failed c o result class = do
    RealOrder.mark_failed o (some (placement_text class)) (some (take 500 (scrub result.message)))
    Audit.append (failed_entry c class)
    pure (failed_result o.id class)

  abbrev pub record_outcome :
      OrderCandidate → RealOrder → KisOrderResult → Placement → Action ExecutorResult
  record_outcome c o result Placement.submitted = record_submitted c o result
  record_outcome c o result class = record_failed c o result class

  -- `_execute_real`
  unfoldable pub execute_real : Settings → Transport → OrderCandidate → Action ExecutorResult
  unfolding RealOrder.create new_request place_order classify_place_message
  execute_real settings t c = do
    o ← RealOrder.create (order_of c false none none RealOrderStatus.created)
    request ← order_request c settings.kis_account_no
    result ← place_order t request
    record_outcome c o result (classify_place_message result.message)
