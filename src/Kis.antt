-- ===== src/Kis.antt =====
-- The order client of app/broker/kis_order_client.py: requests, results, the fake transport and
-- the masking helpers. Any other transport is a parameter: it answers as a function of the
-- requests that it was put before, and it may raise.
use stock_ai_platform.Base.{
  ℕ, zero, suc, ◌+◌, ◌-◌, Bool, true, false, Option, none, some, List, [], ◌∷◌, ◌++◌, leb,
  if◌then◌else◌, Text, codes, length, ℤ, pos, ltb_ℤ, leb_ℤ, decimal,
}
use stock_ai_platform.Store.{
  Side, OrderType, KisOrderRequest, Json, text, Session, value_error, transport_error, Action, pure,
  raise_if, ◌>>=◌, ◌>>◌, ok, err,
}
use stock_ai_platform.RealOrder.Redact.{lower}
use stock_ai_platform.Audit.{contains}

pub record KisOrderResult : Type 0 where
  pub success : Bool
  pub order_no : Text
  pub message : Text

-- `KisFillStatusResult.VALID_STATUSES`
pub data BrokerStatus : Type 0 where
  pending partially_filled filled canceled rejected : BrokerStatus

pub record KisFillStatusResult : Type 0 where
  pub success : Bool
  pub order_no : Text
  pub filled_quantity : ℤ
  pub remaining_quantity : ℤ
  pub status : BrokerStatus
  pub message : Text

pub record KisCancelResult : Type 0 where
  pub success : Bool
  pub order_no : Text
  pub message : Text

-- A transport that is not the fake; none is an exception.
pub record RealTransport : Type 0 where
  pub answer_order : List KisOrderRequest → KisOrderRequest → Option KisOrderResult
  pub answer_fill_status : List KisOrderRequest → Text → Option KisFillStatusResult

-- A `KisOrderClientInterface`, by what `isinstance(t, FakeKisOrderTransport)` says.
pub data Transport : Type 0 where
  fake : Transport
  real : RealTransport → Transport

abbrev pub is_fake : Transport → Bool
is_fake fake = true
is_fake (real t) = false

-- The constructor of KisOrderRequest; the words are already those it accepts.
unfoldable pub new_request : Text → Side → OrderType → ℤ → ℤ → Text → Action KisOrderRequest
new_request symbol side order_type quantity price account_no = do
  raise_if (leb_ℤ quantity (pos 0)) value_error
  raise_if (ltb_ℤ price (pos 0)) value_error
  pure (record {
    symbol = symbol;
    side = side;
    order_type = order_type;
    quantity = quantity;
    price = price;
    account_no = account_no;
  })

-- `f"{n:06d}"`
abbrev pub zeros : ℕ → Text
zeros zero = []
zeros (suc n) = b'0' ∷ zeros n

abbrev pub six_digits : ℕ → Text
six_digits n = zeros (6 - length (decimal n)) ++ decimal n

-- The number that `_next_fake_order_no` gives out when its counter stands at `n`.
abbrev pub fake_order_no : ℕ → Text
fake_order_no n = codes "FAKE-" ++ six_digits (n + 1)

unfoldable pub next_fake_order_no : Action Text
next_fake_order_no s =
    (ok (fake_order_no s.fake_orders), record s { fake_orders = s.fake_orders + 1 })

-- A request that reaches another transport than the fake goes into the log.
unfoldable pub place_order : Transport → KisOrderRequest → Action KisOrderResult
unfolding next_fake_order_no
place_order fake r s =
    (next_fake_order_no >>= λ n.
    pure (record { success = true; order_no = n; message = codes "fake order accepted" }))
      s
place_order (real t) r s =
    let s' = record s { sent = s.sent ++ r ∷ [] } in
    elim (t.answer_order s.sent r) [ none ↦ (err transport_error, s') | some a ↦ (ok a, s') ]

abbrev pub fake_fill : Text → KisFillStatusResult
fake_fill order_no = record {
  success = true;
  order_no = order_no;
  filled_quantity = pos 0;
  remaining_quantity = pos 0;
  status = filled;
  message = codes "fake fill complete";
}

-- Asks for the fill status; none is an exception.
unfoldable pub query_fill_status : Transport → Text → Session → Option KisFillStatusResult
query_fill_status fake order_no s = some (fake_fill order_no)
query_fill_status (real t) order_no s = t.answer_fill_status s.sent order_no

-- `FakeKisOrderTransport.cancel_order`
unfoldable pub fake_cancel : Text → KisCancelResult
fake_cancel order_no = record {
  success = true;
  order_no = order_no;
  message = codes "fake cancel accepted";
}

abbrev drop : ℕ → Text → Text
drop zero t = t
drop (suc n) [] = []
drop (suc n) (c ∷ t) = drop n t

-- `_mask_account_no`
unfoldable pub mask_account_no : Text → Text
mask_account_no account_no =
    if leb 4 (length account_no)
    then codes "****" ++ drop (length account_no - 4) account_no
    else codes "****"

-- `_SENSITIVE_KEYS`
abbrev pub sensitive_keys : List Text
sensitive_keys =
    codes "api_key"
    ∷ codes "api_secret"
    ∷ codes "account_no"
    ∷ codes "authorization"
    ∷ codes "token"
    ∷ codes "access_token"
    ∷ []

unfoldable pub mask_sensitive_order_payload : List (Text × Json) → List (Text × Json)
unfolding contains lower
mask_sensitive_order_payload [] = []
mask_sensitive_order_payload ((k, v) ∷ payload) =
    (k, if contains sensitive_keys (lower k) then text (codes "***MASKED***") else v)
    ∷ mask_sensitive_order_payload payload
