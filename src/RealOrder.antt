-- ===== src/RealOrder.antt =====
-- RealOrderRepository (app/data/repositories/real_order.py). A row that the source mutates in
-- place is passed in as it stands and comes back as it was written.
pub mod Fill
pub mod Redact
pub mod Single
use mathlib.Core.List.{reverse}
use stock_ai_platform.Base.{
  ℕ, ◌+◌, Bool, true, false, not, ◌&&◌, ◌||◌, Option, none, some, List, [], ◌∷◌, ◌++◌, ◌==◌,
  if◌then◌else◌, is_some, Text, codes, ℤ, pos, leb_ℤ, take, find, select, update_where,
}
use stock_ai_platform.Base.Decimal.{Decimal}
use stock_ai_platform.Store.{
  Side, OrderType, market, limit, RealOrderStatus, RealOrder, Session, value_error, Action, Done,
  pure, raise, raise_if, gets, ◌>>=◌, ◌>>◌, ok,
}
use stock_ai_platform.RealOrder.Redact.{contains_sub, lower}

-- The arguments of `create`.
pub record NewRealOrder : Type 0 where
  pub candidate_id : ℕ
  pub symbol : Text
  pub side : Side
  pub quantity : ℤ
  pub order_type : OrderType
  pub limit_price : Option Decimal
  pub estimated_amount : Decimal
  pub dry_run : Bool
  pub fake_order_no : Option Text
  pub request_id : Option Text
  pub status : RealOrderStatus

-- Is the limit price missing for LIMIT, or given for MARKET?
abbrev pub bad_limit : OrderType → Option Decimal → Bool
bad_limit limit none = true
bad_limit market (some p) = true
bad_limit _ _ = false

abbrev pub row_of : NewRealOrder → ℕ → ℕ → RealOrder
row_of a id now = record {
  id = id;
  candidate_id = a.candidate_id;
  symbol = a.symbol;
  side = a.side;
  quantity = a.quantity;
  order_type = a.order_type;
  limit_price = a.limit_price;
  estimated_amount = a.estimated_amount;
  status = a.status;
  dry_run = a.dry_run;
  fake_order_no = a.fake_order_no;
  broker_order_no_hash = none;
  request_id = a.request_id;
  error_code = none;
  error_message = none;
  submitted_at = none;
  created_at = now;
  updated_at = now;
}

abbrev pub add_order : NewRealOrder → Action RealOrder
add_order a s =
    let o = row_of a s.next_real_order s.clock in
    (
      ok o,
      record s { real_orders = s.real_orders ++ o ∷ []; next_real_order = s.next_real_order + 1 },
    )

unfoldable pub create : NewRealOrder → Action RealOrder
create a = do
  raise_if (leb_ℤ a.quantity (pos 0)) value_error
  raise_if (bad_limit a.order_type a.limit_price) value_error
  add_order a

abbrev pub has_id : ℕ → RealOrder → Bool
has_id i o = o.id == i

unfoldable pub get_by_id : ℕ → Action (Option RealOrder)
get_by_id i = gets λ s. find (has_id i) s.real_orders

-- Rows stand in key order, so newest first is the reverse.
unfoldable pub get_by_candidate_id : ℕ → Session → List RealOrder
get_by_candidate_id candidate s = reverse (select (λ o. o.candidate_id == candidate) s.real_orders)

unfoldable pub list_recent : ℕ → Action (List RealOrder)
list_recent n = gets λ s. take n (reverse s.real_orders)

abbrev pub same_status : RealOrderStatus → RealOrderStatus → Bool
same_status RealOrderStatus.dry_run RealOrderStatus.dry_run = true
same_status RealOrderStatus.created RealOrderStatus.created = true
same_status RealOrderStatus.submitted RealOrderStatus.submitted = true
same_status RealOrderStatus.partially_filled RealOrderStatus.partially_filled = true
same_status RealOrderStatus.filled RealOrderStatus.filled = true
same_status RealOrderStatus.canceled RealOrderStatus.canceled = true
same_status RealOrderStatus.rejected RealOrderStatus.rejected = true
same_status RealOrderStatus.failed RealOrderStatus.failed = true
same_status _ _ = false

unfoldable pub list_by_status : RealOrderStatus → ℕ → Action (List RealOrder)
list_by_status status n =
    gets λ s. take n (reverse (select (λ o. same_status o.status status) s.real_orders))

-- `_NON_FAILED_STATUSES`
abbrev pub is_active : RealOrderStatus → Bool
is_active RealOrderStatus.canceled = false
is_active RealOrderStatus.rejected = false
is_active RealOrderStatus.failed = false
is_active _ = true

-- An order of the candidate that is in flight or ended well.
abbrev pub blocks : ℕ → RealOrder → Bool
blocks candidate o = o.candidate_id == candidate && is_active o.status

unfoldable pub exists_non_failed_for_candidate : ℕ → Session → Bool
exists_non_failed_for_candidate candidate s = is_some (find (blocks candidate) s.real_orders)

-- `TERMINAL_STATUSES`
abbrev pub is_terminal : RealOrderStatus → Bool
is_terminal RealOrderStatus.created = false
is_terminal RealOrderStatus.submitted = false
is_terminal RealOrderStatus.partially_filled = false
is_terminal _ = true

-- Writes the row back: `flush()`.
abbrev pub save : RealOrder → Action RealOrder
save o s = (ok o, record s { real_orders = update_where (has_id o.id) (λ _. o) s.real_orders })

unfoldable pub update_status : RealOrder → RealOrderStatus → Action RealOrder
update_status o new_status = do
  raise_if (is_terminal o.status) value_error
  now ← gets λ s. s.clock
  save (record o { status = new_status; updated_at = now })

-- The time of submission is `utc_now()`, as every caller leaves it.
unfoldable pub mark_submitted : RealOrder → Option Text → Action RealOrder
unfolding update_status
mark_submitted o broker_order_no_hash = do
  o1 ← update_status o RealOrderStatus.submitted
  now ← gets λ s. s.clock
  save (record o1 { broker_order_no_hash = broker_order_no_hash; submitted_at = some now })

-- `_SENSITIVE_SUBSTRINGS`, the same six words as the executor's.
abbrev pub sensitive_substrings : List Text
sensitive_substrings =
    codes "api_key"
    ∷ codes "appsecret"
    ∷ codes "secretkey"
    ∷ codes "access_token"
    ∷ codes "authorization"
    ∷ codes "account_no"
    ∷ []

-- Does one of the words occur in the text?
unfoldable pub mentions : List Text → Text → Bool
unfolding contains_sub
mentions [] t = false
mentions (w ∷ ws) t = contains_sub w t || mentions ws t

-- `_check_error_message`: true where it raises.
unfoldable pub bad_message : Text → Bool
unfolding mentions lower
bad_message message = mentions sensitive_substrings (lower message)

-- The message is cut to 500 characters, then checked.
unfoldable pub checked_message : Option Text → Action (Option Text)
unfolding bad_message
checked_message none = pure none
checked_message (some m) =
    raise_if (bad_message (take 500 m)) value_error >> pure (some (take 500 m))

unfoldable pub mark_failed : RealOrder → Option Text → Option Text → Action RealOrder
unfolding checked_message update_status
mark_failed o error_code error_message = do
  message ← checked_message error_message
  o1 ← update_status o RealOrderStatus.failed
  save (record o1 { error_code = error_code; error_message = message })

unfoldable pub mark_dry_run : RealOrder → Option Text → Action RealOrder
mark_dry_run o fake_order_no = do
  raise_if (not (same_status o.status RealOrderStatus.created)) value_error
  now ← gets λ s. s.clock
  save (record o {
    status = RealOrderStatus.dry_run;
    fake_order_no = fake_order_no;
    updated_at = now;
  })
