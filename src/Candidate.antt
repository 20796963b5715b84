-- ===== src/Candidate.antt =====
-- OrderCandidateRepository (app/data/repositories/order_candidate.py). A row that the source
-- mutates in place is passed in as it stands and comes back as it was written.
pub mod Machine
pub mod Created
use mathlib.Core.List.{reverse}
use stock_ai_platform.Base.{
  ℕ, ◌+◌, Bool, true, false, not, ◌&&◌, Option, none, some, List, [], ◌∷◌, ◌++◌, ltb, leb, ◌==◌,
  if◌then◌else◌, is_some, Text, codes, strip, upper, ℤ, pos, leb_ℤ, take, find, select,
  update_where,
}
use stock_ai_platform.Base.Decimal.{Decimal, zero_dec, less, at_most}
use stock_ai_platform.Store.{
  Source, Side, OrderType, market, limit, CandidateStatus, draft, risk_checking, pending_approval,
  parse_source, parse_side, parse_order_type, parse_candidate_status, same_status, OrderCandidate,
  RiskCheckResult, Session, Error, candidate_validation, invalid_candidate_transition, Action, Done,
  pure, raise, gets, or_raise, raise_if, ◌>>=◌, ◌>>◌, ok,
}

-- The arguments of `create`; the words are as the caller gave them.
pub record NewCandidate : Type 0 where
  pub account_id : ℕ
  pub source : Text
  pub symbol : Text
  pub side : Text
  pub quantity : ℤ
  pub order_type : Text
  pub limit_price : Option Decimal
  pub estimated_amount : Decimal
  pub source_ref_id : Option ℕ
  pub expires_at : Option ℕ
  pub status : Text

abbrev pub is_empty {ℓ} : {A : Type ℓ} → List A → Bool
is_empty [] = true
is_empty (x ∷ xs) = false

-- The limit price is required and positive for LIMIT, and dropped for MARKET.
unfoldable pub normalize_limit : OrderType → Option Decimal → Action (Option Decimal)
normalize_limit market p = pure none
normalize_limit limit none = raise candidate_validation
normalize_limit limit (some p) = do
  raise_if (at_most p zero_dec) candidate_validation
  pure (some p)

-- `self.add(...)`: the row gets the next key and is stamped.
unfoldable pub add_candidate : (ℕ → ℕ → OrderCandidate) → Action OrderCandidate
add_candidate row s =
    let c = row s.next_candidate s.clock in
    (ok c, record s { candidates = s.candidates ++ c ∷ []; next_candidate = s.next_candidate + 1 })

-- The row of a request whose words have been read.
abbrev pub new_row :
    NewCandidate
    → Source
    → Side
    → OrderType
    → CandidateStatus
    → Option Decimal
    → ℕ
    → ℕ
    → OrderCandidate
new_row a source side order_type status limit_price id now = record {
  id = id;
  account_id = a.account_id;
  source = source;
  source_ref_id = a.source_ref_id;
  symbol = upper (strip a.symbol);
  side = side;
  quantity = a.quantity;
  order_type = order_type;
  limit_price = limit_price;
  estimated_amount = a.estimated_amount;
  status = status;
  risk_check_result = none;
  approver_user_id = none;
  rejection_reason = none;
  expires_at = a.expires_at;
  virtual_order_id = none;
  created_at = now;
  updated_at = now;
}

unfoldable pub create : NewCandidate → Action OrderCandidate
unfolding normalize_limit add_candidate
create a = do
  source ← or_raise (parse_source a.source) candidate_validation
  side ← or_raise (parse_side a.side) candidate_validation
  order_type ← or_raise (parse_order_type a.order_type) candidate_validation
  status ← or_raise (parse_candidate_status a.status) candidate_validation
  raise_if (leb_ℤ a.quantity (pos 0)) candidate_validation
  raise_if (is_empty (strip a.symbol)) candidate_validation
  limit_price ← normalize_limit order_type a.limit_price
  raise_if (less a.estimated_amount zero_dec) candidate_validation
  add_candidate (new_row a source side order_type status limit_price)

unfoldable pub get_by_id : ℕ → Action (Option OrderCandidate)
get_by_id i = gets λ s. find (λ c. c.id == i) s.candidates

-- Rows stand in key order, so newest first is the reverse.
unfoldable pub list_by_account : ℕ → Option CandidateStatus → ℕ → Action (List OrderCandidate)
list_by_account account status n = gets λ s. take n (
    reverse (
      select
        (λ c.
          c.account_id == account && elim status [ none ↦ true | some w ↦ same_status c.status w ])
        s.candidates))

unfoldable pub list_by_status : CandidateStatus → ℕ → Action (List OrderCandidate)
list_by_status status n =
    gets λ s. take n (reverse (select (λ c. same_status c.status status) s.candidates))

unfoldable pub list_pending : ℕ → Action (List OrderCandidate)
unfolding list_by_status
list_pending = list_by_status pending_approval

abbrev pub has_expired : ℕ → OrderCandidate → Bool
has_expired now c =
    same_status c.status pending_approval && elim c.expires_at [ none ↦ false | some t ↦ leb t now ]

unfoldable pub list_expired_pending : ℕ → ℕ → Action (List OrderCandidate)
list_expired_pending now n = gets λ s. take n (select (has_expired now) s.candidates)

-- The edges of `_ALLOWED_TRANSITIONS`; the last clause is every status without the edge, the
-- four terminal ones included.
abbrev pub allowed : CandidateStatus → CandidateStatus → Bool
allowed draft risk_checking = true
allowed risk_checking CandidateStatus.risk_rejected = true
allowed risk_checking pending_approval = true
allowed pending_approval CandidateStatus.approved = true
allowed pending_approval CandidateStatus.rejected = true
allowed pending_approval CandidateStatus.expired = true
allowed CandidateStatus.approved CandidateStatus.executed_paper = true
allowed _ _ = false

-- Writes the row back, stamped: `updated_at = utc_now(); flush()`.
unfoldable pub save : OrderCandidate → Action OrderCandidate
save c s =
    let c' = record c { updated_at = s.clock } in
    (ok c', record s { candidates = update_where (λ r. r.id == c.id) (λ _. c') s.candidates })

-- `if x is not None: column = x`
abbrev pub or_keep {ℓ} : {A : Type ℓ} → Option A → Option A → Option A
or_keep none old = old
or_keep (some x) old = some x

unfoldable pub update_status :
    OrderCandidate → CandidateStatus → Option Text → Option ℕ → Action OrderCandidate
unfolding save
update_status c new_status rejection_reason approver_user_id = do
  raise_if (not (allowed c.status new_status)) invalid_candidate_transition
  save (record c {
    status = new_status;
    rejection_reason = or_keep rejection_reason c.rejection_reason;
    approver_user_id = or_keep approver_user_id c.approver_user_id;
  })

unfoldable pub attach_risk_result : OrderCandidate → RiskCheckResult → Action OrderCandidate
unfolding save
attach_risk_result c result = save (record c { risk_check_result = some result })

-- Refuses to replace a link by another.
abbrev pub links_elsewhere : Option ℕ → ℕ → Bool
links_elsewhere none order_id = false
links_elsewhere (some linked) order_id = not (linked == order_id)

unfoldable pub attach_virtual_order : OrderCandidate → ℕ → Action OrderCandidate
unfolding save
attach_virtual_order c order_id = do
  raise_if (links_elsewhere c.virtual_order_id order_id) invalid_candidate_transition
  save (record c { virtual_order_id = some order_id })

unfoldable pub approve : OrderCandidate → ℕ → Action OrderCandidate
unfolding update_status
approve c user = update_status c CandidateStatus.approved none (some user)

-- `reason[:256] if reason else None`
abbrev pub capped : Text → Option Text
capped [] = none
capped (x ∷ t) = some (take 256 (x ∷ t))

unfoldable pub reject : OrderCandidate → ℕ → Text → Action OrderCandidate
unfolding update_status
reject c user reason = update_status c CandidateStatus.rejected (capped reason) (some user)

unfoldable pub expire : OrderCandidate → Action OrderCandidate
unfolding update_status
expire c = update_status c CandidateStatus.expired (some (codes "ttl_expired")) none
