-- ===== src/Broker/Submit.antt =====
-- Submission: what reaches the book, and that a key is used once.
use stock_ai_platform.Base.{
  ℕ, ◌≡◌, sym, ap, ◌∙◌, eq_text_refl, Bool, true, none, some, List, [], ◌∷◌, ◌++◌, arith, find,
  Option-cases, inl, inr, Text,
}
use stock_ai_platform.Store.{VirtualOrder, Settings, Session, ok}
use stock_ai_platform.Account
use stock_ai_platform.Account.{is_blank}
use stock_ai_platform.Order
use stock_ai_platform.Broker.{SubmitResult, OrderRequest, normalize_limit, submit_order}

-- With a key that the account has used, a submission that returns gives the order of that key,
-- marked as deduplicated, and leaves the session as it was.
pub submit_order-dedup :
    (settings : Settings) (r : OrderRequest) (key : Text) (o : VirtualOrder) (s : Session)
    (out : SubmitResult) (s' : Session)
    → r.idempotency_key ≡ some key
    → find (Order.has_key r.account_id key) s.orders ≡ some o
    → submit_order settings r s ≡ (ok out, s')
    → (out ≡ record { order = o; deduplicated = true }) × (s' ≡ s)
unfolding submit_order Account.get_by_id Order.get_by_idempotency_key normalize_limit
submit_order-dedup settings r key o s out s' has_key used h = elim (Option-cases r.limit_price) [
  | inl absent ↦ ground arith
  | inr (p, present) ↦ ground arith
]

find-snoc :
    {A : Type 0} (p : A → Bool) (xs : List A) (x : A)
    → find p xs ≡ none
    → p x ≡ true
    → find p (xs ++ x ∷ []) ≡ some x
find-snoc p [] x h k = ground arith
find-snoc p (y ∷ ys) x h k = ground (arith, find-snoc p ys x)

-- What a first submission writes.
submit_order-new :
    (settings : Settings) (r : OrderRequest) (key : Text) (s : Session) (out : SubmitResult)
    (s' : Session)
    → r.idempotency_key ≡ some key
    → find (Order.has_key r.account_id key) s.orders ≡ none
    → submit_order settings r s ≡ (ok out, s')
    → (s'.orders ≡ s.orders ++ out.order ∷ [])
      × (s'.accounts ≡ s.accounts)
      × (out.order.account_id ≡ r.account_id)
      × (out.order.idempotency_key ≡ some key)
unfolding submit_order Account.get_by_id Order.get_by_idempotency_key normalize_limit Order.create
    Order.add_order
submit_order-new settings r key s out s' has_key fresh h = elim (Option-cases r.limit_price) [
  | inl absent ↦ ground arith
  | inr (p, present) ↦ ground arith
]

-- The guards of a submission read the accounts alone, so with the key used it succeeds again.
submit_order-again :
    (settings : Settings) (r : OrderRequest) (key : Text) (s : Session) (out : SubmitResult)
    (s' : Session)
    → r.idempotency_key ≡ some key
    → submit_order settings r s ≡ (ok out, s')
    → s'.accounts ≡ s.accounts
    → find (Order.has_key r.account_id key) s'.orders ≡ some out.order
    → submit_order settings r s' ≡ (ok (record { order = out.order; deduplicated = true }), s')
unfolding submit_order Account.get_by_id Order.get_by_idempotency_key normalize_limit Order.create
    Order.add_order
submit_order-again settings r key s out s' has_key h same used = elim (Option-cases r.limit_price) [
  | inl absent ↦ ground arith
  | inr (p, present) ↦ ground arith
]

has_key_self :
    (o : VirtualOrder) (account : ℕ) (key : Text)
    → o.account_id ≡ account
    → o.idempotency_key ≡ some key
    → Order.has_key account key o ≡ true
has_key_self o account key h k = ground (arith, eq_text_refl key)

-- A request with a key that was submitted once and is submitted again gives the same order again,
-- marked as deduplicated, and the second submission leaves the session as it was.
pub submit_order-twice :
    (settings : Settings) (r : OrderRequest) (key : Text) (s : Session) (out : SubmitResult)
    (s' : Session)
    → r.idempotency_key ≡ some key
    → submit_order settings r s ≡ (ok out, s')
    → submit_order settings r s' ≡ (ok (record { order = out.order; deduplicated = true }), s')
submit_order-twice settings r key s out s' has_key h =
    elim (Option-cases (find (Order.has_key r.account_id key) s.orders)) [
      | inr (o, used) ↦
          let (same, kept) = submit_order-dedup settings r key o s out s' has_key used h in
          submit_order-again settings r key s out s' has_key h (ap (λ t. t.accounts) kept) (
            ap (λ t. find (Order.has_key r.account_id key) t.orders) kept
            ∙ used
            ∙ sym (ap (λ x. some x.order) same))
      | inl fresh ↦
          let (rows, accounts, account, keyed) =
            submit_order-new settings r key s out s' has_key fresh h in
          submit_order-again settings r key s out s' has_key h accounts (
            ap (find (Order.has_key r.account_id key)) rows
            ∙ find-snoc (Order.has_key r.account_id key) s.orders out.order fresh
                (has_key_self out.order r.account_id key account keyed))
    ]
