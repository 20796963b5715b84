-- ===== src/Books/Sound.antt =====
-- The invariant of the books, and that the account and position repositories keep it.
use stock_ai_platform.Base.{
  ℕ, ◌≡◌, refl, Bool, false, List, Option, none, some, inl, inr, arith, Bool-cases, Text, ℤ, pos,
  ◌≤ℤ◌, ◌-ℤ◌, +ℤ_parts, -ℤ_parts, ltb_ℤ, leb_ℤ, eq_ℤ, All, All-append, All-update_where, All-find,
  find, ◌==◌,
}
use stock_ai_platform.Base.Decimal.{
  Decimal, Nonneg, zero_dec, less, add-Nonneg, mul-Nonneg, div-Nonneg, Nonneg-of_not_less,
  of_int-Nonneg,
}
use stock_ai_platform.Store.{
  VirtualAccount, VirtualPosition, Session, value_error, insufficient_position,
}
use stock_ai_platform.Store.Yields.{
  Yields, IfSome, Yields-pure, Yields-raise, Yields-if, Yields-guard, Yields-bind,
}
use stock_ai_platform.Account
use stock_ai_platform.Position

-- No account is overdrawn.
abbrev pub Solvent : VirtualAccount → Type 0
Solvent a = Nonneg a.cash_balance

-- No position is short, and none has a negative cost.
abbrev pub Held : VirtualPosition → Type 0
Held p = (pos 0 ≤ℤ p.quantity) × Nonneg p.avg_cost

pub record Sound (s : Session) : Type 0 where
  pub solvent : All Solvent s.accounts
  pub held : All Held s.positions

find-IfSome :
    {A : Type 0} (P : A → Type 0) (p : A → Bool) (xs : List A) → All P xs → IfSome P (find p xs)
find-IfSome {A} P p xs h = go (find p xs) refl
  where
    go : (o : Option A) → find p xs ≡ o → IfSome P o
    go none e = tt
    go (some x) e = All-find P p xs x h e

pub account-get_by_id : (i : ℕ) → Yields Sound (IfSome Solvent) (Account.get_by_id i)
unfolding Account.get_by_id
account-get_by_id i = record {
  at = λ s h. (h, find-IfSome Solvent (Account.has_id i) s.accounts h.solvent);
}

account-save : (a : VirtualAccount) → Solvent a → Yields Sound Solvent (Account.save a)
unfolding Account.save
account-save a q = record {
  at = λ s h. (
    record {
      solvent =
          All-update_where Solvent (Account.has_id a.id) (λ _. record a { updated_at = s.clock })
            s.accounts (λ r _ _. q) h.solvent;
      held = h.held;
    },
    q,
  );
}

pub update_cash_balance-Sound :
    (a : VirtualAccount) (b : Decimal) → Yields Sound Solvent (Account.update_cash_balance a b)
unfolding Account.update_cash_balance
update_cash_balance-Sound a b =
    Yields-guard Solvent (less b zero_dec) value_error _
      λ e. account-save (record a { cash_balance = b }) (Nonneg-of_not_less b e)

position-get : (a : ℕ) (t : Text) → Yields Sound (IfSome Held) (Position.get_by_account_symbol a t)
unfolding Position.get_by_account_symbol
position-get a t = record {
  at = λ s h. (h, find-IfSome Held (Position.is_at a t) s.positions h.held);
}

position-add : (a : ℕ) (t : Text) → Yields Sound Held (Position.add_position a t)
unfolding Position.add_position
position-add a t = record {
  at = λ s h. (
    record { solvent = h.solvent; held = All-append Held s.positions _ h.held (omega arith) },
    omega arith,
  );
}

position-pure_or_add :
    (o : Option VirtualPosition) (a : ℕ) (t : Text)
    → IfSome Held o
    → Yields Sound Held (Position.pure_or_add o a t)
position-pure_or_add none a t q = position-add a t
position-pure_or_add (some p) a t q = Yields-pure Held p q

position-get_or_create : (a : ℕ) (t : Text) → Yields Sound Held (Position.get_or_create a t)
unfolding Position.get_or_create
position-get_or_create a t =
    Yields-bind (IfSome Held) Held _ _ (position-get a t) λ o q. position-pure_or_add o a t q

position-save : (p : VirtualPosition) → Held p → Yields Sound Held (Position.save p)
unfolding Position.save
position-save p q = record {
  at = λ s h. (
    record {
      solvent = h.solvent;
      held =
          All-update_where Held (λ r. r.id == p.id) (λ _. record p { updated_at = s.clock })
            s.positions (λ r _ _. q) h.held;
    },
    q,
  );
}

bought-Held :
    (p : VirtualPosition) (q : ℤ) (cash : Decimal)
    → Held p
    → leb_ℤ q (pos 0) ≡ false
    → Nonneg cash
    → Held (Position.bought p q cash)
unfolding Position.bought
bought-Held p q cash h e n = (
  ground (arith, +ℤ_parts p.quantity q),
  div-Nonneg _ _ (add-Nonneg _ cash (mul-Nonneg _ _ h.1 (of_int-Nonneg p.quantity h.0)) n),
)

pub apply_buy-Sound :
    (a : ℕ) (t : Text) (q : ℤ) (price cash : Decimal)
    → Yields Sound Held (Position.apply_buy a t q price cash)
unfolding Position.apply_buy
apply_buy-Sound a t q price cash = Yields-guard Held _ value_error _ λ e.
    Yields-guard Held _ value_error _ λ _. Yields-guard Held _ value_error _ λ n.
      Yields-bind Held Held _ _ (position-get_or_create a t) λ p h.
        position-save (Position.bought p q cash)
          (bought-Held p q cash h e (Nonneg-of_not_less cash n))

sold-Held :
    (p : VirtualPosition) (q : ℤ) (cash : Decimal)
    → Held p
    → ltb_ℤ p.quantity q ≡ false
    → Held (Position.sold p q cash)
unfolding Position.sold
sold-Held p q cash h e = (
  ground (arith, -ℤ_parts p.quantity q),
  elim (Bool-cases (eq_ℤ (p.quantity -ℤ q) (pos 0))) [
    | inl z ↦ rw z (omega arith)
    | inr z ↦ rw z h.1
  ],
)

-- The position that a sale may take from: held, and of the quantity that is asked for.
Covers : ℤ → VirtualPosition → Type 0
Covers q p = Held p × (ltb_ℤ p.quantity q ≡ false)

position-enough :
    (o : Option VirtualPosition) (q : ℤ)
    → IfSome Held o
    → Yields Sound (Covers q) (Position.enough o q)
unfolding Covers
position-enough none q h = Yields-raise _ insufficient_position
position-enough (some p) q h =
    Yields-if (Covers q) _ _ _ (λ _. Yields-raise _ insufficient_position)
      λ e. Yields-pure (Covers q) p (h, e)

-- The position that a sale returns.
pub SoldHeld : VirtualPosition × Decimal → Type 0
SoldHeld r = Held r.0

pub apply_sell-SoldHeld :
    (a : ℕ) (t : Text) (q : ℤ) (cash : Decimal)
    → Yields Sound SoldHeld (Position.apply_sell a t q cash)
unfolding Position.apply_sell Covers SoldHeld
apply_sell-SoldHeld a t q cash = Yields-guard SoldHeld (leb_ℤ q (pos 0)) value_error _ λ _.
    Yields-guard SoldHeld (less cash zero_dec) value_error _ λ _.
      Yields-bind (IfSome Held) SoldHeld (Position.get_by_account_symbol a t) _ (position-get a t)
        λ o h.
          Yields-bind (Covers q) SoldHeld (Position.enough o q) _ (position-enough o q h) λ p c.
            Yields-bind Held SoldHeld (Position.save (Position.sold p q cash)) _
              (position-save (Position.sold p q cash) (sold-Held p q cash c.0 c.1))
              λ p' h'. Yields-pure SoldHeld (p', Position.sale_gain p q cash) h'
