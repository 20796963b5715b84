-- ===== src/Base/Decimal/Defs.antt =====
-- Python's `Decimal`, as the exact rational (plus - minus) / (below + 1). Arithmetic is exact:
-- the context's rounding to 28 significant digits, and the four places of a `Numeric(18, 4)`
-- column, are left out; NaN and the infinities too. Comparison is by value, as in Python.
use stock_ai_platform.Base.{
  ℕ, suc, ◌+◌, ◌*◌, ◌-◌, ◌≤◌, ◌<◌, ◌≡◌, Bool, ltb, leb, ℤ, pos_part, neg_part,
}

pub record Decimal : Type 0 where
  pub plus : ℕ
  pub minus : ℕ
  pub below : ℕ

abbrev pub den : Decimal → ℕ
den a = suc a.below

-- `Decimal(n)` of an int.
abbrev pub of_int : ℤ → Decimal
of_int n = record { plus = pos_part n; minus = neg_part n; below = 0 }

abbrev pub of_ℕ : ℕ → Decimal
of_ℕ n = record { plus = n; minus = 0; below = 0 }

-- The literal n / d with d > 0: `Decimal("0.0005")` is `ratio 5 10000`.
abbrev pub ratio : ℕ → ℕ → Decimal
ratio n d = record { plus = n; minus = 0; below = d - 1 }

abbrev pub zero_dec : Decimal
zero_dec = of_ℕ 0

unfoldable pub neg : Decimal → Decimal
neg a = record { plus = a.minus; minus = a.plus; below = a.below }

unfoldable pub add : Decimal → Decimal → Decimal
add a b = record {
  plus = a.plus * den b + b.plus * den a;
  minus = a.minus * den b + b.minus * den a;
  below = a.below * b.below + a.below + b.below;
}

unfoldable pub sub : Decimal → Decimal → Decimal
sub a b = record {
  plus = a.plus * den b + b.minus * den a;
  minus = a.minus * den b + b.plus * den a;
  below = a.below * b.below + a.below + b.below;
}

unfoldable pub mul : Decimal → Decimal → Decimal
mul a b = record {
  plus = a.plus * b.plus + a.minus * b.minus;
  minus = a.plus * b.minus + a.minus * b.plus;
  below = a.below * b.below + a.below + b.below;
}

-- a / b for b > 0, the only division that the program makes.
unfoldable pub div : Decimal → Decimal → Decimal
div a b = record {
  plus = a.plus * den b;
  minus = a.minus * den b;
  below = den a * (b.plus - b.minus) - 1;
}

-- `a < b` and `a <= b`.
unfoldable pub less : Decimal → Decimal → Bool
less a b = ltb (a.plus * den b + b.minus * den a) (b.plus * den a + a.minus * den b)

unfoldable pub at_most : Decimal → Decimal → Bool
at_most a b = leb (a.plus * den b + b.minus * den a) (b.plus * den a + a.minus * den b)

-- The order as statements.
abbrev pub Le : Decimal → Decimal → Type 0
Le a b = a.plus * den b + b.minus * den a ≤ b.plus * den a + a.minus * den b

abbrev pub Lt : Decimal → Decimal → Type 0
Lt a b = a.plus * den b + b.minus * den a < b.plus * den a + a.minus * den b

-- Equal values.
abbrev pub Same : Decimal → Decimal → Type 0
Same a b = a.plus * den b + b.minus * den a ≡ b.plus * den a + a.minus * den b

abbrev pub Nonneg : Decimal → Type 0
Nonneg a = a.minus ≤ a.plus

abbrev pub Positive : Decimal → Type 0
Positive a = a.minus < a.plus
