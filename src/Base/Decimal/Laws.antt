-- ===== src/Base/Decimal/Laws.antt =====
-- Signs, orders and sums of decimals. With these lemmas the operations stay shut elsewhere.
use stock_ai_platform.Base.{ℕ, suc, ◌+◌, ◌*◌, ◌-◌, ◌≤◌, ◌≡◌, true, false, arith, ℤ, pos, ◌≤ℤ◌}
use stock_ai_platform.Base.Decimal.Defs.{
  Decimal, den, of_int, zero_dec, add, sub, mul, div, less, at_most, Le, Lt, Same, Nonneg, Positive,
}

pub less→Lt : (a b : Decimal) → less a b ≡ true → Lt a b
unfolding less
less→Lt a b h = ground arith

pub not_less→Le : (a b : Decimal) → less a b ≡ false → Le b a
unfolding less
not_less→Le a b h = ground arith

pub at_most→Le : (a b : Decimal) → at_most a b ≡ true → Le a b
unfolding at_most
at_most→Le a b h = ground arith

pub not_at_most→Lt : (a b : Decimal) → at_most a b ≡ false → Lt b a
unfolding at_most
not_at_most→Lt a b h = ground arith

pub Le→at_most : (a b : Decimal) → Le a b → at_most a b ≡ true
unfolding at_most
Le→at_most a b h = ground arith

pub Le→not_less : (a b : Decimal) → Le b a → less a b ≡ false
unfolding less
Le→not_less a b h = ground arith

pub Nonneg-of_not_less : (a : Decimal) → less a zero_dec ≡ false → Nonneg a
unfolding less
Nonneg-of_not_less a h = ground arith

pub less_zero_of_Nonneg : (a : Decimal) → Nonneg a → less a zero_dec ≡ false
unfolding less
less_zero_of_Nonneg a h = ground arith

pub Positive-of_not_at_most : (a : Decimal) → at_most a zero_dec ≡ false → Positive a
unfolding at_most
Positive-of_not_at_most a h = ground arith

pub at_most_zero_of_Positive : (a : Decimal) → Positive a → at_most a zero_dec ≡ false
unfolding at_most
at_most_zero_of_Positive a h = ground arith

pub sub-Nonneg : (a b : Decimal) → Le b a → Nonneg (sub a b)
unfolding sub
sub-Nonneg a b h = omega arith

pub add-Nonneg : (a b : Decimal) → Nonneg a → Nonneg b → Nonneg (add a b)
unfolding add
add-Nonneg a b h k = grind arith

-- (p - m)(q - n) is nonnegative.
cross_from : (m x n z : ℕ) → (m + x) * n + m * (n + z) ≤ (m + x) * (n + z) + m * n
cross_from m x n z = omega arith

cross : (p m q n : ℕ) → m ≤ p → n ≤ q → p * n + m * q ≤ p * q + m * n
cross p m q n h k =
    let e : m + (p - m) ≡ p = omega arith in
    let f : n + (q - n) ≡ q = omega arith in rw (e, f) at (cross_from m (p - m) n (q - n))

pub mul-Nonneg : (a b : Decimal) → Nonneg a → Nonneg b → Nonneg (mul a b)
unfolding mul
mul-Nonneg a b h k = omega (arith, cross a.plus a.minus b.plus b.minus h k)

pub div-Nonneg : (a b : Decimal) → Nonneg a → Nonneg (div a b)
unfolding div
div-Nonneg a b h = grind arith

pub of_int-Nonneg : (n : ℤ) → pos 0 ≤ℤ n → Nonneg (of_int n)
of_int-Nonneg n h = ground arith

-- Sums cancel by value.
pub sub-add_cancel : (a b : Decimal) → Same (add (sub a b) b) a
unfolding add sub
sub-add_cancel a b = omega arith

pub add-sub_cancel : (a b : Decimal) → Same (sub (add a b) b) a
unfolding add sub
add-sub_cancel a b = omega arith

-- The order of values.
scale : (m n k : ℕ) → m ≤ n → m * k ≤ n * k
scale m n k h = grind arith

unscale : (m n k : ℕ) → m * suc k ≤ n * suc k → m ≤ n
unscale m n k h = grind arith

pub add-Le : (a b : Decimal) → Nonneg b → Le a (add a b)
unfolding add
add-Le a b h = omega (arith, scale b.minus b.plus (den a * den a) h)

pub sub-Le : (a b : Decimal) → Nonneg b → Le (sub a b) a
unfolding sub
sub-Le a b h = omega (arith, scale b.minus b.plus (den a * den a) h)

pub Le-trans : (a b c : Decimal) → Le a b → Le b c → Le a c
Le-trans a b c h k =
    unscale (a.plus * den c + c.minus * den a) (c.plus * den a + a.minus * den c) b.below
      (omega (arith, scale _ _ (den c) h, scale _ _ (den a) k))

pub zero_dec-Le : (a : Decimal) → Nonneg a → Le zero_dec a
zero_dec-Le a h = omega arith
