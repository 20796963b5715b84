-- ===== src/Base/Digits.antt =====
-- Python's rendering of a natural number in an f-string, and that it is injective.
use Prim.Native.Nat.{ℕ, zero, suc, ◌+◌, ◌-◌, ◌*◌, ◌/◌, ◌%◌, ◌<◌}
use mathlib.Core.Path.{◌≡◌, refl, ap, sym, ◌∙◌}
use mathlib.Core.List.{[], ◌∷◌, ◌++◌}
use native.Mathlib.Omega.{arith}
use mathlib.Core.Logic.{inl, inr}
use stock_ai_platform.Base.Tests.{ltb, if◌then◌else◌, Bool-cases}
use stock_ai_platform.Base.Strings.{Text}

-- The last digit is written last; `fuel` bounds the digits.
digits_from : ℕ → ℕ → Text
digits_from zero n = []
digits_from (suc fuel) n =
    let front = digits_from fuel (n / 10) in
    if ltb n 10 then (n + 48) ∷ [] else front ++ (n % 10 + 48) ∷ []

unfoldable pub decimal : ℕ → Text
unfolding digits_from
decimal n = digits_from (suc n) n

-- The number that a text of digits stands for.
value_from : ℕ → Text → ℕ
value_from acc [] = acc
value_from acc (c ∷ t) = value_from (10 * acc + (c - 48)) t

value_from-append :
    (acc c : ℕ) (t : Text) → value_from acc (t ++ c ∷ []) ≡ 10 * value_from acc t + (c - 48)
unfolding value_from
value_from-append acc c [] = refl
value_from-append acc c (d ∷ t) = value_from-append (10 * acc + (d - 48)) c t

value-digits : (fuel n : ℕ) → n < fuel → value_from 0 (digits_from fuel n) ≡ n
unfolding digits_from
value-digits zero n h = absurd (omega arith)
value-digits (suc fuel) n h = elim (Bool-cases (ltb n 10)) [
  | inl small ↦ rw small (unfold value_from in omega arith)
  | inr large ↦ rw large (
      value_from-append 0 (n % 10 + 48) (digits_from fuel (n / 10))
      ∙ omega (arith, value-digits fuel (n / 10) (ground arith)))
]

-- Different numbers have different renderings.
pub decimal-injective : (m n : ℕ) → decimal m ≡ decimal n → m ≡ n
unfolding decimal
decimal-injective m n h =
    sym (value-digits (suc m) m (omega arith))
    ∙ ap (value_from 0) h
    ∙ value-digits (suc n) n (omega arith)
