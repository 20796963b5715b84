-- ===== src/Backtest/Regime/Latest.antt =====
-- The regime of a signal is that of the latest row which is not after it.
use stock_ai_platform.Base.{
  ℕ, ◌≡◌, ◌≤◌, ◌⊎◌, inl, inr, refl, true, false, Option, none, some, List, [], ◌∷◌, Text, All, ltb,
  Bool-cases, select, arith, ltb→lt, sym,
}
use mathlib.Core.Path.{subst}
use stock_ai_platform.Backtest.Regime.{
  MarketRegime, applies, later_row, latest, regime_of, assign_regime,
}

-- Some row of the table has the property.
abbrev pub Any : (MarketRegime → Type 0) → List MarketRegime → Type 0
Any P [] = true ≡ false
Any P (r ∷ rs) = P r ⊎ Any P rs

-- The row that answers: it applies, has the regime, and no row that applies is later.
abbrev pub Answers : List MarketRegime → ℕ → Text → Text → MarketRegime → Type 0
Answers rows signal_date market regime q =
    (applies signal_date market q ≡ true)
    × (q.regime ≡ regime)
    × All (λ r. (applies signal_date market r ≡ false) ⊎ (r.date ≤ q.date)) rows

-- What is looked for: the answer of some row of the table, or nothing when no row applies.
abbrev pub Latest : List MarketRegime → ℕ → Text → Option Text → Type 0
Latest rows signal_date market none = All (λ r. applies signal_date market r ≡ false) rows
Latest rows signal_date market (some regime) = Any (Answers rows signal_date market regime) rows

-- The same of a row.
abbrev LatestRow : List MarketRegime → ℕ → Text → Option MarketRegime → Type 0
LatestRow rows d m none = All (λ r. applies d m r ≡ false) rows
LatestRow rows d m (some q) =
    Any (λ r. r ≡ q) rows
    × (applies d m q ≡ true)
    × All (λ r. (applies d m r ≡ false) ⊎ (r.date ≤ q.date)) rows

All-weaken :
    {P Q : MarketRegime → Type 0}
    → (rows : List MarketRegime) → ((r : MarketRegime) → P r → Q r)
    → All P rows
    → All Q rows
All-weaken [] f h = tt
All-weaken (r ∷ rs) f h = (f r h.0, All-weaken rs f h.1)

Any-weaken :
    {P Q : MarketRegime → Type 0}
    → (rows : List MarketRegime) → ((r : MarketRegime) → P r → Q r)
    → Any P rows
    → Any Q rows
Any-weaken [] f h = h
Any-weaken (r ∷ rs) f (inl p) = inl (f r p)
Any-weaken (r ∷ rs) f (inr h) = inr (Any-weaken rs f h)

-- A bound on the date of a row that applies may grow.
earlier :
    (d : ℕ) (m : Text) (x q r : MarketRegime)
    → q.date ≤ r.date
    → (applies d m x ≡ false) ⊎ (x.date ≤ q.date)
    → (applies d m x ≡ false) ⊎ (x.date ≤ r.date)
earlier d m x q r ge (inl off) = inl off
earlier d m x q r ge (inr up) = inr (omega (arith, up, ge))

later_row-LatestRow :
    (rows : List MarketRegime) (d : ℕ) (m : Text) (r : MarketRegime) (o : Option MarketRegime)
    → applies d m r ≡ true
    → LatestRow rows d m o
    → LatestRow (r ∷ rows) d m (some (later_row r o))
later_row-LatestRow rows d m r none a h =
    (inl refl, a, (inr (omega arith), All-weaken rows (λ x off. inl off) h))
later_row-LatestRow rows d m r (some q) a h = elim (Bool-cases (ltb r.date q.date)) [
  | inl below ↦
      let e : later_row r (some q) ≡ q = rw below refl in
      let lt = ltb→lt r.date q.date below in
      subst (λ x. LatestRow (r ∷ rows) d m (some x)) (sym e)
        (inr h.0, h.1, (inr (omega (arith, lt)), h.2))
  | inr above ↦
      let e : later_row r (some q) ≡ r = rw above refl in
      let ge : q.date ≤ r.date = ground arith in
      subst (λ x. LatestRow (r ∷ rows) d m (some x)) (sym e)
        (inl refl, a, (inr (omega arith), All-weaken rows (λ x up. earlier d m x q r ge up) h.2))
]

skipped-LatestRow :
    (rows : List MarketRegime) (d : ℕ) (m : Text) (r : MarketRegime) (o : Option MarketRegime)
    → applies d m r ≡ false
    → LatestRow rows d m o
    → LatestRow (r ∷ rows) d m o
skipped-LatestRow rows d m r none a h = (a, h)
skipped-LatestRow rows d m r (some q) a h = (inr h.0, h.1, (inl a, h.2))

latest-LatestRow :
    (rows : List MarketRegime) (d : ℕ) (m : Text)
    → LatestRow rows d m (latest (select (applies d m) rows))
unfolding latest
latest-LatestRow [] d m = tt
latest-LatestRow (r ∷ rs) d m =
    let ih = latest-LatestRow rs d m in
    elim (Bool-cases (applies d m r)) [
      | inl applied ↦
          rw applied (later_row-LatestRow rs d m r (latest (select (applies d m) rs)) applied ih)
      | inr skipped ↦
          rw skipped (skipped-LatestRow rs d m r (latest (select (applies d m) rs)) skipped ih)
    ]

regime_of-Latest :
    (rows : List MarketRegime) (d : ℕ) (m : Text) (o : Option MarketRegime)
    → LatestRow rows d m o
    → Latest rows d m (regime_of o)
regime_of-Latest rows d m none h = h
regime_of-Latest rows d m (some q) h = Any-weaken rows (λ r e. rw e (h.1, refl, h.2)) h.0

-- A signal gets the regime of a row of its market that is not after the signal and than which no
-- other such row is later; it gets none only when the table has no such row.
pub assign_regime-Latest :
    (rows : List MarketRegime) (signal_date : ℕ) (market : Text)
    → Latest rows signal_date market (assign_regime rows signal_date market)
unfolding assign_regime
assign_regime-Latest rows d m =
    regime_of-Latest rows d m (latest (select (applies d m) rows)) (latest-LatestRow rows d m)
