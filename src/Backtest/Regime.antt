-- ===== src/Backtest/Regime.antt =====
-- The market regime of a signal (app/backtest/regime_split.py). Of a stored regime the date, the
-- market and the name are kept; a table has one row for a date and a market.
pub mod Latest
use stock_ai_platform.Base.{
  ℕ, Bool, ◌&&◌, Option, none, some, List, [], ◌∷◌, Text, codes, eq_text, leb, ltb, select,
  if◌then◌else◌,
}

pub record MarketRegime : Type 0 where
  pub date : ℕ
  pub market : Text
  pub regime : Text

abbrev unclassified_bucket : Text
unclassified_bucket = codes "UNCLASSIFIED"

-- The `WHERE` of the statement.
abbrev pub applies : ℕ → Text → MarketRegime → Bool
applies signal_date market r = eq_text r.market market && leb r.date signal_date

abbrev pub later_row : MarketRegime → Option MarketRegime → MarketRegime
later_row r none = r
later_row r (some q) = if ltb r.date q.date then q else r

-- `ORDER BY date DESC LIMIT 1`
unfoldable pub latest : List MarketRegime → Option MarketRegime
latest [] = none
latest (r ∷ rs) = some (later_row r (latest rs))

abbrev pub regime_of : Option MarketRegime → Option Text
regime_of none = none
regime_of (some r) = some r.regime

unfoldable pub assign_regime : List MarketRegime → ℕ → Text → Option Text
unfolding latest
assign_regime rows signal_date market =
    regime_of (latest (select (applies signal_date market) rows))

-- An empty name counts as none.
abbrev display_bucket : Option Text → Text
display_bucket none = unclassified_bucket
display_bucket (some []) = unclassified_bucket
display_bucket (some (c ∷ t)) = c ∷ t
