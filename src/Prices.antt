-- ===== src/Prices.antt =====
-- The reads of DailyPriceRepository (app/data/repositories/daily_prices.py) that the trading core
-- makes. A table has one bar for a symbol and a date.
use stock_ai_platform.Base.{
  ℕ, ◌+◌, Bool, ◌&&◌, Option, none, some, List, [], ◌∷◌, leb, ltb, ◌==◌, if◌then◌else◌, Text,
  eq_text, find, select,
}
use stock_ai_platform.Store.{DailyPrice, Action, gets}

unfoldable pub get_by_symbol_date : Text → ℕ → Action (Option DailyPrice)
get_by_symbol_date symbol date =
    gets λ s. find (λ p. eq_text p.symbol symbol && p.date == date) s.prices

abbrev pub later_bar : DailyPrice → Option DailyPrice → DailyPrice
later_bar p none = p
later_bar p (some q) = if ltb p.date q.date then q else p

-- `ORDER BY date DESC LIMIT 1`
unfoldable pub latest : List DailyPrice → Option DailyPrice
latest [] = none
latest (p ∷ ps) = some (later_bar p (latest ps))

unfoldable pub get_latest_by_symbol : Text → Action (Option DailyPrice)
unfolding latest
get_latest_by_symbol symbol = gets λ s. latest (select (λ p. eq_text p.symbol symbol) s.prices)

abbrev pub in_window : Text → ℕ → ℕ → DailyPrice → Bool
in_window symbol target lookback p =
    eq_text p.symbol symbol && (leb p.date target && leb target (p.date + lookback))

unfoldable pub get_latest_on_or_before : Text → ℕ → ℕ → Action (Option DailyPrice)
unfolding latest
get_latest_on_or_before symbol target lookback =
    gets λ s. latest (select (in_window symbol target lookback) s.prices)
