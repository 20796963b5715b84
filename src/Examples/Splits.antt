-- ===== src/Examples/Splits.antt =====
-- The walk-forward split at a concrete range, and the regimes of a small table.
use stock_ai_platform.Base.{◌≡◌, List, [], ◌∷◌, some, codes, arith}
use stock_ai_platform.Backtest.{Fold, Windows, generate_folds}
use stock_ai_platform.Backtest.Tiles.{Tiles, generate_folds-Tiles}
use stock_ai_platform.Backtest.Regime.{MarketRegime, assign_regime}
use stock_ai_platform.Backtest.Regime.Latest.{Latest, assign_regime-Latest}

abbrev short_windows : Windows
short_windows = record { train_window_days = 10; validate_window_days = 5; gap_days = 1 }

generate_folds-Tiles_example :
    (fs : List Fold) × (generate_folds 100 130 short_windows ≡ some fs)
    × Tiles short_windows 100 130 0 111 fs
generate_folds-Tiles_example =
    generate_folds-Tiles 100 130 short_windows (omega arith) (omega arith)

abbrev regimes : List MarketRegime
regimes =
    record { date = 10; market = codes "KOSPI"; regime = codes "UPTREND_EARLY" }
    ∷ record { date = 30; market = codes "KOSPI"; regime = codes "DOWNTREND" }
    ∷ record { date = 15; market = codes "KOSDAQ"; regime = codes "SIDEWAYS" }
    ∷ []

assign_regime-Latest_example :
    Latest regimes 20 (codes "KOSPI") (assign_regime regimes 20 (codes "KOSPI"))
assign_regime-Latest_example = assign_regime-Latest regimes 20 (codes "KOSPI")
