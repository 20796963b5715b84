-- ===== src/Backtest.antt =====
-- The walk-forward split of app/backtest/walk_forward.py. The windows are natural numbers of days.
pub mod Tiles
pub mod Regime
use stock_ai_platform.Base.{
  ℕ, zero, suc, ◌+◌, ◌-◌, Option, none, some, List, [], ◌∷◌, ltb, if◌then◌else◌,
}

-- `(fold_index, train_start, train_end, validate_start, validate_end)`
pub record Fold : Type 0 where
  pub fold_index : ℕ
  pub train_start : ℕ
  pub train_end : ℕ
  pub validate_start : ℕ
  pub validate_end : ℕ

-- The two windows and the gap between them.
pub record Windows : Type 0 where
  pub train_window_days : ℕ
  pub validate_window_days : ℕ
  pub gap_days : ℕ

-- The fold of one round of the loop.
unfoldable pub fold_at : Windows → ℕ → ℕ → Fold
fold_at w fold_index cursor =
    let train_end = cursor + w.train_window_days - 1 in
    let validate_start = train_end + (w.gap_days + 1) in
    record {
      fold_index = fold_index;
      train_start = cursor;
      train_end = train_end;
      validate_start = validate_start;
      validate_end = validate_start + w.validate_window_days - 1;
    }

abbrev pub cons_some : Fold → Option (List Fold) → Option (List Fold)
cons_some f none = none
cons_some f (some fs) = some (f ∷ fs)

-- The loop, a round per unit of fuel; none when the fuel is used up.
unfoldable pub folds_from : ℕ → Windows → ℕ → ℕ → ℕ → Option (List Fold)
unfolding fold_at
folds_from zero w end_date fold_index cursor = none
folds_from (suc fuel) w end_date fold_index cursor =
    let f = fold_at w fold_index cursor in
    let rest = folds_from fuel w end_date (fold_index + 1) (cursor + w.validate_window_days) in
    if ltb end_date f.validate_end then some [] else cons_some f rest

-- A round for each day of the range and two more.
unfoldable pub generate_folds : ℕ → ℕ → Windows → Option (List Fold)
unfolding folds_from
generate_folds start_date end_date w =
    folds_from (end_date - start_date + 2) w end_date 0 start_date
