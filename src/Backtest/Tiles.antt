-- ===== src/Backtest/Tiles.antt =====
-- The walk-forward split ends, and its windows tile the range.
use stock_ai_platform.Base.{
  ℕ, zero, suc, ◌+◌, ◌-◌, ◌≡◌, ◌≤◌, ◌<◌, refl, true, false, some, List, [], ◌∷◌, arith, inl, inr,
  Bool-cases, ltb, ltb→lt, sym,
}
use mathlib.Core.Path.{subst}
use stock_ai_platform.Backtest.{Fold, Windows, fold_at, folds_from, generate_folds}

-- A fold of the two windows and the gap, inside the range.
pub record Fits (w : Windows) (start_date end_date : ℕ) (f : Fold) : Type 0 where
  pub starts : start_date ≤ f.train_start
  pub train : f.train_end + 1 ≡ f.train_start + w.train_window_days
  pub gap : f.validate_start ≡ f.train_end + w.gap_days + 1
  pub validate : f.validate_end + 1 ≡ f.validate_start + w.validate_window_days
  pub ends : f.validate_end ≤ end_date

-- The folds that are left when the next one has the index `i` and its validation starts at `v`:
-- they are numbered in order, each validation starts the day after the one before it ends, and
-- after the last there is no room for another.
abbrev pub Tiles : Windows → ℕ → ℕ → ℕ → ℕ → List Fold → Type 0
Tiles w start_date end_date i v [] = end_date + 1 < v + w.validate_window_days
Tiles w start_date end_date i v (f ∷ fs) =
    Fits w start_date end_date f
    × (f.fold_index ≡ i)
    × (f.validate_start ≡ v)
    × Tiles w start_date end_date (i + 1) (f.validate_end + 1) fs

fold_at-Fits :
    (w : Windows) (start_date end_date i cursor : ℕ)
    → 1 ≤ w.train_window_days
    → 1 ≤ w.validate_window_days
    → start_date ≤ cursor
    → ltb end_date (fold_at w i cursor).validate_end ≡ false
    → Fits w start_date end_date (fold_at w i cursor)
unfolding fold_at
fold_at-Fits w start_date end_date i cursor t v s h = record {
  starts = s;
  train = omega (arith, t);
  gap = omega arith;
  validate = omega (arith, v);
  ends = ground arith;
}

-- The fold of a round: its index, its validation, and where the next one starts.
fold_at-next :
    (w : Windows) (i cursor : ℕ)
    → 1 ≤ w.train_window_days
    → 1 ≤ w.validate_window_days
    → ((fold_at w i cursor).fold_index ≡ i)
      × ((fold_at w i cursor).validate_start ≡ cursor + w.train_window_days + w.gap_days)
      × ((fold_at w i cursor).validate_end + 1
          ≡ cursor + w.validate_window_days + w.train_window_days + w.gap_days)
unfolding fold_at
fold_at-next w i cursor t v = (refl, omega (arith, t), omega (arith, t, v))

folds_from-stops :
    (fuel : ℕ) (w : Windows) (end_date i cursor : ℕ)
    → ltb end_date (fold_at w i cursor).validate_end ≡ true
    → folds_from (suc fuel) w end_date i cursor ≡ some []
unfolding folds_from
folds_from-stops fuel w end_date i cursor h = rw (folds_from, h) refl

folds_from-goes :
    (fuel : ℕ) (w : Windows) (end_date i cursor : ℕ) (fs : List Fold)
    → ltb end_date (fold_at w i cursor).validate_end ≡ false
    → folds_from fuel w end_date (i + 1) (cursor + w.validate_window_days) ≡ some fs
    → folds_from (suc fuel) w end_date i cursor ≡ some (fold_at w i cursor ∷ fs)
unfolding folds_from
folds_from-goes fuel w end_date i cursor fs h r = rw (folds_from, h, r) refl

folds_from-Tiles :
    (fuel : ℕ) (w : Windows) (start_date end_date i cursor : ℕ)
    → 1 ≤ w.train_window_days
    → 1 ≤ w.validate_window_days
    → start_date ≤ cursor
    → end_date + 2 ≤ fuel + cursor
    → 1 ≤ fuel
    → (fs : List Fold) × (folds_from fuel w end_date i cursor ≡ some fs)
      × Tiles w start_date end_date i (cursor + w.train_window_days + w.gap_days) fs
folds_from-Tiles zero w start_date end_date i cursor t v s enough one = absurd (omega (arith, one))
folds_from-Tiles (suc fuel) w start_date end_date i cursor t v s enough one =
    let f = fold_at w i cursor in
    let n = fold_at-next w i cursor t v in
    let ih =
      folds_from-Tiles fuel w start_date end_date (i + 1) (cursor + w.validate_window_days) t v
        (omega (arith, s)) (omega (arith, enough, v)) in
    elim (Bool-cases (ltb end_date f.validate_end)) [
      | inl over ↦
          let past : end_date < f.validate_end = ltb→lt end_date f.validate_end over in
          ([], folds_from-stops fuel w end_date i cursor over, omega (arith, past, n.2))
      | inr room ↦
          let fits = fold_at-Fits w start_date end_date i cursor t v s room in
          let e = fits.ends in
          let r = ih (omega (arith, n.2, e, enough, t, v)) in
          (
            f ∷ r.0,
            folds_from-goes fuel w end_date i cursor r.0 room r.1,
            (fits, n.0, n.1, subst (λ d. Tiles w start_date end_date (i + 1) d r.0) (sym n.2) r.2),
          )
    ]

-- With windows of at least a day the split returns. Each of its folds has windows of the asked
-- lengths, with the gap between them, inside the range; the first validation starts after the first
-- training window and gap, each later one on the day after the one before it ends; and after the
-- last fold there is no room for another.
pub generate_folds-Tiles :
    (start_date end_date : ℕ) (w : Windows)
    → 1 ≤ w.train_window_days
    → 1 ≤ w.validate_window_days
    → (fs : List Fold) × (generate_folds start_date end_date w ≡ some fs)
      × Tiles w start_date end_date 0 (start_date + w.train_window_days + w.gap_days) fs
unfolding generate_folds
generate_folds-Tiles start_date end_date w t v =
    folds_from-Tiles (end_date - start_date + 2) w start_date end_date 0 start_date t v
      (omega arith) (omega arith) (omega arith)
