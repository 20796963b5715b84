-- ===== src/Tracker/Snapshot.antt =====
-- The daily snapshot: `create_daily_pnl_snapshot` and `create_or_replace_snapshot`.
use stock_ai_platform.Base.{
  ℕ, ◌+◌, Bool, ◌&&◌, Option, none, some, List, [], ◌∷◌, ◌++◌, ◌==◌, if◌then◌else◌, pos, leb_ℤ,
  find, update_where,
}
use stock_ai_platform.Base.Decimal.{Decimal, zero_dec, of_int, add, sub, mul}
use stock_ai_platform.Store.{
  VirtualPosition, VirtualPnlSnapshot, DailyPrice, value_error, Action, pure, gets, or_raise, ◌>>=◌,
  ok,
}
use stock_ai_platform.Account
use stock_ai_platform.Position
use stock_ai_platform.Prices

-- The computed figures of a snapshot.
pub record Totals : Type 0 where
  pub market_value : Decimal
  pub unrealized_pnl : Decimal
  pub realized_total : Decimal

abbrev pub no_totals : Totals
no_totals = record { market_value = zero_dec; unrealized_pnl = zero_dec; realized_total = zero_dec }

-- An open position with a price adds its market value and its gain over cost.
abbrev pub priced : VirtualPosition → Option DailyPrice → Totals → Totals
priced p none t = t
priced p (some bar) t =
    let value = mul bar.close (of_int p.quantity) in
    record t {
      market_value = add t.market_value value;
      unrealized_pnl = add t.unrealized_pnl (sub value (mul p.avg_cost (of_int p.quantity)));
    }

unfoldable pub add_position : ℕ → ℕ → VirtualPosition → Totals → Action Totals
unfolding Prices.get_latest_on_or_before
add_position date lookback p t =
    let t' = record t { realized_total = add t.realized_total p.realized_pnl } in
    if leb_ℤ p.quantity (pos 0)
    then pure t'
    else (Prices.get_latest_on_or_before p.symbol date lookback >>= λ bar. pure (priced p bar t'))

-- The loop over the positions.
unfoldable pub total_positions : ℕ → ℕ → List VirtualPosition → Totals → Action Totals
unfolding add_position
total_positions date lookback [] t = pure t
total_positions date lookback (p ∷ ps) t =
    add_position date lookback p t >>= total_positions date lookback ps

abbrev pub is_of : ℕ → ℕ → VirtualPnlSnapshot → Bool
is_of account date r = r.account_id == account && r.snapshot_date == date

unfoldable pub add_snapshot : ℕ → ℕ → Decimal → Totals → Action VirtualPnlSnapshot
add_snapshot account date cash t s =
    let row : VirtualPnlSnapshot = record {
      id = s.next_snapshot;
      account_id = account;
      snapshot_date = date;
      cash_balance = cash;
      market_value = t.market_value;
      total_value = add cash t.market_value;
      realized_pnl = t.realized_total;
      unrealized_pnl = t.unrealized_pnl;
      updated_at = s.clock;
    } in
    (ok row, record s { snapshots = s.snapshots ++ row ∷ []; next_snapshot = s.next_snapshot + 1 })

unfoldable pub replace_snapshot : VirtualPnlSnapshot → Decimal → Totals → Action VirtualPnlSnapshot
replace_snapshot old cash t s =
    let row : VirtualPnlSnapshot = record old {
      cash_balance = cash;
      market_value = t.market_value;
      total_value = add cash t.market_value;
      realized_pnl = t.realized_total;
      unrealized_pnl = t.unrealized_pnl;
      updated_at = s.clock;
    } in
    (ok row, record s { snapshots = update_where (λ r. r.id == old.id) (λ _. row) s.snapshots })

abbrev pub replace_or_add :
    Option VirtualPnlSnapshot → ℕ → ℕ → Decimal → Totals → Action VirtualPnlSnapshot
replace_or_add none account date cash t = add_snapshot account date cash t
replace_or_add (some old) account date cash t = replace_snapshot old cash t

unfoldable pub create_or_replace_snapshot : ℕ → ℕ → Decimal → Totals → Action VirtualPnlSnapshot
unfolding add_snapshot replace_snapshot
create_or_replace_snapshot account date cash t = do
  existing ← gets (λ s. find (is_of account date) s.snapshots)
  replace_or_add existing account date cash t

unfoldable pub create_daily_pnl_snapshot : ℕ → ℕ → ℕ → Action VirtualPnlSnapshot
unfolding Account.get_by_id Position.list_by_account total_positions create_or_replace_snapshot
create_daily_pnl_snapshot account date lookback = do
  found ← Account.get_by_id account
  row ← or_raise found value_error
  positions ← Position.list_by_account account
  t ← total_positions date lookback positions no_totals
  create_or_replace_snapshot account date row.cash_balance t
