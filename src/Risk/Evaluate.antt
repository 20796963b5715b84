-- ===== src/Risk/Evaluate.antt =====
-- `PreTradeRiskEngine.evaluate`: every rule, in order. It writes nothing.
use stock_ai_platform.Base.{ℕ, Bool, true, false, [], ◌∷◌, ◌++◌, Text, codes, find}
use stock_ai_platform.Store.{OrderCandidate, RiskCheckResult, Settings, Session}
use stock_ai_platform.Account
use stock_ai_platform.Risk.Rules.{
  Violations, check_account_paper_enabled, check_kill_switch_off, check_per_symbol_limit,
  check_daily_total_limit, check_position_ratio_limit, check_daily_loss_limit,
  check_duplicate_recent,
}

abbrev pub policy_version : Text
policy_version = codes "pre-trade-v1"

abbrev pub is_clean : Violations → Bool
is_clean [] = true
is_clean (v ∷ vs) = false

unfoldable pub violations : Settings → Session → OrderCandidate → ℕ → Violations
violations settings s c now =
    let account = find (Account.has_id c.account_id) s.accounts in
    check_account_paper_enabled account
    ++ (check_kill_switch_off settings
        ++ (check_per_symbol_limit settings s c
            ++ (check_daily_total_limit settings s c now
                ++ (check_position_ratio_limit settings s c account
                    ++ (check_daily_loss_limit settings s c ++ check_duplicate_recent s c now)))))

unfoldable pub evaluate : Settings → Session → OrderCandidate → ℕ → RiskCheckResult
unfolding violations
evaluate settings s c now = record {
  policy_version = policy_version;
  passed = is_clean (violations settings s c now);
  violations = violations settings s c now;
  checked_at = now;
}
