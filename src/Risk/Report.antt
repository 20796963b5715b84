-- ===== src/Risk/Report.antt =====
-- What `evaluate` reports: the rules in order, each at most once.
use stock_ai_platform.Base.{
  ℕ, suc, ◌≡◌, refl, Bool, true, false, none, some, [], ◌∷◌, ◌++◌, arith, ◌≤◌, find, Option,
  if◌then◌else◌,
}
use stock_ai_platform.Store.{
  RuleId, account_paper_enabled, kill_switch_off, per_symbol_limit, daily_total_limit,
  position_ratio_limit, daily_loss_limit, duplicate_recent, VirtualAccount, VirtualPnlSnapshot,
  OrderCandidate, Settings, Session,
}
use stock_ai_platform.Account
use stock_ai_platform.Risk.Rules.{
  Violations, violation, check_account_paper_enabled, check_kill_switch_off, check_per_symbol_limit,
  check_daily_total_limit, check_position_ratio_limit, check_daily_loss_limit,
  check_duplicate_recent, is_duplicate, duplicate_violation, check_ratio, check_loss,
  latest_pnl_snapshot,
}
use stock_ai_platform.Risk.Evaluate.{is_clean, violations, evaluate}

-- The place of a rule in the evaluation.
abbrev pub rank : RuleId → ℕ
rank account_paper_enabled = 1
rank kill_switch_off = 2
rank per_symbol_limit = 3
rank daily_total_limit = 4
rank position_ratio_limit = 5
rank daily_loss_limit = 6
rank duplicate_recent = 7

-- The ranks grow strictly from above `low`.
abbrev pub Ordered : ℕ → Violations → Type 0
Ordered low [] = Unit
Ordered low (v ∷ vs) = (suc low ≤ rank v.rule_id) × Ordered (rank v.rule_id) vs

-- One rule's report: nothing, or the rule itself.
abbrev Single : RuleId → Violations → Type 0
Single r [] = Unit
Single r (v ∷ []) = v.rule_id ≡ r
Single r (v ∷ w ∷ vs) = ⊥

Ordered-weaken : (a b : ℕ) (vs : Violations) → a ≤ b → Ordered b vs → Ordered a vs
Ordered-weaken a b [] h k = tt
Ordered-weaken a b (v ∷ vs) h k = (omega (arith, k.0), k.1)

step :
    (low : ℕ) (r : RuleId) (xs ys : Violations)
    → suc low ≤ rank r
    → Single r xs
    → Ordered (rank r) ys
    → Ordered low (xs ++ ys)
step low r [] ys h k o = Ordered-weaken low (rank r) ys (omega (arith, h)) o
step low r (v ∷ []) ys h k o = (rw (← k) at h, rw (← k) at o)
step low r (v ∷ w ∷ vs) ys h k o = absurd k

if-Single : (b : Bool) (r : RuleId) → Single r (if b then violation r else [])
if-Single true r = refl
if-Single false r = tt

ratio-Single :
    (settings : Settings) (s : Session) (c : OrderCandidate) (o : Option VirtualAccount)
    → Single position_ratio_limit (check_position_ratio_limit settings s c o)
unfolding check_position_ratio_limit check_ratio
ratio-Single settings s c none = tt
ratio-Single settings s c (some a) = ground arith

loss-Single :
    (settings : Settings) (o : Option VirtualPnlSnapshot)
    → Single daily_loss_limit (check_loss settings o)
unfolding check_loss
loss-Single settings none = tt
loss-Single settings (some p) = ground arith

account-Single :
    (o : Option VirtualAccount) → Single account_paper_enabled (check_account_paper_enabled o)
unfolding check_account_paper_enabled
account-Single none = refl
account-Single (some a) = ground arith

duplicate-Single : (o : Option OrderCandidate) → Single duplicate_recent (duplicate_violation o)
duplicate-Single none = tt
duplicate-Single (some r) = refl

-- The last rule, with nothing after it.
last-Ordered :
    (low : ℕ) (r : RuleId) (xs : Violations) → suc low ≤ rank r → Single r xs → Ordered low xs
last-Ordered low r [] h k = tt
last-Ordered low r (v ∷ []) h k = (rw (← k) at h, tt)
last-Ordered low r (v ∷ w ∷ vs) h k = absurd k

-- The violations come in the order of the seven rules, each rule at most once, and the verdict
-- is a pass exactly when there is none.
pub evaluate-Ordered :
    (settings : Settings) (s : Session) (c : OrderCandidate) (now : ℕ)
    → Ordered 0 (evaluate settings s c now).violations
      × ((evaluate settings s c now).passed ≡ is_clean (evaluate settings s c now).violations)
unfolding evaluate violations check_kill_switch_off check_per_symbol_limit check_daily_total_limit
    check_daily_loss_limit check_duplicate_recent
evaluate-Ordered settings s c now =
    let account = find (Account.has_id c.account_id) s.accounts in
    (
      step 0 account_paper_enabled (check_account_paper_enabled account) _ (omega arith)
          (account-Single account)
          (step 1 kill_switch_off (check_kill_switch_off settings) _ (omega arith)
            (if-Single _ kill_switch_off)
            (step 2 per_symbol_limit (check_per_symbol_limit settings s c) _ (omega arith)
              (if-Single _ per_symbol_limit)
              (step 3 daily_total_limit (check_daily_total_limit settings s c now) _ (omega arith)
                (if-Single _ daily_total_limit)
                (step 4 position_ratio_limit (check_position_ratio_limit settings s c account) _
                  (omega arith) (ratio-Single settings s c account)
                  (step 5 daily_loss_limit (check_daily_loss_limit settings s c) _ (omega arith)
                    (loss-Single settings (latest_pnl_snapshot s c.account_id))
                    (last-Ordered 6 duplicate_recent (check_duplicate_recent s c now) (omega arith)
                      (duplicate-Single (find (is_duplicate c now) s.candidates)))))))),
      refl,
    )
