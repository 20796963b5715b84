-- ===== src/Risk.antt =====
-- PreTradeRiskEngine (app/risk/pre_trade_risk_engine.py): `evaluate` runs the seven rules of the
-- child `Rules`, never short of the last, and passes where none is violated.
pub mod Rules
pub mod Evaluate
pub mod Verdict
pub mod Report
unfoldable pub use Evaluate.*
