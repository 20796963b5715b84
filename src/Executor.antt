-- ===== src/Executor.antt =====
-- RealOrderExecutor (app/broker/real_order_executor.py): the ten gates in their order, then the
-- dry run or the real placement. The digest is a parameter, SHA-256 in hexadecimal; the messages
-- of the results are left out.
mod Words
mod Place
mod Run
pub mod Classify
pub mod Scrubbed
pub mod Gates
pub mod Anchor
pub mod Placed
pub mod Effect
pub mod Safe
pub mod Once
pub mod Outcome
pub mod Ends
pub mod Unreached
unfoldable pub use Words.*
unfoldable pub use Place.*
unfoldable pub use Run.*
