-- ===== src/Books.antt =====
-- The books of paper trading: what the tracker and the broker keep true of every account and
-- every position.
pub mod Sound
pub mod Fills
pub mod Trading
pub use Sound.*
