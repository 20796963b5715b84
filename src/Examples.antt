-- ===== src/Examples.antt =====
-- Concrete rows and runs: each theorem of the results at an input where its hypotheses hold.
mod Data
mod Approvals
mod Trading
mod Guards
mod RealOrders
mod Splits
mod Posts
