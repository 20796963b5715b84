-- ===== src/Base/Decimal.antt =====
-- Python's `Decimal`: the operations and the laws of their order.
mod Defs
mod Laws
unfoldable pub use Defs.*
pub use Laws.*
