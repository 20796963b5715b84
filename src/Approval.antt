-- ===== src/Approval.antt =====
-- ApprovalService (app/approval/approval_service.py): the workflow that composes the candidates,
-- the risk engine, the audit trail and the simulation broker.
mod Shared
mod Create
mod Decide
pub mod Gates
pub mod Keeps
pub mod Frame
pub mod Trail
pub mod Requests
pub mod Settled
pub mod Aside
pub mod Settling
pub mod Resting
pub mod Outcome
pub mod Granted
pub mod Key
pub mod Route
unfoldable pub use Shared.*
unfoldable pub use Create.*
unfoldable pub use Decide.*
