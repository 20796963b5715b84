-- ===== src/FillSync.antt =====
-- FillSyncService (app/broker/fill_sync_service.py): what the broker reports of a real order
-- becomes fills and a status.
mod Words
mod Service
pub mod Kept
pub mod Counter
pub mod Branches
pub mod HighWater
pub mod Refines
pub mod Sequence
pub mod Route
pub mod Once
unfoldable pub use Words.*
unfoldable pub use Service.*
