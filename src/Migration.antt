-- ===== src/Migration.antt =====
-- internal/migration
pub mod Errors
pub mod Types
pub mod Texts
pub mod Validate
pub mod State
pub mod Store
pub mod Service
pub mod Ledger
pub mod Bridge
pub mod Stages
pub mod Calls
mod Tests
pub mod Discovery
pub mod Batch
