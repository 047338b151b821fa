-- ===== src/Federation.antt =====
-- internal/federation: trust in federated identity providers, and the use of an identity from one.
pub mod Types
pub mod Ports
pub mod Grammar
pub mod Validate
pub mod Ledger
pub mod Conditions
pub mod Consume
mod Tests
