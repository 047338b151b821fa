-- ===== src/Provider.antt =====
-- internal/provider
pub mod Errors
pub mod Specs
pub mod Scopes
pub mod Validate
mod Tests
