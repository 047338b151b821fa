-- ===== src/Token.antt =====
-- internal/tokenprofile: which workload and human tokens the issuer may issue.
pub mod Types
pub mod Errors
pub mod Canonical
pub mod Hold
pub mod Native
pub mod Human
pub mod Profile
pub mod Request
pub mod Sets
pub mod Split
mod Tests
