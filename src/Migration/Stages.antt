-- ===== src/Migration/Stages.antt =====
-- internal/migration/credential.go and verification.go: the stages after PROVISIONED.
pub mod Credential
pub mod Verification
pub mod Refines
pub mod Outcome
pub mod Verified
