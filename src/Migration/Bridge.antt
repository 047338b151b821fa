-- ===== src/Migration/Bridge.antt =====
-- internal/migration/bridge.go: the bridge that takes a row from DISCOVERED to PROVISIONED and calls
-- the provider on the way. The provider, the source of traits and the wall clock act on, or are read
-- in, the same world `S` as the store. A nil interface is `none`.
pub mod Traits
pub mod Targets
pub mod Construct
pub mod Advance
pub mod Failing
pub mod Provision
