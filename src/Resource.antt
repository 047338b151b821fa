-- ===== src/Resource.antt =====
-- pkg/workloadresource/gate.go: the gate at which a resource accepts workload tokens.
pub mod Sets
pub mod Types
pub mod New
pub mod Gate
mod Tests
