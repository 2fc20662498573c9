-- ===== src/Capability.antt =====
-- crates/lean-rs-worker-parent/src/capability.rs: the builder that describes a capability and its worker.
pub mod Child
pub mod Builder
pub mod Session
pub mod Worker
pub mod Planned
pub mod Signatures
mod Tests
