-- ===== src/WorkerChild.antt =====
-- crates/lean-rs-worker-child/src/child.rs: the worker child.
pub mod Key
pub mod Sessions
mod Tests
