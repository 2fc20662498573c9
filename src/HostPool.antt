-- ===== src/HostPool.antt =====
-- crates/lean-rs-host/src/host/pool.rs: the pool of imported Lean environments inside one process.
pub mod State
pub mod Acquire
mod Tests
