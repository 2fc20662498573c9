-- ===== src/WorkerPool.antt =====
-- crates/lean-rs-worker-parent/src/pool.rs: the pool of local workers and the leases on them.
pub mod Config
pub mod Entry
pub mod State
pub mod Pool
pub mod Lease
pub mod Run
pub mod Keys
mod Tests
