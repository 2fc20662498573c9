-- ===== src/Supervisor.antt =====
-- crates/lean-rs-worker-parent/src/supervisor.rs: the supervisor of one worker child.
pub mod Types
pub mod Policy
pub mod Stats
pub mod Session
pub mod Worker
pub mod Frame
pub mod Shutdown
pub mod Spawn
pub mod Reader
pub mod Sinks
pub mod Stream
pub mod Request
pub mod Restart
pub mod Admission
pub mod Reuse
pub mod Measure
mod Samples
mod Tests
