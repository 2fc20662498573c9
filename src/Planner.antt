-- ===== src/Planner.antt =====
-- crates/lean-rs-worker-parent/src/planning.rs: the planner that groups modules into the batches of one
-- worker session each.
pub mod Names
pub mod Work
pub mod Config
pub mod Groups
pub mod Plan
pub mod Samples
mod Tests
