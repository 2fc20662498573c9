-- ===== src/Protocol.antt =====
-- crates/lean-rs-worker-protocol: the messages of the worker wire protocol, its length-delimited
-- frames, and the emitter that numbers the rows of each stream.
pub mod Message
pub mod Frame
pub mod Rows
mod Tests
