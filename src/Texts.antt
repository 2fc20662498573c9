-- ===== src/Texts.antt =====
-- The routines that bound a text in bytes, of several crates.
pub mod Bound
pub mod Cut
pub mod Bootstrap
mod Tests
