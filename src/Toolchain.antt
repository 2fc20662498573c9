-- ===== src/Toolchain.antt =====
-- crates/lean-toolchain/src/loader.rs: the part that describes exports.
pub mod Abi
pub mod Labels
