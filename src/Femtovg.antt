-- ===== src/Femtovg.antt =====
-- crates/benchmark-core/src/femtovg_e2e.rs: what the host does with a guest's bytes.
pub mod Imports
pub mod Png
pub mod Host
pub mod Bind
pub mod Guest
pub mod Driver
