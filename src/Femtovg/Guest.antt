-- ===== src/Femtovg/Guest.antt =====
-- workloads-rs-cargo/femtovg-guest/src/lib.rs: the guest of the femtovg driver.
pub mod Tree
pub mod Paths
pub mod Walk
pub mod Draw
pub mod Canvas
pub mod Entries
pub mod Picture
pub mod Wire
mod Runs
