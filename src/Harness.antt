-- ===== src/Harness.antt =====
-- crates/benchmark-core/src: the measurement window and loops (lib.rs), the CPU accounting
-- (residency.rs), the case table (cases.rs) and the C ABI (lib.rs).
pub mod Iters
pub mod Usage
pub mod Window
pub mod Measure
pub mod Table
pub mod Cases
pub mod Abi
