-- ===== src/Workload.antt =====
-- The standalone guest programs of workloads-rs, and the host's re-computations of them.
pub mod Lcg
pub mod Checksum
pub mod Crc
pub mod Fib
pub mod Factorial
pub mod Sieve
pub mod Vtable
pub mod Indirect
pub mod Convolution
pub mod Bulk
