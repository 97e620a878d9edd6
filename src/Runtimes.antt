-- ===== src/Runtimes.antt =====
-- The adapters of crates/benchmark-core/src that drive an interpreter over its C library:
-- wasmz.rs, wasm3.rs, zwasm.rs and wamr.rs. Each library is a parameter, a record of functions that
-- pass a state on, and may answer anything, NULL and errors included.
pub mod Trace
pub mod Action
pub mod Kept
pub mod Keeps
pub mod Thread
pub mod Wasmz
pub mod Wasm3
pub mod Wamr
pub mod Zwasm
pub mod Wasmedge
mod Runs
