-- ===== src/Runtimes/Wasmz/Values.antt =====
-- The i32 in the payload of a wasmz value.
use wasm_benchmark.Base.{ℕ, ◌^◌, ◌<◌, ◌≡◌, arith}
use wasm_benchmark.Runtimes.Wasmz.{i32_val, as_i32}

-- What is written into a value as an i32 is read back.
pub as_i32-i32_val : (v : ℕ) → v < 2 ^ 32 → as_i32 (i32_val v) ≡ v
unfolding as_i32 i32_val
as_i32-i32_val v h = omega arith
