-- ===== src/Workload/Factorial.antt =====
-- workloads-rs/factorial.rs. An i32 is its bit pattern; fuel counts the tests of the loop.
pub mod Ends
mod Runs
use wasm_benchmark.Base.{
  ℕ, zero, suc, Bool, true, false, Option, none, some, wrapping_add, wrapping_mul, signed_leb,
}

-- while i <= n { acc = acc.wrapping_mul(i); i = i.wrapping_add(1); }
unfoldable pub factorial_loop : ℕ → ℕ → ℕ → ℕ → Option ℕ
factorial_loop zero n acc i = none
factorial_loop (suc fuel) n acc i = elim (signed_leb i n) [
  | true ↦ factorial_loop fuel n (wrapping_mul acc i) (wrapping_add i 1)
  | false ↦ some acc
]

unfoldable pub factorial : ℕ → ℕ → Option ℕ
factorial fuel n = factorial_loop fuel n 1 2
