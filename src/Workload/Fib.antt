-- ===== src/Workload/Fib.antt =====
-- Fibonacci three times: workloads-rs/fib.rs (two calls), workloads-rs/fib_tail.rs (a tail call
-- with accumulators), and `fib_reference` of crates/benchmark-core/src/lib.rs (a loop). An i32 is
-- its bit pattern; fuel counts the depth of calls, and `none` means that it ran out.
pub mod Agreement
mod Runs
use wasm_benchmark.Base.{
  ℕ, zero, suc, ◌+◌, ◌%◌, ◌^◌, Bool, true, false, Option, none, some, ◌>>=◌, ltb, ◌==◌,
  if◌then◌else◌, wrapping_add, wrapping_sub, signed_ltb,
}

unfoldable pub fib : ℕ → ℕ → Option ℕ
fib zero n = none
fib (suc fuel) n = elim (signed_ltb n 2) [
  | true ↦ some n
  | false ↦ do
    a ← fib fuel (wrapping_sub n 1)
    b ← fib fuel (wrapping_sub n 2)
    some (wrapping_add a b)
]

unfoldable pub fib_acc : ℕ → ℕ → ℕ → ℕ → Option ℕ
fib_acc zero n a b = none
fib_acc (suc fuel) n a b = elim (n == 0) [
  | true ↦ some a
  | false ↦ fib_acc fuel (wrapping_sub n 1) b (wrapping_add a b)
]

unfoldable pub fib_tail : ℕ → ℕ → Option ℕ
fib_tail fuel n = fib_acc fuel n 0 1

-- `for _ in 0..n` with the rounds left; the range is empty for a negative n.
unfoldable pub reference_loop : ℕ → ℕ → ℕ → ℕ
reference_loop zero a b = a
reference_loop (suc left) a b = reference_loop left b (wrapping_add a b)

unfoldable pub fib_reference : ℕ → ℕ
fib_reference n = reference_loop (if signed_ltb n 0 then 0 else n) 0 1
