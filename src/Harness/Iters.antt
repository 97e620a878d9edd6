-- ===== src/Harness/Iters.antt =====
-- `pick_iters` of crates/benchmark-core/src/lib.rs. A Duration is its nanoseconds; the parsed
-- BENCH_TARGET_MS is a parameter. `none` is the panic of a division by zero.
mod Runs
use native.Mathlib.Nat.{mul-le-mul_right, div-mul-le_self, lt-div-mul-add}
use wasm_benchmark.Base.{
  ℕ, ◌+◌, ◌*◌, ◌/◌, ◌%◌, ◌^◌, ◌-◌, ◌≤◌, ◌<◌, ◌≡◌, ap, min, max, Option, none, some, ltb, ◌==◌,
  if◌then◌else◌, arith,
}

-- `.filter(|&v| v > 0).map(|ms| ms.saturating_mul(1_000_000)).unwrap_or_else(...)`
unfoldable pub target_ns : Option ℕ → ℕ → ℕ
target_ns none target_total = target_total % 2 ^ 64
target_ns (some ms) target_total =
    if ltb 0 ms then min (ms * 1_000_000) (2 ^ 64 - 1) else target_total % 2 ^ 64

unfoldable pub pick_iters : Option ℕ → ℕ → ℕ → Option ℕ
pick_iters bench_target_ms first_run target_total =
    let single_ns = max first_run 1 % 2 ^ 64 in
    if single_ns == 0
    then none
    else some (min (max (target_ns bench_target_ms target_total / single_ns) 1) 16_384 % 2 ^ 32)

-- For a first run below 2 ^ 64 ns there is a count, from 1 to 16384, whatever the environment.
pub pick_iters_bounds :
    (env : Option ℕ) (first_run target_total : ℕ)
    → first_run < 2 ^ 64
    → (n : ℕ) × (pick_iters env first_run target_total ≡ some n) × (1 ≤ n) × (n ≤ 16_384)
unfolding pick_iters
pick_iters_bounds env first_run target_total h =
    let n = min (max (target_ns env target_total / max first_run 1) 1) 16_384 in
    (n, ground arith, omega arith, omega arith)

exactly : {n : ℕ} (q : ℕ) → n ≡ min (max q 1) 16_384 → n < 16_384 → 1 < n → n ≡ q
exactly q e below hn = omega arith

-- Unless a limit is met, n runs as long as the first fit in the target, and n + 1 do not.
pick_iters_fits :
    (env : Option ℕ) (first_run target_total n : ℕ)
    → 0 < first_run
    → first_run < 2 ^ 64
    → pick_iters env first_run target_total ≡ some n
    → 1 < n
    → (n * first_run ≤ target_ns env target_total)
      × (n < 16_384 → target_ns env target_total < (n + 1) * first_run)
unfolding pick_iters
pick_iters_fits env first_run target_total n hp hf e hn =
    let t = target_ns env target_total in
    let single : max first_run 1 % 2 ^ 64 ≡ first_run = omega arith in
    let value : n ≡ min (max (t / first_run) 1) 16_384 =
      ground (arith, ap (λ (s : ℕ). min (max (t / s) 1) 16_384) single) in
    let at_most : n ≤ t / first_run = omega arith in
    (
      omega (arith, mul-le-mul_right first_run at_most, div-mul-le_self t first_run),
      λ below. omega (
        arith,
        lt-div-mul-add {a = t} hp,
        ap (λ (q : ℕ). q * first_run) (exactly (t / first_run) value below hn),
      ),
    )
