-- ===== src/Harness/Iters/Runs.antt =====
-- `pick_iters` on concrete input, and its theorems there.
use wasm_benchmark.Base.{ℕ, ◌≤◌, ◌≡◌, refl, none, some, arith}
use wasm_benchmark.Harness.Iters.{target_ns, pick_iters, pick_iters_bounds}

-- 200 ms in runs of 3 ms: 66 of them.
sixty_six : pick_iters none 3_000_000 200_000_000 ≡ some 66
unfolding pick_iters target_ns
sixty_six = refl

pick_iters_bounds_example :
    (n : ℕ) × (pick_iters (some 1000) 7 200_000_000 ≡ some n) × (1 ≤ n) × (n ≤ 16_384)
pick_iters_bounds_example = pick_iters_bounds (some 1000) 7 200_000_000 (omega arith)
