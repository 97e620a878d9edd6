-- ===== src/Workload/Factorial/Runs.antt =====
-- The factorial on concrete input, and its theorems there.
use wasm_benchmark.Base.{◌-◌, ◌%◌, ◌^◌, ◌≡◌, refl, none, some, arith}
use wasm_benchmark.Workload.Factorial.{factorial_loop, factorial}
use wasm_benchmark.Workload.Factorial.Ends.{product_to, factorial-product_to, factorial_diverges}

-- The harness's reference for factorial(20) is -2102132736.
factorial_twenty : factorial 21 20 ≡ some (2 ^ 32 - 2102132736)
unfolding factorial factorial_loop
factorial_twenty = refl

factorial-product_to_example : factorial 41 40 ≡ some (product_to 40 % 2 ^ 32)
factorial-product_to_example = factorial-product_to 40 41 (omega arith) (omega arith)

factorial_diverges_example : factorial 1000 (2 ^ 31 - 1) ≡ none
factorial_diverges_example = factorial_diverges 1000
