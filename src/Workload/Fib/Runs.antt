-- ===== src/Workload/Fib/Runs.antt =====
-- The Fibonaccis on concrete input, and their theorems there.
use wasm_benchmark.Base.{◌%◌, ◌^◌, ◌≡◌, refl, some, arith}
use wasm_benchmark.Workload.Fib.{fib, fib_acc, fib_tail, reference_loop, fib_reference}
use wasm_benchmark.Workload.Fib.Agreement.{fibonacci, fib_agree}

-- The harness's reference for fib(30), by the guest's tail calls and by the host's loop.
fib_thirty : (fib_tail 31 30 ≡ some 832040) × (fib_reference 30 ≡ 832040)
unfolding fib_tail fib_acc fib_reference reference_loop
fib_thirty = (refl, refl)

fib_ten : fib 11 10 ≡ some 55
unfolding fib
fib_ten = refl

fib_agree_example :
    (fib 50 48 ≡ some (fibonacci 48 % 2 ^ 32))
    × (fib_tail 50 48 ≡ some (fibonacci 48 % 2 ^ 32))
    × (fib_reference 48 ≡ fibonacci 48 % 2 ^ 32)
fib_agree_example = fib_agree 48 50 (omega arith) (omega arith)
