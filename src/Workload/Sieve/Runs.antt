-- ===== src/Workload/Sieve/Runs.antt =====
-- The sieve on concrete input, and its theorem there.
use wasm_benchmark.Base.{
  ℕ, ◌+◌, ◌≡◌, refl, List, some, ◌>>=◌, replicate, length, length-replicate, arith, write,
}
use wasm_benchmark.Workload.Sieve.{
  n_max, reset_loop, mark_loop, sieve_body, sieve_loop, count_loop, sieve, sieve_reference,
}
use wasm_benchmark.Workload.Sieve.Divisor.{count_primes}
use wasm_benchmark.Workload.Sieve.Reference.{sieve_reference-sieve}
use wasm_benchmark.Workload.Sieve.Count.{sieve-count_primes}

-- Ten primes up to 30, from flags that start out set.
sieve_thirty : (sieve (replicate 31 1) 30 >>= λ r. some r.0) ≡ some 10
unfolding sieve reset_loop mark_loop sieve_body sieve_loop count_loop write
sieve_thirty = refl

abbrev set_flags : List ℕ
set_flags = replicate (n_max + 1) 1

sieve-count_primes_example :
    (out : List ℕ) × (sieve set_flags 10000 ≡ some (count_primes (10000 + 1), out))
    × (length out ≡ length set_flags)
sieve-count_primes_example =
    sieve-count_primes set_flags 10000 (length-replicate {A = ℕ} (n_max + 1) 1) (omega arith)

sieve_reference-sieve_example : sieve_reference 10000 ≡ (sieve set_flags 10000 >>= λ r. some r.0)
sieve_reference-sieve_example =
    sieve_reference-sieve set_flags 10000 (length-replicate {A = ℕ} (n_max + 1) 1) (omega arith)
