-- ===== src/Workload/Sieve/Reference.antt =====
-- The host's re-computation of the sieve against the guest.
use wasm_benchmark.Base.{
  ℕ, zero, suc, ◌+◌, ◌-◌, ◌^◌, ◌≤◌, ◌<◌, ◌≡◌, refl, arith, false, List, some, length, replicate,
  length-replicate, ◌>>=◌, signed_ltb,
}
use native.Mathlib.Decide.{dec_lt}
use wasm_benchmark.Workload.Sieve.{n_max, sieve, sieve_reference}
use wasm_benchmark.Workload.Sieve.Divisor.{count_primes, is_prime, has_divisor, crossed}
use wasm_benchmark.Workload.Sieve.Mark.{flag_at, AreCrossed}
use wasm_benchmark.Workload.Sieve.Count.{sieve_loop-count_primes, sieve-count_primes, sieve_refuses}

flag_at-replicate : (n i : ℕ) → flag_at (replicate n 0) i ≡ 0
flag_at-replicate zero i = refl
flag_at-replicate (suc n) zero = refl
flag_at-replicate (suc n) (suc i) = flag_at-replicate n i

fresh-AreCrossed : (n : ℕ) → AreCrossed n 2 (replicate (n + 1) 0)
unfolding crossed
fresh-AreCrossed n i hi = flag_at-replicate (n + 1) i

no_primes : (n : ℕ) → n < 2 → count_primes (n + 1) ≡ 0
unfolding count_primes is_prime has_divisor
no_primes zero h = refl
no_primes (suc zero) h = refl
no_primes (suc (suc n)) h = absurd (omega arith)

-- For every 0 ≤ n ≤ i32::MAX the host's sieve panics nowhere and counts the primes up to n.
pub sieve_reference-count_primes :
    (n : ℕ) → n < 2 ^ 31 → sieve_reference n ≡ some (count_primes (n + 1))
unfolding sieve_reference
sieve_reference-count_primes n h = elim (dec_lt n 2) [
  | yes small ↦ ground (arith, no_primes n small)
  | no large ↦
      let (out, returns, counted, same) =
        sieve_loop-count_primes n (replicate (n + 1) 0)
          (omega (arith, length-replicate {A = ℕ} (n + 1) 0)) (fresh-AreCrossed n) in
      let test : signed_ltb n 2 ≡ false = ground arith in rw (test, returns) counted
]

-- Up to N_MAX the host's sieve returns what the guest's does, whatever the guest's flags held.
pub sieve_reference-sieve :
    (flags : List ℕ) (n : ℕ)
    → length flags ≡ n_max + 1
    → n ≤ n_max
    → sieve_reference n ≡ (sieve flags n >>= λ r. some r.0)
sieve_reference-sieve flags n hl hn =
    let (out, returns, same) = sieve-count_primes flags n hl hn in
    rw returns (sieve_reference-count_primes n (omega arith))

-- Above N_MAX they differ: the guest returns -1, and the host still counts the primes.
sieve_reference_beyond :
    (flags : List ℕ) (n : ℕ)
    → n_max < n
    → n < 2 ^ 31
    → (sieve flags n ≡ some (2 ^ 32 - 1, flags)) × (sieve_reference n ≡ some (count_primes (n + 1)))
sieve_reference_beyond flags n above h =
    (sieve_refuses flags n above, sieve_reference-count_primes n h)
