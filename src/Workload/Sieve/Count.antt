-- ===== src/Workload/Sieve/Count.antt =====
-- The sieve against the count of the primes.
use wasm_benchmark.Base.{
  ℕ, zero, suc, ◌+◌, ◌-◌, ◌*◌, ◌^◌, ◌≤◌, ◌<◌, ◌≡◌, refl, sym, ap, ◌∙◌, arith, false, leb, ltb, ◌==◌,
  if◌then◌else◌, List, some, length, get_elem?-get_or, ◌&&◌,
}
use wasm_benchmark.Workload.Sieve.{n_max, count_loop, sieve, sieve_loop}
use wasm_benchmark.Workload.Sieve.Divisor.{
  crossed, crossed-has_divisor, is_prime, count_primes, has_divisor,
}
use wasm_benchmark.Workload.Sieve.Mark.{flag_at, AreCrossed, reset_loop-Flags, sieve_loop-Crosses}
use native.Mathlib.Numerals.{add-one}

-- `count` primes are below i, and the flags tell the primes from i on.
count_loop-count_primes :
    (left i : ℕ) (flags : List ℕ)
    → i + left ≤ length flags
    → ((j : ℕ) → i ≤ j → j < i + left → flag_at flags j ≡ (if is_prime j then 0 else 1))
    → count_loop left i flags (count_primes i) ≡ some (count_primes (i + left))
unfolding count_loop
count_loop-count_primes zero i flags h tells = ap (λ (k : ℕ). some (count_primes k)) (omega arith)
count_loop-count_primes (suc left) i flags h tells =
    rw (get_elem?-get_or flags i 0 (omega arith), next, add-one i)
      (count_loop-count_primes left (suc i) flags (omega arith)
          (λ j lo hi. tells j (omega arith) (omega arith))
        ∙ ap (λ (k : ℕ). some (count_primes k)) (omega arith))
  where
    next :
        (if flag_at flags i == 0 then count_primes i + 1 else count_primes i) ≡ count_primes (suc i)
    next = unfold count_primes in ground (arith, tells i (omega arith) (omega arith))

clear-AreCrossed :
    (n : ℕ) (out flags : List ℕ)
    → ((i : ℕ) → flag_at out i ≡ (if leb 0 i && ltb i (0 + (n + 1)) then 0 else flag_at flags i))
    → AreCrossed n 2 out
unfolding crossed
clear-AreCrossed n out flags h i hi = ground (arith, h i)

tells :
    (n last j : ℕ) (out : List ℕ)
    → n < last * last
    → 2 ≤ j
    → j ≤ n
    → AreCrossed n last out
    → flag_at out j ≡ (if is_prime j then 0 else 1)
unfolding is_prime
tells n last j out square lo hi marks =
    ground (arith, marks j hi, crossed-has_divisor last j (omega arith))

below_two : count_primes 2 ≡ 0
unfolding count_primes is_prime has_divisor
below_two = refl

rounds : (n : ℕ) → count_primes (2 + (n - 1)) ≡ count_primes (n + 1)
unfolding count_primes is_prime has_divisor
rounds zero = refl
rounds (suc n) = ap count_primes (omega arith)

-- From clear flags the outer loop ends, and what it leaves counts the primes.
pub sieve_loop-count_primes :
    (n : ℕ) (flags : List ℕ)
    → 2 + (n - 1) ≤ length flags
    → AreCrossed n 2 flags
    → (out : List ℕ) × (sieve_loop (n + 1) n 2 flags ≡ some out)
      × (count_loop (n - 1) 2 out 0 ≡ some (count_primes (n + 1)))
      × (length out ≡ length flags)
sieve_loop-count_primes n flags hl clear =
    let (last, square, done) =
      sieve_loop-Crosses (n + 1) n 2 flags (omega arith) (omega arith) (omega arith) clear in
    let same : length done.out ≡ length flags = done.same_length in
    (
      done.out,
      done.returns,
      ap (count_loop (n - 1) 2 done.out) (sym below_two)
          ∙ count_loop-count_primes (n - 1) 2 done.out (omega (arith, same))
              (λ j lo hi. tells n last j done.out square lo (omega arith) done.marks)
          ∙ ap some (rounds n),
      same,
    )

-- For a 0 ≤ n ≤ N_MAX the sieve panics nowhere and returns the number of primes up to n,
-- whatever the static flags held before.
pub sieve-count_primes :
    (flags : List ℕ) (n : ℕ)
    → length flags ≡ n_max + 1
    → n ≤ n_max
    → (out : List ℕ) × (sieve flags n ≡ some (count_primes (n + 1), out))
      × (length out ≡ length flags)
unfolding sieve
sieve-count_primes flags n hl hn =
    let clear = reset_loop-Flags (n + 1) 0 flags (omega arith) in
    let (out, returns, counted, same) =
      sieve_loop-count_primes n clear.out (omega (arith, clear.same_length))
        (clear-AreCrossed n clear.out flags clear.flag) in
    let below : ltb n_max n ≡ false = ground arith in
    (out, rw (below, clear.returns, returns, counted) refl, same ∙ clear.same_length)

-- Any other argument, every negative one included, is refused with -1 and leaves the flags alone.
pub sieve_refuses : (flags : List ℕ) (n : ℕ) → n_max < n → sieve flags n ≡ some (2 ^ 32 - 1, flags)
unfolding sieve
sieve_refuses flags n h = ground arith
