-- ===== src/Workload/Factorial/Ends.antt =====
-- The loop against the factorials, and where it does not end.
use wasm_benchmark.Base.{
  ℕ, zero, suc, ◌+◌, ◌-◌, ◌*◌, ◌%◌, ◌^◌, ◌≤◌, ◌<◌, ◌≡◌, refl, ap, ◌∙◌, arith, none, some,
  wrapping_add, wrapping_mul, IsU32, signed_leb,
}
use wasm_benchmark.Base.Residue.{mod-mul_mod}
use native.Mathlib.Nat.{mul_comm, add-suc}
use native.Mathlib.Decide.{dec_lt}
use wasm_benchmark.Base.{true}
use wasm_benchmark.Workload.Factorial.{factorial_loop, factorial}

unfoldable pub product_to : ℕ → ℕ
product_to zero = 1
product_to (suc n) = suc n * product_to n

-- One round below the bound, on the residues.
loop_round :
    (fuel n i p : ℕ)
    → i ≤ n
    → n < 2 ^ 31
    → factorial_loop (suc fuel) n (p % 2 ^ 32) i ≡ factorial_loop fuel n ((i * p) % 2 ^ 32) (suc i)
unfolding factorial_loop
loop_round fuel n i p h hn = ground (arith, mod-mul_mod p i (2 ^ 32), mul_comm p i)

product_to-suc : (n : ℕ) → product_to (suc n) ≡ product_to n * suc n
unfolding product_to
product_to-suc n = mul_comm (suc n) (product_to n)

-- n! vanishes mod 2 ^ 32 from 34 on.
product_to_zero : (k : ℕ) → product_to (34 + k) % 2 ^ 32 ≡ 0
unfolding product_to
product_to_zero zero = refl
product_to_zero (suc k) = omega (
  arith,
  ap product_to (add-suc 34 k),
  product_to-suc (34 + k),
  mod-mul_mod (product_to (34 + k)) (35 + k) (2 ^ 32),
  ap (λ (t : ℕ). t * (35 + k)) (product_to_zero k),
)

loop_ends :
    (fuel n i acc : ℕ) → n ≡ i → n < 2 ^ 31 - 1 → factorial_loop (suc fuel) n acc (suc i) ≡ some acc
unfolding factorial_loop
loop_ends fuel n i acc e h = ground arith

-- With i! in the accumulator and i + 1 next, the loop goes on to n!.
loop-product_to :
    (fuel n i : ℕ)
    → n < 2 ^ 31 - 1
    → i ≤ n
    → n < fuel + i
    → factorial_loop fuel n (product_to i % 2 ^ 32) (suc i) ≡ some (product_to n % 2 ^ 32)
unfolding product_to
loop-product_to zero n i h hi hf = absurd (omega arith)
loop-product_to (suc fuel) n i h hi hf = elim (dec_lt i n) [
  | yes more ↦
      loop_round fuel n (suc i) (product_to i) more (omega arith)
      ∙ loop-product_to fuel n (suc i) h more (omega arith)
  | no last ↦
      loop_ends fuel n i (product_to i % 2 ^ 32) (omega arith) (omega arith)
      ∙ ap (λ (m : ℕ). some (product_to m % 2 ^ 32)) (omega arith)
]

-- For n below i32::MAX the loop ends within n + 1 tests with n! mod 2 ^ 32.
pub factorial-product_to :
    (n fuel : ℕ) → n < 2 ^ 31 - 1 → n < fuel → factorial fuel n ≡ some (product_to n % 2 ^ 32)
unfolding factorial product_to
factorial-product_to zero zero h hf = absurd (omega arith)
factorial-product_to zero (suc fuel) h hf = unfold factorial_loop in refl
factorial-product_to (suc n) fuel h hf =
    loop-product_to fuel (suc n) 1 h (omega arith) (omega arith)

-- A negative n leaves the accumulator at 1.
pub factorial_negative : (n fuel : ℕ) → 2 ^ 31 ≤ n → IsU32 n → factorial (suc fuel) n ≡ some 1
unfolding factorial factorial_loop
factorial_negative n fuel h hn = ground arith

below_max : (i : ℕ) → signed_leb i (2 ^ 31 - 1) ≡ true
below_max i = ground arith

loop_never : (fuel acc i : ℕ) → factorial_loop fuel (2 ^ 31 - 1) acc i ≡ none
unfolding factorial_loop
loop_never zero acc i = refl
loop_never (suc fuel) acc i =
    rw (below_max i, factorial_loop) (loop_never fuel (wrapping_mul acc i) (wrapping_add i 1))

-- At n = i32::MAX the loop never ends: every i32 is at most n, and i wraps around.
pub factorial_diverges : (fuel : ℕ) → factorial fuel (2 ^ 31 - 1) ≡ none
unfolding factorial
factorial_diverges fuel = loop_never fuel 1 2
