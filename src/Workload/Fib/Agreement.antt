-- ===== src/Workload/Fib/Agreement.antt =====
-- The three Fibonaccis against the numbers of the textbook.
use wasm_benchmark.Base.{
  ℕ, zero, suc, ◌+◌, ◌%◌, ◌^◌, ◌≤◌, ◌<◌, ◌≡◌, refl, ap, ◌∙◌, arith, false, some, wrapping_add,
  wrapping_sub, IsU32, signed_ltb,
}
use wasm_benchmark.Workload.Fib.{fib, fib_acc, fib_tail, reference_loop, fib_reference}

-- F(0) = 0, F(1) = 1, and each later number is the sum of the two before it.
unfoldable pub fibonacci : ℕ → ℕ
fibonacci zero = 0
fibonacci (suc zero) = 1
fibonacci (suc (suc n)) = fibonacci (suc n) + fibonacci n

fib-suc :
    (fuel n a b : ℕ)
    → suc (suc n) < 2 ^ 31
    → fib fuel (suc n) ≡ some a
    → fib fuel n ≡ some b
    → fib (suc fuel) (suc (suc n)) ≡ some (wrapping_add a b)
unfolding fib
fib-suc fuel n a b h ha hb =
    let test : signed_ltb (suc (suc n)) 2 ≡ false = ground arith in
    let less_one : wrapping_sub (suc (suc n)) 1 ≡ suc n = omega arith in
    let less_two : wrapping_sub (suc (suc n)) 2 ≡ n = omega arith in
    rw (test, fib, less_one, ha, less_two, hb) refl

fib-fibonacci : (fuel n : ℕ) → n < 2 ^ 31 → n < fuel → fib fuel n ≡ some (fibonacci n % 2 ^ 32)
fib-fibonacci zero n h hf = absurd (omega arith)
fib-fibonacci (suc fuel) zero h hf = unfold fib fibonacci in refl
fib-fibonacci (suc fuel) (suc zero) h hf = unfold fib fibonacci in refl
fib-fibonacci (suc fuel) (suc (suc n)) h hf =
    fib-suc fuel n _ _ h (fib-fibonacci fuel (suc n) (omega arith) (omega arith))
      (fib-fibonacci fuel n (omega arith) (omega arith))
    ∙ unfold fibonacci in ap some (omega arith)

step_residue :
    (k : ℕ)
    → wrapping_add (fibonacci k % 2 ^ 32) (fibonacci (suc k) % 2 ^ 32)
      ≡ fibonacci (suc (suc k)) % 2 ^ 32
unfolding fibonacci
step_residue k = omega arith

fib_acc-suc :
    (fuel n a b : ℕ)
    → IsU32 n
    → fib_acc (suc fuel) (suc n) a b ≡ fib_acc fuel n b (wrapping_add a b)
unfolding fib_acc
fib_acc-suc fuel n a b h =
    let down : wrapping_sub (suc n) 1 ≡ n = omega arith in
    ground (arith, ap (λ (m : ℕ). fib_acc fuel m b (wrapping_add a b)) down)

-- With F(k) and F(k + 1) at hand, n further steps give F(k + n).
fib_acc-fibonacci :
    (fuel n k : ℕ)
    → IsU32 n
    → n < fuel
    → fib_acc fuel n (fibonacci k % 2 ^ 32) (fibonacci (suc k) % 2 ^ 32)
      ≡ some (fibonacci (k + n) % 2 ^ 32)
unfolding fib_acc
fib_acc-fibonacci zero n k h hf = absurd (omega arith)
fib_acc-fibonacci (suc fuel) zero k h hf = ap (λ (m : ℕ). some (fibonacci m % 2 ^ 32)) (omega arith)
fib_acc-fibonacci (suc fuel) (suc n) k h hf =
    fib_acc-suc fuel n _ _ (omega arith)
    ∙ rw (step_residue k) (
        fib_acc-fibonacci fuel n (suc k) (omega arith) (omega arith)
        ∙ ap (λ (m : ℕ). some (fibonacci m % 2 ^ 32)) (omega arith))

reference_loop-fibonacci :
    (n k : ℕ)
    → reference_loop n (fibonacci k % 2 ^ 32) (fibonacci (suc k) % 2 ^ 32)
      ≡ fibonacci (k + n) % 2 ^ 32
unfolding reference_loop
reference_loop-fibonacci zero k = ap (λ (m : ℕ). fibonacci m % 2 ^ 32) (omega arith)
reference_loop-fibonacci (suc n) k =
    rw (step_residue k)
      (reference_loop-fibonacci n (suc k) ∙ ap (λ (m : ℕ). fibonacci m % 2 ^ 32) (omega arith))

nonnegative : (n : ℕ) → n < 2 ^ 31 → signed_ltb n 0 ≡ false
nonnegative n h = ground arith

-- For 0 ≤ n ≤ i32::MAX the three return F(n) mod 2 ^ 32, and a call depth of n + 1 is enough.
pub fib_agree :
    (n fuel : ℕ)
    → n < 2 ^ 31
    → n < fuel
    → (fib fuel n ≡ some (fibonacci n % 2 ^ 32))
      × (fib_tail fuel n ≡ some (fibonacci n % 2 ^ 32))
      × (fib_reference n ≡ fibonacci n % 2 ^ 32)
unfolding fib_tail fib_reference fibonacci
fib_agree n fuel h hf = (
  fib-fibonacci fuel n h hf,
  fib_acc-fibonacci fuel n 0 (omega arith) hf
      ∙ ap (λ (m : ℕ). some (fibonacci m % 2 ^ 32)) (omega arith),
  rw (nonnegative n h)
      (reference_loop-fibonacci n 0 ∙ ap (λ (m : ℕ). fibonacci m % 2 ^ 32) (omega arith)),
)

-- On a negative n they differ: the guest returns n at once, and the host's loop returns 0.
fib_negative :
    (n fuel : ℕ) → 2 ^ 31 ≤ n → IsU32 n → (fib (suc fuel) n ≡ some n) × (fib_reference n ≡ 0)
unfolding fib fib_reference reference_loop
fib_negative n fuel h hn = (ground arith, ground arith)
