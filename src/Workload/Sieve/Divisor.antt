-- ===== src/Workload/Sieve/Divisor.antt =====
-- Trial division, and the set of numbers that the sieve has crossed out before round p.
use native.Mathlib.Decide.{ℕ_discrete, dec_le}
use native.Mathlib.Nat.{div-add-mod, mul-le-mul_left, mul-le-mul_right, mul-mod_left}
use wasm_benchmark.Base.{
  ℕ, zero, suc, ◌+◌, ◌*◌, ◌/◌, ◌%◌, ◌≤◌, ◌<◌, ◌≡◌, sym, ap, ◌∙◌, arith, Bool, true, false, not,
  ◌&&◌, ◌||◌, leb, ◌==◌, if◌then◌else◌, Bool-cases, inl, inr,
}

-- Some d with 2 ≤ d < k divides i.
unfoldable pub has_divisor : ℕ → ℕ → Bool
has_divisor zero i = false
has_divisor (suc d) i = (leb 2 d && i % d == 0) || has_divisor d i

-- The primes, by trial division.
unfoldable pub is_prime : ℕ → Bool
is_prime i = leb 2 i && not (has_divisor i i)

-- How many primes there are below k.
unfoldable pub count_primes : ℕ → ℕ
count_primes zero = 0
count_primes (suc k) = count_primes k + (if is_prime k then 1 else 0)

-- Some d with 2 ≤ d < p and d * d ≤ i divides i.
unfoldable pub crossed : ℕ → ℕ → Bool
crossed zero i = false
crossed (suc d) i = (leb 2 d && (leb (d * d) i && i % d == 0)) || crossed d i

pub has_divisor_intro : (k i d : ℕ) → 2 ≤ d → d < k → i % d ≡ 0 → has_divisor k i ≡ true
unfolding has_divisor
has_divisor_intro zero i d h hd e = absurd (omega arith)
has_divisor_intro (suc k) i d h hd e = elim (ℕ_discrete d k) [
  | yes same ↦ let e' : i % k ≡ 0 = ap (λ (t : ℕ). i % t) (sym same) ∙ e in ground arith
  | no other ↦ ground (arith, has_divisor_intro k i d h (omega arith) e)
]

pub has_divisor_elim :
    (k i : ℕ) → has_divisor k i ≡ true → (d : ℕ) × (2 ≤ d) × (d < k) × (i % d ≡ 0)
unfolding has_divisor
has_divisor_elim zero i h = cc
has_divisor_elim (suc k) i h = elim (Bool-cases (leb 2 k && i % k == 0)) [
  | inl here ↦ (k, ground arith, omega arith, ground arith)
  | inr there ↦ let (d, lo, hi, e) = has_divisor_elim k i (ground arith) in (d, lo, omega arith, e)
]

pub crossed_intro : (p i d : ℕ) → 2 ≤ d → d < p → d * d ≤ i → i % d ≡ 0 → crossed p i ≡ true
unfolding crossed
crossed_intro zero i d h hd hs e = absurd (omega arith)
crossed_intro (suc p) i d h hd hs e = elim (ℕ_discrete d p) [
  | yes same ↦
      let e' : i % p ≡ 0 = ap (λ (t : ℕ). i % t) (sym same) ∙ e in
      let s' : p * p ≤ i = rw (← same) hs in ground arith
  | no other ↦ ground (arith, crossed_intro p i d h (omega arith) hs e)
]

pub crossed_elim :
    (p i : ℕ) → crossed p i ≡ true → (d : ℕ) × (2 ≤ d) × (d < p) × (d * d ≤ i) × (i % d ≡ 0)
unfolding crossed
crossed_elim zero i h = cc
crossed_elim (suc p) i h = elim (Bool-cases (leb 2 p && (leb (p * p) i && i % p == 0))) [
  | inl here ↦ (p, ground arith, omega arith, ground arith, ground arith)
  | inr there ↦
      let (d, lo, hi, s, e) = crossed_elim p i (ground arith) in (d, lo, omega arith, s, e)
]

cofactor_large : (d q : ℕ) → 2 ≤ d → d < d * q → 2 ≤ q
cofactor_large d zero h hd = absurd (omega arith)
cofactor_large d (suc zero) h hd = absurd (omega arith)
cofactor_large d (suc (suc q)) h hd = omega arith

root_below : (c p i : ℕ) → c * c ≤ i → i < p * p → c < p
root_below c p i h hp = elim (dec_le p c) [
  | yes le ↦ absurd (omega (arith, mul-le-mul_left p le, mul-le-mul_right c le))
  | no above ↦ omega arith
]

-- A proper divisor has a cofactor, and the smaller of the two has a square of at most i.
small_divisor :
    (i d : ℕ) → 2 ≤ d → d < i → i % d ≡ 0 → (c : ℕ) × (2 ≤ c) × (c * c ≤ i) × (i % c ≡ 0)
small_divisor i d h hd e =
    let whole : d * (i / d) ≡ i = omega (arith, div-add-mod i d) in
    let cofactor : 2 ≤ i / d = cofactor_large d (i / d) (omega arith) (omega arith) in
    elim (dec_le d (i / d)) [
      | yes le ↦ (d, h, rw (← whole) (mul-le-mul_left d le), e)
      | no above ↦ (
        i / d,
        cofactor,
        let below : i / d ≤ d = omega arith in omega (arith, mul-le-mul_right (i / d) below, whole),
        ap (λ (t : ℕ). t % (i / d)) (sym whole) ∙ mul-mod_left d (i / d),
      )
    ]

-- Once p * p passes i, the crossed numbers up to i are those with a proper divisor.
pub crossed-has_divisor : (p i : ℕ) → i < p * p → crossed p i ≡ has_divisor i i
crossed-has_divisor p i h = elim (Bool-cases (crossed p i)) [
  | inl c ↦
      let (d, lo, hi, s, e) = crossed_elim p i c in
      c ∙ sym (has_divisor_intro i i d lo (omega (arith, mul-le-mul_left d lo)) e)
  | inr c ↦ elim (Bool-cases (has_divisor i i)) [
    | inr n ↦ c ∙ sym n
    | inl y ↦
        let (d, lo, hi, e) = has_divisor_elim i i y in
        let (r, lo', s, e') = small_divisor i d lo hi e in
        cc (crossed_intro p i r lo' (root_below r p i s h) s e')
  ]
]
