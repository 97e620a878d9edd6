-- ===== src/Workload/Crc/Linear.antt =====
-- The shift register is linear over `^`: digits above the round count pass through it untouched.
use wasm_benchmark.Base.{
  ℕ, zero, suc, ap, ◌⊎◌, inl, inr, ◌*◌, ◌/◌, ◌%◌, ◌^◌, ◌≡◌, refl, arith, bit_xor, IsU32,
}
use wasm_benchmark.Base.Bits.{xor-half, xor-parity, xor_assoc, xor-lt, and_ones}
use wasm_benchmark.Workload.Crc.{poly, crc_shift, crc_rounds}
use native.Mathlib.Nat.{pow-suc}

shift-even : (c : ℕ) → c % 2 ≡ 0 → crc_shift c ≡ c / 2
unfolding crc_shift
shift-even c h = ground (arith, and_ones 1 c)

shift-odd : (c : ℕ) → c % 2 ≡ 1 → crc_shift c ≡ bit_xor poly (c / 2)
unfolding crc_shift
shift-odd c h = ground (arith, and_ones 1 c)

parity-cases : (x : ℕ) → (x % 2 ≡ 0) ⊎ (x % 2 ≡ 1)
parity-cases x = grind arith

double : (h n : ℕ) → h * 2 ^ suc n ≡ 2 * (h * 2 ^ n)
double h n = omega (arith, ap (λ (t : ℕ). h * t) (pow-suc 2 n))

-- An even number shifts through.
crc_shift-xor_even : (x y : ℕ) → y % 2 ≡ 0 → crc_shift (bit_xor x y) ≡ bit_xor (crc_shift x) (y / 2)
crc_shift-xor_even x y h = elim (parity-cases x) [
  | inl even ↦
      rw (shift-even (bit_xor x y) (omega (arith, xor-parity x y)), shift-even x even, xor-half x y)
        refl
  | inr odd ↦
      rw
        (
          shift-odd (bit_xor x y) (omega (arith, xor-parity x y)),
          shift-odd x odd,
          xor-half x y,
          xor_assoc poly (x / 2) (y / 2),
        )
        refl
]

half_of : (h n : ℕ) → h * 2 ^ suc n / 2 ≡ h * 2 ^ n
half_of h n = omega (arith, double h n)

-- `n` rounds on `x ^ (h << n)` are `n` rounds on `x`, and `h` is xored in.
pub crc_rounds-xor_high :
    (n x h : ℕ) → crc_rounds n (bit_xor x (h * 2 ^ n)) ≡ bit_xor (crc_rounds n x) h
unfolding crc_rounds
crc_rounds-xor_high zero x h = ap (bit_xor x) (omega arith)
crc_rounds-xor_high (suc n) x h =
    let y : ℕ = h * 2 ^ suc n in
    rw
      (
        crc_shift-xor_even x y (omega (arith, double h n)),
        half_of h n,
        crc_rounds-xor_high n (crc_shift x) h,
      )
      refl

pub crc_shift-IsU32 : (c : ℕ) → IsU32 c → IsU32 (crc_shift c)
unfolding crc_shift
crc_shift-IsU32 c h = ground (arith, xor-lt 32 poly (c / 2))

pub crc_rounds-IsU32 : (n c : ℕ) → IsU32 c → IsU32 (crc_rounds n c)
unfolding crc_rounds
crc_rounds-IsU32 zero c h = h
crc_rounds-IsU32 (suc n) c h = crc_rounds-IsU32 n (crc_shift c) (crc_shift-IsU32 c h)
