-- ===== src/Base/Bits/Xor.antt =====
-- `^` is a commutative group of exponent two on the numbers, and goes digit by digit.
use Prim.Native.Nat.{ℕ, zero, suc, ◌+◌, ◌*◌, ◌/◌, ◌%◌, ◌^◌, ◌≤◌, ◌<◌, bit_xor}
use mathlib.Core.Path.{◌≡◌, refl, sym, ap, ◌∙◌}
use native.Mathlib.Omega.{arith}
use native.Mathlib.Nat.{pow-suc, le_refl, div-one, div-div-eq-div-mul}
use wasm_benchmark.Base.Bits.Digits.{xor_step}

pub xor-half : (a b : ℕ) → bit_xor a b / 2 ≡ bit_xor (a / 2) (b / 2)
xor-half a b = omega (arith, xor_step a b)

pub xor-parity : (a b : ℕ) → bit_xor a b % 2 ≡ (a % 2 + b % 2) % 2
xor-parity a b = omega (arith, xor_step a b)

-- Two numbers with one lowest digit and one half are the same.
pub eq_of_digits : (a b : ℕ) → a % 2 ≡ b % 2 → a / 2 ≡ b / 2 → a ≡ b
eq_of_digits a b p h = omega arith

pub zero-xor : (b : ℕ) → bit_xor 0 b ≡ b
zero-xor b = omega (arith, Prim.Native.Nat.bit_xor-bitwise 0 b)

xor-zero_below : (n a : ℕ) → a ≤ n → bit_xor a 0 ≡ a
xor-zero_below n zero h = refl
xor-zero_below zero (suc a) h = absurd (omega arith)
xor-zero_below (suc n) (suc a) h =
    omega (arith, xor_step (suc a) 0, xor-zero_below n (suc a / 2) (omega arith))

pub xor-zero : (a : ℕ) → bit_xor a 0 ≡ a
xor-zero a = xor-zero_below a a (le_refl a)

xor_self_below : (n a : ℕ) → a ≤ n → bit_xor a a ≡ 0
xor_self_below n zero h = refl
xor_self_below zero (suc a) h = absurd (omega arith)
xor_self_below (suc n) (suc a) h =
    omega (arith, xor_step (suc a) (suc a), xor_self_below n (suc a / 2) (omega arith))

pub xor_self : (a : ℕ) → bit_xor a a ≡ 0
xor_self a = xor_self_below a a (le_refl a)

xor_comm_below : (n a b : ℕ) → a ≤ n → bit_xor a b ≡ bit_xor b a
xor_comm_below n zero b h = zero-xor b ∙ sym (xor-zero b)
xor_comm_below zero (suc a) b h = absurd (omega arith)
xor_comm_below (suc n) (suc a) b h = omega (
  arith,
  xor_step (suc a) b,
  xor_step b (suc a),
  xor_comm_below n (suc a / 2) (b / 2) (omega arith),
)

pub xor_comm : (a b : ℕ) → bit_xor a b ≡ bit_xor b a
xor_comm a b = xor_comm_below a a b (le_refl a)

xor_assoc_below : (n a b c : ℕ) → a ≤ n → bit_xor (bit_xor a b) c ≡ bit_xor a (bit_xor b c)
xor_assoc_below n zero b c h = rw (zero-xor b, zero-xor (bit_xor b c)) refl
xor_assoc_below zero (suc a) b c h = absurd (omega arith)
xor_assoc_below (suc n) (suc a) b c h =
    eq_of_digits _ _
      (omega (
        arith,
        xor-parity (bit_xor (suc a) b) c,
        xor-parity (suc a) b,
        xor-parity (suc a) (bit_xor b c),
        xor-parity b c,
      ))
      (rw
        (
          xor-half (bit_xor (suc a) b) c,
          xor-half (suc a) b,
          xor-half (suc a) (bit_xor b c),
          xor-half b c,
        )
        (xor_assoc_below n (suc a / 2) (b / 2) (c / 2) (omega arith)))

pub xor_assoc : (a b c : ℕ) → bit_xor (bit_xor a b) c ≡ bit_xor a (bit_xor b c)
xor_assoc a b c = xor_assoc_below a a b c (le_refl a)

-- What is xored in twice drops out.
pub xor_cancel : (a b : ℕ) → bit_xor (bit_xor a b) b ≡ a
xor_cancel a b = rw (xor_assoc a b b, xor_self b, xor-zero a) refl

pub xor_left_comm : (a b c : ℕ) → bit_xor a (bit_xor b c) ≡ bit_xor b (bit_xor a c)
xor_left_comm a b c = rw (← xor_assoc a b c, xor_comm a b, xor_assoc b a c) refl

-- The result has no more digits than the operands.
pub xor-lt : (k a b : ℕ) → a < 2 ^ k → b < 2 ^ k → bit_xor a b < 2 ^ k
xor-lt zero a b ha hb =
    let ea : a ≡ 0 = omega arith in let eb : b ≡ 0 = omega arith in rw (ea, eb) (omega arith)
xor-lt (suc k) a b ha hb = omega (
  arith,
  pow-suc 2 k,
  xor_step a b,
  xor-lt k (a / 2) (b / 2) (omega (arith, pow-suc 2 k)) (omega (arith, pow-suc 2 k)),
)

pub double-pow : (h k : ℕ) → h * 2 ^ suc k ≡ 2 * (h * 2 ^ k)
double-pow h k = omega (arith, ap (λ (t : ℕ). h * t) (pow-suc 2 k))

-- Digits that do not overlap add up.
pub xor_fields : (k h l : ℕ) → l < 2 ^ k → bit_xor (h * 2 ^ k) l ≡ h * 2 ^ k + l
xor_fields zero h l fits = let e : l ≡ 0 = omega arith in rw (e, xor-zero (h * 2 ^ 0)) (omega arith)
xor_fields (suc k) h l fits =
    ground (arith, double-pow h k, pow-suc 2 k, xor_step (h * 2 ^ suc k) l, xor_fields k h (l / 2))

div-pow-suc : (k a : ℕ) → a / 2 ^ suc k ≡ a / 2 / 2 ^ k
div-pow-suc k a =
    sym (div-div-eq-div-mul a 2 (2 ^ k) ∙ ap (λ (t : ℕ). a / t) (omega (arith, pow-suc 2 k)))

-- A shift to the right goes through `^`.
pub xor-div-pow : (k a b : ℕ) → bit_xor a b / 2 ^ k ≡ bit_xor (a / 2 ^ k) (b / 2 ^ k)
xor-div-pow zero a b = rw (div-one (bit_xor a b), div-one a, div-one b) refl
xor-div-pow (suc k) a b =
    rw
      (
        div-pow-suc k (bit_xor a b),
        div-pow-suc k a,
        div-pow-suc k b,
        xor-half a b,
        xor-div-pow k (a / 2) (b / 2),
      )
      refl
