-- ===== src/Base/Bits/Mask.antt =====
-- `&` with a mask, and `|` of fields that do not overlap.
use Prim.Native.Nat.{ℕ, zero, suc, ◌+◌, ◌-◌, ◌*◌, ◌/◌, ◌%◌, ◌^◌, ◌≤◌, ◌<◌, bit_and, bit_or}
use mathlib.Core.Path.{◌≡◌, ap, ◌∙◌, sym}
use native.Mathlib.Omega.{arith}
use wasm_benchmark.Base.Residue.{mod_unique}
use native.Mathlib.Nat.{pow-suc, one-le-pow, le_refl, mod-lt, div-add-mod}
use wasm_benchmark.Base.Bits.Xor.{double-pow}
use wasm_benchmark.Base.Bits.Digits.{and_step, or_step, or-zero, or-zero}

and-le_below : (n a b : ℕ) → a ≤ n → bit_and a b ≤ b
and-le_below n zero b h = omega (arith, Prim.Native.Nat.bit_and-bitwise 0 b)
and-le_below zero (suc a) b h = absurd (omega arith)
and-le_below (suc n) (suc a) b h =
    omega (arith, and_step (suc a) b, and-le_below n (suc a / 2) (b / 2) (omega arith))

-- A mask bounds what passes it.
pub and-le : (a b : ℕ) → bit_and a b ≤ b
and-le a b = and-le_below a a b (le_refl a)

-- The remainder by 2 ^ (k + 1), from that of the half.
pub mod-pow-suc : (k a : ℕ) → a % 2 ^ suc k ≡ a / 2 % 2 ^ k * 2 + a % 2
mod-pow-suc k a =
    mod_unique a (2 ^ suc k) (a / 2 / 2 ^ k) (a / 2 % 2 ^ k * 2 + a % 2)
      (omega
        (arith, div-add-mod (a / 2) (2 ^ k), ap (λ (t : ℕ). t * (a / 2 / 2 ^ k)) (pow-suc 2 k)))
      (omega (arith, pow-suc 2 k, mod-lt (a / 2) (one-le-pow k 2 (omega arith))))

half_mask : (k : ℕ) → (2 ^ suc k - 1) / 2 ≡ 2 ^ k - 1
half_mask k = omega (arith, pow-suc 2 k)

-- The mask of the `k` low digits is the remainder by 2 ^ k.
pub and_ones : (k a : ℕ) → bit_and a (2 ^ k - 1) ≡ a % 2 ^ k
and_ones zero a = omega (arith, and-le a 0)
and_ones (suc k) a = omega (
  arith,
  pow-suc 2 k,
  one-le-pow k 2,
  and_step a (2 ^ suc k - 1),
  ap (λ (t : ℕ). bit_and (a / 2) t) (half_mask k),
  and_ones k (a / 2),
  mod-pow-suc k a,
)

pub or-lt : (k a b : ℕ) → a < 2 ^ k → b < 2 ^ k → bit_or a b < 2 ^ k
or-lt zero a b ha hb =
    let ea : a ≡ 0 = omega arith in let eb : b ≡ 0 = omega arith in rw (ea, eb) (omega arith)
or-lt (suc k) a b ha hb = omega (
  arith,
  pow-suc 2 k,
  or_step a b,
  or-lt k (a / 2) (b / 2) (omega (arith, pow-suc 2 k)) (omega (arith, pow-suc 2 k)),
)

-- Digits that do not overlap add up under `|` as well.
pub or_fields : (k h l : ℕ) → l < 2 ^ k → bit_or l (h * 2 ^ k) ≡ l + h * 2 ^ k
or_fields zero h l fits = let e : l ≡ 0 = omega arith in rw (e, or-zero (h * 2 ^ 0)) (omega arith)
or_fields (suc k) h l fits =
    ground (arith, double-pow h k, pow-suc 2 k, or_step l (h * 2 ^ suc k), or_fields k h (l / 2))

or-zero_below : (n a : ℕ) → a ≤ n → bit_or a 0 ≡ a
or-zero_below n zero h = or-zero 0
or-zero_below zero (suc a) h = absurd (omega arith)
or-zero_below (suc n) (suc a) h =
    omega (arith, or_step (suc a) 0, or-zero_below n (suc a / 2) (omega arith))

or_comm_below : (n a b : ℕ) → a ≤ n → bit_or a b ≡ bit_or b a
or_comm_below n zero b h = or-zero b ∙ sym (or-zero_below b b (le_refl b))
or_comm_below zero (suc a) b h = absurd (omega arith)
or_comm_below (suc n) (suc a) b h =
    omega (
      arith,
      or_step (suc a) b,
      or_step b (suc a),
      or_comm_below n (suc a / 2) (b / 2) (omega arith),
    )

pub or_comm : (a b : ℕ) → bit_or a b ≡ bit_or b a
or_comm a b = or_comm_below a a b (le_refl a)
