-- ===== src/Base/Residue.antt =====
-- Remainders: uniqueness, and products of residues.
use Prim.Native.Nat.{ℕ, ◌+◌, ◌*◌, ◌/◌, ◌%◌, ◌<◌}
use mathlib.Core.Path.{◌≡◌, refl, ap}
use native.Mathlib.Omega.{arith}
use native.Mathlib.Nat.{mul-add-mod_self_left, mod-eq_of_lt, div-add-mod}

pub mod_unique : (a m q r : ℕ) → a ≡ m * q + r → r < m → a % m ≡ r
mod_unique a m q r e h = rw (e, mul-add-mod_self_left m q r) (mod-eq_of_lt h)

pub mod-mul_mod : (a b m : ℕ) → a % m * b % m ≡ a * b % m
mod-mul_mod a b m = rw (split, mul-add-mod_self_left m (a / m * b) (a % m * b)) refl
  where
    split : a * b ≡ m * (a / m * b) + a % m * b
    split = omega (arith, ap (λ (t : ℕ). t * b) (div-add-mod a m))
