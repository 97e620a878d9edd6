-- ===== src/Harness/Window/Scale.antt =====
-- The index that the f64 product 0.99 * n picks, against the median's.
use wasm_benchmark.Base.{
  ℕ, zero, suc, ◌+◌, ◌-◌, ◌*◌, ◌/◌, ◌^◌, ◌≤◌, ◌<◌, ◌≡◌, refl, arith, ltb, ◌⊎◌, inl, inr, Bool-cases,
}
use wasm_benchmark.Harness.Window.{excess_digits, round_even, round_f64, scale_p99}
use native.Mathlib.Nat.{pow-suc, one-le-pow, div-add-mod, mod-lt}

-- The dropped digits leave 53.
excess_digits-le :
    (fuel p : ℕ) → (excess_digits fuel p ≡ 0) ⊎ (2 ^ excess_digits fuel p * 2 ^ 52 ≤ p)
unfolding excess_digits
excess_digits-le zero p = inl refl
excess_digits-le (suc fuel) p = elim (Bool-cases (ltb p (2 ^ 53))) [
  | inl small ↦ inl (rw small refl)
  | inr large ↦ inr (
      rw large (elim (excess_digits-le fuel (p / 2)) [
        | inl none_left ↦ rw none_left (ground arith)
        | inr some_left ↦ omega (arith, pow-suc 2 (excess_digits fuel (p / 2)), some_left)
      ]))
]

-- Rounding loses less than one unit.
round_even-ge : (p unit : ℕ) → 0 < unit → p < round_even p unit + unit
unfolding round_even
round_even-ge p unit h =
    ground (arith, div-add-mod p unit, mod-lt p {m = unit} h, mul_suc (p / unit) unit)
  where
    mul_suc : (q u : ℕ) → (q + 1) * u ≡ u * q + u
    mul_suc q u = omega arith

round_f64-ge : (p : ℕ) → (2 ^ 52 - 1) * p ≤ 2 ^ 52 * round_f64 p
unfolding round_f64
round_f64-ge p = elim (excess_digits-le 64 p) [
  | inl e ↦ rw e (ground arith)
  | inr le ↦ omega (
    arith,
    round_even-ge p (2 ^ excess_digits 64 p) (one-le-pow (excess_digits 64 p) 2 (omega arith)),
    le,
  )
]

pub median-le-scale_p99 : (n : ℕ) → n / 2 ≤ scale_p99 n
unfolding scale_p99
median-le-scale_p99 n = omega (arith, round_f64-ge (n * 8917127262193582))
