-- ===== src/Workload/Convolution/Box.antt =====
-- The nine bytes around a pixel, in workloads-rs/convolution.rs.
use wasm_benchmark.Base.{
  ℕ, zero, suc, ◌+◌, ◌*◌, ◌^◌, ◌-◌, ◌≤◌, ◌<◌, ◌≡◌, ap, arith, List, some, length, get_or,
  get_elem?-get_or, All, IsByte, wrapping_add, ◌∙◌,
}
use wasm_benchmark.Workload.Checksum.{sum_from, sum_from-le, get_or-IsByte}
use wasm_benchmark.Workload.Convolution.{width, height, area, dx_loop, dy_loop}

-- The byte of row yi and column xi.
abbrev pub byte_at : List ℕ → ℕ → ℕ → ℕ
byte_at input yi xi = get_or input (yi * width + xi) 0

-- The three bytes of a row around x, and the three such rows around y.
unfoldable pub row_sum : List ℕ → ℕ → ℕ → ℕ
row_sum input yi x = sum_from (λ d. byte_at input yi (x + d - 1)) 0 3

unfoldable pub box_sum : List ℕ → ℕ → ℕ → ℕ
box_sum input y x = sum_from (λ d. row_sum input (y + d - 1) x) 0 3

module _ (input : List ℕ) (whole : length input ≡ area) (bytes : All IsByte input) where
  byte_at_small : (yi xi : ℕ) → byte_at input yi xi < 256
  byte_at_small yi xi = get_or-IsByte input (yi * width + xi) bytes

  dx_loop-sum_from :
      (left d yi x acc : ℕ)
      → yi < height
      → 1 ≤ x
      → x + d + left ≤ width + 1
      → acc + 256 * left ≤ 2 ^ 32
      → dx_loop left d yi x input acc
        ≡ some (acc + sum_from (λ k. byte_at input yi (x + k - 1)) d left)
  unfolding dx_loop sum_from
  dx_loop-sum_from zero d yi x acc hy hx inside fits = ap some (omega arith)
  dx_loop-sum_from (suc left) d yi x acc hy hx inside fits =
      let v : ℕ = byte_at input yi (x + d - 1) in
      let small : v < 256 = byte_at_small yi (x + d - 1) in
      let added : wrapping_add acc v ≡ acc + v = omega arith in
      rw
        (
          get_elem?-get_or input (yi * width + (x + d - 1)) 0 (omega arith),
          added,
          dx_loop-sum_from left (d + 1) yi x (acc + v) hy hx (omega arith) (omega arith),
        )
        (ap some (omega arith))

  pub row_sum-le : (yi x : ℕ) → row_sum input yi x ≤ 765
  unfolding row_sum
  row_sum-le yi x =
      sum_from-le 255 (λ d. byte_at input yi (x + d - 1)) 0 3
        (λ d. omega (arith, byte_at_small yi (x + d - 1)))

  dx_loop-row_sum :
      (yi x acc : ℕ)
      → yi < height
      → 1 ≤ x
      → x + 1 < width
      → acc + 768 ≤ 2 ^ 32
      → dx_loop 3 0 yi x input acc ≡ some (acc + row_sum input yi x)
  unfolding row_sum
  dx_loop-row_sum yi x acc hy hx inside fits =
      dx_loop-sum_from 3 0 yi x acc hy hx (omega arith) (omega arith)

  dy_loop-sum_from :
      (left d y x acc : ℕ)
      → 1 ≤ y
      → y + d + left ≤ height + 1
      → 1 ≤ x
      → x + 1 < width
      → acc + 768 * left ≤ 2 ^ 31
      → dy_loop left d y x input acc
        ≡ some (acc + sum_from (λ k. row_sum input (y + k - 1) x) d left)
  unfolding dy_loop sum_from
  dy_loop-sum_from zero d y x acc hy rows hx inside fits = ap some (omega arith)
  dy_loop-sum_from (suc left) d y x acc hy rows hx inside fits =
      let row : ℕ = row_sum input (y + d - 1) x in
      let small : row ≤ 765 = row_sum-le (y + d - 1) x in
      rw
        (
          dx_loop-row_sum (y + d - 1) x acc (omega arith) hx inside (omega arith),
          dy_loop-sum_from left (d + 1) y x (acc + row) hy (omega arith) hx inside (omega arith),
        )
        (ap some (omega arith))

  -- A pixel with all its neighbours gets the sum of the nine.
  pub dy_loop-box_sum :
      (y x : ℕ)
      → 1 ≤ y
      → y + 1 < height
      → 1 ≤ x
      → x + 1 < width
      → dy_loop 3 0 y x input 0 ≡ some (box_sum input y x)
  unfolding box_sum
  dy_loop-box_sum y x hy hy' hx hx' =
      dy_loop-sum_from 3 0 y x 0 hy (omega arith) hx hx' (omega arith) ∙ ap some (omega arith)

  pub box_sum-le : (y x : ℕ) → box_sum input y x ≤ 2295
  unfolding box_sum
  box_sum-le y x =
      sum_from-le 765 (λ d. row_sum input (y + d - 1) x) 0 3 (λ d. row_sum-le (y + d - 1) x)
