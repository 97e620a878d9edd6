-- ===== src/Workload/Convolution/Agreement.antt =====
-- The host's re-computation of the convolution against the guest.
use wasm_benchmark.Base.{
  ℕ, zero, suc, ◌*◌, ◌^◌, ◌-◌, ◌≤◌, ◌≡◌, ◌∙◌, sym, refl, ap, arith, List, some, ◌>>=◌, length,
  get_or, replicate, length-replicate, bit_and, Option,
}
use wasm_benchmark.Base.Bits.{and_ones}
use wasm_benchmark.Workload.Lcg.{lcg_bytes, lcg_bytes-IsByte, length-lcg_bytes, fill_whole}
use wasm_benchmark.Workload.Checksum.{
  sum_from, sum_from-le, sum_loop, fold_sum, sum_loop-fold_sum, sum_loop-sum_from,
}
use wasm_benchmark.Workload.Convolution.{area, height, y_loop, convolve, convolution_reference}
use wasm_benchmark.Workload.Convolution.Blur.{
  blurred, blurred-small, IsFramed, BlurredTo, y_loop-blurred,
}

-- The sum of the blurred pixels of the generated image.
unfoldable pub blur_total : ℕ → ℕ
blur_total seed = sum_from (blurred (lcg_bytes area seed)) 0 area

module _ (seed : ℕ) where
  abbrev input : List ℕ
  input = lcg_bytes area seed

  blur_total-le : blur_total seed ≤ 255 * area
  unfolding blur_total
  blur_total-le = sum_from-le 255 (blurred input) 0 area (λ j.
      omega
        (arith, blurred-small input (length-lcg_bytes area seed) (lcg_bytes-IsByte area seed) j))

  masked : bit_and (blur_total seed) (2 ^ 30 - 1) ≡ blur_total seed
  masked = omega (arith, and_ones 30 (blur_total seed), blur_total-le)

  -- From a framed buffer on, the loops leave a blurred image that sums up to the total.
  y_loop-blur_total :
      (output : List ℕ)
      → length output ≡ area
      → IsFramed output
      → (out : List ℕ) × (y_loop (height - 2) 1 input output ≡ some out)
        × BlurredTo input area out
        × (sum_loop area 0 out 0 ≡ some (blur_total seed))
  unfolding blur_total
  y_loop-blur_total output len frame =
      let whole : length input ≡ area = length-lcg_bytes area seed in
      let bytes = lcg_bytes-IsByte area seed in
      let (out, returns, done) = y_loop-blurred input whole bytes output len frame in
      (
        out,
        returns,
        done,
        sum_loop-sum_from (blurred input) area 0 out 0 (omega (arith, done.0))
              (λ j h. done.1 j (omega (arith, done.0))) (blurred-small input whole bytes)
              (omega arith)
            ∙ ap some (omega arith),
      )

pub black : (n i : ℕ) → get_or {A = ℕ} (replicate n 0) i 0 ≡ 0
black zero i = refl
black (suc n) zero = refl
black (suc n) (suc i) = black n i

-- For every seed, and whatever IN_BUF holds: when the border of OUT_BUF is black, the guest returns
-- the sum of the blurred generated image, the host's re-computation returns it too, neither
-- panics, and OUT_BUF holds the blurred image, with a border that is black for the next call.
pub convolve-convolution_reference :
    (seed : ℕ) (image output : List ℕ)
    → length image ≡ area
    → length output ≡ area
    → IsFramed output
    → (out : List ℕ) × (convolve image output seed
        ≡ some (blur_total seed, lcg_bytes area seed, out))
      × (convolution_reference seed ≡ some (blur_total seed))
      × BlurredTo (lcg_bytes area seed) area out
unfolding convolve convolution_reference
convolve-convolution_reference seed image output len_in len_out frame =
    let (out, returns, done, sum) = y_loop-blur_total seed output len_out frame in
    let (host, host_returns, host_done, host_sum) =
      y_loop-blur_total seed (replicate area 0) (length-replicate {A = ℕ} area 0)
        (λ i b. black area i) in
    let folded : some (fold_sum host 0) ≡ some (blur_total seed) =
      sym (sum_loop-fold_sum host 0) ∙ ap (λ n. sum_loop n 0 host 0) host_done.0 ∙ host_sum in
    (
      out,
      rw (fill_whole area seed image len_in, returns, sum, masked seed) refl,
      rw host_returns (
          ap (λ (r : Option ℕ). r >>= λ t. some (bit_and t (2 ^ 30 - 1))) folded
          ∙ rw (masked seed) refl),
      done,
    )
