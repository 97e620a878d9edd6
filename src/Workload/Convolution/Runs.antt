-- ===== src/Workload/Convolution/Runs.antt =====
-- The convolution at a concrete seed, and its theorem there.
use wasm_benchmark.Base.{ℕ, ◌≡◌, refl, List, some, replicate, length-replicate}
use wasm_benchmark.Workload.Lcg.{lcg_bytes}
use wasm_benchmark.Workload.Convolution.{area, convolve, convolution_reference, dx_loop, dy_loop}
use wasm_benchmark.Workload.Convolution.Blur.{BlurredTo}
use wasm_benchmark.Workload.Convolution.Agreement.{
  black, blur_total, convolve-convolution_reference,
}

-- The sum around the second pixel of the second row of an image of sevens.
sevens : dy_loop 3 0 1 1 (replicate 600 7) 0 ≡ some 63
unfolding dy_loop dx_loop
sevens = refl

abbrev old_image : List ℕ
old_image = replicate area 9

abbrev black_image : List ℕ
black_image = replicate area 0

convolve-convolution_reference_example :
    (out : List ℕ) × (convolve old_image black_image 42
      ≡ some (blur_total 42, lcg_bytes area 42, out))
    × (convolution_reference 42 ≡ some (blur_total 42))
    × BlurredTo (lcg_bytes area 42) area out
convolve-convolution_reference_example =
    convolve-convolution_reference 42 old_image black_image (length-replicate {A = ℕ} area 9)
      (length-replicate {A = ℕ} area 0) (λ i b. black area i)
