-- ===== src/Workload/Convolution.antt =====
-- workloads-rs/convolution.rs, with the statics IN_BUF and OUT_BUF passed in and returned, and
-- `convolution_reference` of crates/benchmark-core/src/lib.rs, whose loops over y, x, dy and dx are
-- the guest's. `none` is a panic of an index; a sum
-- wraps, as in a release build.
pub mod Box
pub mod Blur
pub mod Agreement
mod Runs
use wasm_benchmark.Base.{
  ℕ, zero, suc, ◌+◌, ◌*◌, ◌/◌, ◌%◌, ◌^◌, ◌-◌, List, Option, none, some, ◌>>=◌, write, get_elem?,
  replicate, wrapping_add, bit_and,
}
use wasm_benchmark.Workload.Lcg.{fill_loop, lcg_bytes}
use wasm_benchmark.Workload.Checksum.{sum_loop, fold_sum}

-- W and H, and the pixels of an image.
abbrev pub width : ℕ
width = 256

abbrev pub height : ℕ
height = 256

abbrev pub area : ℕ
area = width * height

-- The loop over dx = d - 1, with the rounds left: acc += IN_BUF[yi * W + xi] as u32.
unfoldable pub dx_loop : ℕ → ℕ → ℕ → ℕ → List ℕ → ℕ → Option ℕ
dx_loop zero d yi x input acc = some acc
dx_loop (suc left) d yi x input acc = do
  v ← get_elem? input (yi * width + (x + d - 1))
  dx_loop left (d + 1) yi x input (wrapping_add acc v)

-- The loop over dy = d - 1.
unfoldable pub dy_loop : ℕ → ℕ → ℕ → ℕ → List ℕ → ℕ → Option ℕ
dy_loop zero d y x input acc = some acc
dy_loop (suc left) d y x input acc = do
  acc' ← dx_loop 3 0 (y + d - 1) x input acc
  dy_loop left (d + 1) y x input acc'

-- The loop over x: OUT_BUF[y * W + x] = (acc / 9) as u8.
unfoldable pub x_loop : ℕ → ℕ → ℕ → List ℕ → List ℕ → Option (List ℕ)
x_loop zero x y input output = some output
x_loop (suc left) x y input output = do
  acc ← dy_loop 3 0 y x input 0
  stored ← write output (y * width + x) (acc / 9 % 2 ^ 8)
  x_loop left (x + 1) y input stored

-- The loop over y.
unfoldable pub y_loop : ℕ → ℕ → List ℕ → List ℕ → Option (List ℕ)
y_loop zero y input output = some output
y_loop (suc left) y input output = do
  stored ← x_loop (width - 2) 1 y input output
  y_loop left (y + 1) input stored

-- The guest's `convolve`: its result, IN_BUF and OUT_BUF.
unfoldable pub convolve : List ℕ → List ℕ → ℕ → Option (ℕ × List ℕ × List ℕ)
convolve input output seed = do
  filled ← fill_loop area 0 seed input
  blurred ← y_loop (height - 2) 1 filled output
  sum ← sum_loop area 0 blurred 0
  some (bit_and sum (2 ^ 30 - 1), filled, blurred)

unfoldable pub convolution_reference : ℕ → Option ℕ
convolution_reference seed = do
  blurred ← y_loop (height - 2) 1 (lcg_bytes area seed) (replicate area 0)
  some (bit_and (fold_sum blurred 0) (2 ^ 30 - 1))
