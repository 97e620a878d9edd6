-- ===== src/Workload/Convolution/Blur.antt =====
-- The blurred image that the loops of workloads-rs/convolution.rs leave in OUT_BUF.
use wasm_benchmark.Base.{
  ℕ, zero, suc, ◌+◌, ◌*◌, ◌/◌, ◌%◌, ◌^◌, ◌-◌, ◌≤◌, ◌<◌, ◌≡◌, refl, arith, Bool, true, false, ◌&&◌,
  List, some, length, get_or, get_or-set_self, get_or-set_ne, set, length-set, write-eq-set, All,
  IsByte, leb, ltb, if◌then◌else◌, ◌∙◌, sym,
}
use native.Mathlib.Decide.{dec_lt, ℕ_discrete}
use mathlib.Core.Path.{subst}
use wasm_benchmark.Workload.Convolution.{width, height, area, x_loop, y_loop}
use wasm_benchmark.Workload.Convolution.Box.{box_sum, box_sum-le, dy_loop-box_sum}

-- Whether a pixel has eight neighbours.
abbrev pub is_inner : ℕ → Bool
is_inner i =
    leb 1 (i / width)
    && ltb (i / width + 1) height
    && leb 1 (i % width)
    && ltb (i % width + 1) width

-- A ninth of the sum around an inner pixel; the border is black.
unfoldable pub blurred : List ℕ → ℕ → ℕ
blurred input i = if is_inner i then box_sum input (i / width) (i % width) / 9 else 0

-- A black border.
abbrev pub IsFramed : List ℕ → Type 0
IsFramed output = (i : ℕ) → is_inner i ≡ false → get_or output i 0 ≡ 0

-- The pixels before p are blurred, and the border is black.
abbrev pub BlurredTo : List ℕ → ℕ → List ℕ → Type 0
BlurredTo input p output =
    (length output ≡ area)
    × ((i : ℕ) → i < p → get_or output i 0 ≡ blurred input i)
    × IsFramed output

inner_at :
    (x y : ℕ) → 1 ≤ y → y + 1 < height → 1 ≤ x → x + 1 < width → is_inner (y * width + x) ≡ true
inner_at x y hy hy' hx hx' = ground arith

module _ (input : List ℕ) (whole : length input ≡ area) (bytes : All IsByte input) where
  pub blurred-border : (i : ℕ) → is_inner i ≡ false → blurred input i ≡ 0
  unfolding blurred
  blurred-border i e = rw e refl

  blurred_at :
      (x y : ℕ)
      → 1 ≤ y
      → y + 1 < height
      → 1 ≤ x
      → x + 1 < width
      → blurred input (y * width + x) ≡ box_sum input y x / 9
  unfolding blurred
  blurred_at x y hy hy' hx hx' =
      let row : (y * width + x) / width ≡ y = omega arith in
      let column : (y * width + x) % width ≡ x = omega arith in
      rw (inner_at x y hy hy' hx hx', row, column) refl

  pub blurred-small : (i : ℕ) → blurred input i < 256
  unfolding blurred
  blurred-small i =
      elim (is_inner i)
        as (λ b. (if b then box_sum input (i / width) (i % width) / 9 else 0) < 256) [
          | true ↦ omega (arith, box_sum-le input whole bytes (i / width) (i % width))
          | false ↦ omega arith
        ]

  stored-BlurredTo :
      (p q : ℕ) (output : List ℕ)
      → q ≡ p + 1
      → is_inner p ≡ true
      → p < area
      → BlurredTo input p output
      → BlurredTo input q (set output p (blurred input p))
  stored-BlurredTo p q output next inner inside (len, done, frame) =
      let v : ℕ = blurred input p in
      (
        length-set output p v ∙ len,
        λ i h. elim (ℕ_discrete i p) [
          | yes e ↦ rw e (get_or-set_self output p v 0 (omega arith))
          | no n ↦ get_or-set_ne output p i v 0 (λ e. n (sym e)) ∙ done i (omega (arith, n))
        ],
        λ i border. get_or-set_ne output p i v 0 (λ e. cc (inner, border, e)) ∙ frame i border,
      )

  x_loop-BlurredTo :
      (left x y : ℕ) (output : List ℕ)
      → 1 ≤ y
      → y + 1 < height
      → 1 ≤ x
      → x + left ≡ width - 1
      → BlurredTo input (y * width + x) output
      → (out : List ℕ) × (x_loop left x y input output ≡ some out)
        × BlurredTo input (y * width + (width - 1)) out
  unfolding x_loop
  x_loop-BlurredTo zero x y output hy hy' hx e done =
      let end : x ≡ width - 1 = omega arith in
      (output, refl, subst (λ (t : ℕ). BlurredTo input (y * width + t) output) end done)
  x_loop-BlurredTo (suc left) x y output hy hy' hx e done =
      let p : ℕ = y * width + x in
      let pixel : box_sum input y x / 9 % 2 ^ 8 ≡ blurred input p =
        rw (blurred_at x y hy hy' hx (omega arith))
          (omega (arith, box_sum-le input whole bytes y x)) in
      let (out, returns, blurred_out) =
        x_loop-BlurredTo left (x + 1) y (set output p (blurred input p)) hy hy' (omega arith)
          (omega arith)
          (stored-BlurredTo p (y * width + (x + 1)) output (omega arith)
            (inner_at x y hy hy' hx (omega arith)) (omega arith) done) in
      (
        out,
        rw
            (
              dy_loop-box_sum input whole bytes y x hy hy' hx (omega arith),
              pixel,
              write-eq-set output p (blurred input p) (omega (arith, done.0)),
            )
            returns,
        blurred_out,
      )

  -- The border is blurred once it is black.
  skip_border :
      (p q : ℕ) (output : List ℕ)
      → ((i : ℕ) → p ≤ i → i < q → is_inner i ≡ false)
      → BlurredTo input p output
      → BlurredTo input q output
  skip_border p q output border (len, done, frame) = (
    len,
    (λ i h. elim (dec_lt i p) [
      | yes below ↦ done i below
      | no above ↦ let b = border i (omega (arith, above)) h in frame i b ∙ sym (blurred-border i b)
    ]),
    frame,
  )

  pub y_loop-BlurredTo :
      (left y : ℕ) (output : List ℕ)
      → 1 ≤ y
      → y + left ≡ height - 1
      → BlurredTo input (y * width + 1) output
      → (out : List ℕ) × (y_loop left y input output ≡ some out)
        × BlurredTo input ((height - 1) * width + 1) out
  unfolding y_loop
  y_loop-BlurredTo zero y output hy e done =
      let end : y ≡ height - 1 = omega arith in
      (output, refl, subst (λ (t : ℕ). BlurredTo input (t * width + 1) output) end done)
  y_loop-BlurredTo (suc left) y output hy e done =
      let (row, row_returns, row_done) =
        x_loop-BlurredTo (width - 2) 1 y output hy (omega arith) (omega arith) refl done in
      let (out, returns, blurred_out) =
        y_loop-BlurredTo left (y + 1) row (omega arith) (omega arith) (
          skip_border (y * width + (width - 1)) ((y + 1) * width + 1) row (λ i a b. ground arith)
            row_done) in
      (out, rw row_returns returns, blurred_out)

  -- From a black border on, the loops leave the blurred image, and panic nowhere.
  pub y_loop-blurred :
      (output : List ℕ)
      → length output ≡ area
      → IsFramed output
      → (out : List ℕ) × (y_loop (height - 2) 1 input output ≡ some out) × BlurredTo input area out
  y_loop-blurred output len frame =
      let (out, returns, done) = y_loop-BlurredTo (height - 2) 1 output (omega arith) refl (
        skip_border 0 (1 * width + 1) output (λ i a b. ground arith)
          (len, (λ i h. absurd (omega arith)), frame)) in
      (out, returns, skip_border ((height - 1) * width + 1) area out (λ i a b. ground arith) done)
