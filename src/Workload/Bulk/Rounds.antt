-- ===== src/Workload/Bulk/Rounds.antt =====
-- The rounds of workloads-rs/bulk_memory.rs on two destinations.
use wasm_benchmark.Base.{
  ℕ, zero, suc, ◌+◌, ◌*◌, ◌%◌, ◌-◌, ◌≤◌, ◌<◌, ◌≡◌, ◌∙◌, sym, refl, ap, arith, true, false, List,
  some, length, get_or, get_elem?, replicate, length-replicate, leb, bit_and, le→leb,
}
use native.Mathlib.Decide.{dec_le}
use wasm_benchmark.Base.Bits.{and-le}
use wasm_benchmark.Workload.Bulk.{buffer_size, sizes, overlay, copy_loop, round_step, slice_at}
use wasm_benchmark.Workload.Bulk.Overlay.{
  length-overlay, overlay_keeps, overlay_covers, copy_to-overlay, slice_at_inside,
}

abbrev pub AgreeAt : List ℕ → List ℕ → ℕ → Type 0
AgreeAt a b j = get_or a j 0 ≡ get_or b j 0

-- What two destinations become: still whole, and the same wherever they were.
abbrev pub Follows : List ℕ → List ℕ → List ℕ → List ℕ → Type 0
Follows a b a' b' =
    (length a' ≡ buffer_size)
    × (length b' ≡ buffer_size)
    × ((j : ℕ) → AgreeAt a b j → AgreeAt a' b' j)

overlay-Follows :
    (a b : List ℕ) (off : ℕ) (bytes : List ℕ)
    → length a ≡ buffer_size
    → length b ≡ buffer_size
    → Follows a b (overlay a off bytes) (overlay b off bytes)
overlay-Follows a b off bytes la lb = (
  length-overlay a off bytes ∙ la,
  length-overlay b off bytes ∙ lb,
  λ j same. overlay_keeps a b off bytes j (la ∙ sym lb) same,
)

module _ (src : List ℕ) (whole : length src ≡ buffer_size) where
  copy_loop_more :
      (fuel size round off : ℕ) (dst chunk : List ℕ)
      → off + size ≤ buffer_size
      → slice_at src (bit_and (off + round * 17) (buffer_size - size)) size ≡ some chunk
      → off + length chunk ≤ length dst
      → copy_loop (suc fuel) size round off src dst
        ≡ copy_loop fuel size round (off + size * 2) src (overlay dst off chunk)
  unfolding copy_loop
  copy_loop_more fuel size round off dst chunk inside sliced fits =
      let test : leb (off + size) buffer_size ≡ true = le→leb (off + size) buffer_size inside in
      rw (copy_loop, test, sliced, copy_to-overlay dst off chunk fits) refl

  pub copy_loop-Follows :
      (fuel size round off : ℕ) (a b : List ℕ)
      → 1 ≤ size
      → size ≤ buffer_size
      → buffer_size - off < fuel
      → length a ≡ buffer_size
      → length b ≡ buffer_size
      → (a' : List ℕ) × (b' : List ℕ) × (copy_loop fuel size round off src a ≡ some a')
        × (copy_loop fuel size round off src b ≡ some b')
        × Follows a b a' b'
  unfolding copy_loop
  copy_loop-Follows zero size round off a b one fits fuelled la lb = absurd (omega arith)
  copy_loop-Follows (suc fuel) size round off a b one fits fuelled la lb =
      elim (dec_le (off + size) buffer_size) [
        | yes inside ↦
            let from : ℕ = bit_and (off + round * 17) (buffer_size - size) in
            let (chunk, sliced, len) =
              slice_at_inside src from size
                (omega (arith, and-le (off + round * 17) (buffer_size - size))) in
            let (la', lb', kept) = overlay-Follows a b off chunk la lb in
            let (a', b', ra, rb, f) =
              copy_loop-Follows fuel size round (off + size * 2) (overlay a off chunk)
                (overlay b off chunk) one fits (omega arith) la' lb' in
            (
              a',
              b',
              copy_loop_more fuel size round off a chunk inside sliced (omega arith) ∙ ra,
              copy_loop_more fuel size round off b chunk inside sliced (omega arith) ∙ rb,
              (f.0, f.1, λ j same. f.2 j (kept j same)),
            )
        | no beyond ↦
            let test : leb (off + size) buffer_size ≡ false = ground arith in
            (a, b, rw (copy_loop, test) refl, rw (copy_loop, test) refl, (la, lb, λ j same. same))
      ]

-- Every size is one of 16 to 4096 bytes.
size_fits :
    (k : ℕ)
    → k < 5
    → (get_elem? sizes k ≡ some (get_or sizes k 0))
      × (16 ≤ get_or sizes k 0)
      × (get_or sizes k 0 ≤ 4096)
size_fits zero h = (refl, omega arith, omega arith)
size_fits (suc zero) h = (refl, omega arith, omega arith)
size_fits (suc (suc zero)) h = (refl, omega arith, omega arith)
size_fits (suc (suc (suc zero))) h = (refl, omega arith, omega arith)
size_fits (suc (suc (suc (suc zero)))) h = (refl, omega arith, omega arith)
size_fits (suc (suc (suc (suc (suc k))))) h = absurd (omega arith)

-- Where the stripe of a round with the largest size starts.
abbrev pub stripe : ℕ → ℕ
stripe round = bit_and (round * 1024) (buffer_size - 4096)

module _ (src : List ℕ) (whole : length src ≡ buffer_size) where
  -- A round keeps what agrees, and its stripe agrees after it.
  pub round_step-Follows :
      (round : ℕ) (a b : List ℕ)
      → length a ≡ buffer_size
      → length b ≡ buffer_size
      → (a' : List ℕ) × (b' : List ℕ) × (round_step round src a ≡ some a')
        × (round_step round src b ≡ some b')
        × Follows a b a' b'
        × (round % 5 ≡ 4 → (j : ℕ) → stripe round ≤ j → j < stripe round + 4096 → AgreeAt a' b' j)
  unfolding round_step
  round_step-Follows round a b la lb =
      let size : ℕ = get_or sizes (round % 5) 0 in
      let (found, low, high) = size_fits (round % 5) (omega arith) in
      let (a1, b1, ra, rb, (la1, lb1, kept)) =
        copy_loop-Follows src whole (buffer_size + 1) size round 0 a b (omega arith) (omega arith)
          (omega arith) la lb in
      let off : ℕ = bit_and (round * 1024) (buffer_size - size) in
      let bytes : List ℕ = replicate size (bit_and round 0xFF) in
      let len : length bytes ≡ size = length-replicate size (bit_and round 0xFF) in
      let inside : off ≤ buffer_size - size = and-le (round * 1024) (buffer_size - size) in
      let (la2, lb2, kept2) = overlay-Follows a1 b1 off bytes la1 lb1 in
      (
        overlay a1 off bytes,
        overlay b1 off bytes,
        rw (found, ra) (copy_to-overlay a1 off bytes (omega arith)),
        rw (found, rb) (copy_to-overlay b1 off bytes (omega arith)),
        (la2, lb2, λ j same. kept2 j (kept j same)),
        λ last j from to.
            let largest : size ≡ 4096 = ap (λ k. get_or sizes k 0) last in
            let here : off ≡ stripe round =
              ap (λ s. bit_and (round * 1024) (buffer_size - s)) largest in
            overlay_covers a1 b1 off bytes j (la1 ∙ sym lb1) (omega arith) (omega arith),
      )
