-- ===== src/Workload/Crc/Residue.antt =====
-- The receiver's check: the register behind a message with its CRC appended.
use wasm_benchmark.Base.{
  ℕ, zero, suc, ◌-◌, ◌*◌, ◌/◌, ◌%◌, ◌^◌, ◌<◌, ◌≡◌, refl, sym, ap, ◌∙◌, arith, List, [], ◌∷◌, ◌++◌,
  All, IsByte, IsU32, not32, bit_xor,
}
use wasm_benchmark.Base.Bits.{xor-lt, xor_step, xor_assoc, xor_comm, xor_fields, xor-zero}
use wasm_benchmark.Workload.Crc.{crc_shift, crc_rounds, png_loop, png_crc32}
use native.Mathlib.Nat.{pow-suc}
use wasm_benchmark.Workload.Crc.Linear.{crc_rounds-IsU32, crc_rounds-xor_high}

-- The four bytes of a u32, lowest first.
abbrev pub le_bytes : ℕ → List ℕ
le_bytes w = w % 256 ∷ (w / 256 % 256 ∷ (w / 256 / 256 % 256 ∷ (w / 256 / 256 / 256 % 256 ∷ [])))

pub png_loop-append : (xs ys : List ℕ) (c : ℕ) → png_loop (xs ++ ys) c ≡ png_loop ys (png_loop xs c)
unfolding png_loop
png_loop-append [] ys c = refl
png_loop-append (x ∷ xs) ys c = png_loop-append xs ys (crc_rounds 8 (bit_xor c x))

-- Eight rounds take the lowest byte in; what lies above it waits.
rounds-byte :
    (c w : ℕ) → crc_rounds 8 (bit_xor c w) ≡ bit_xor (crc_rounds 8 (bit_xor c (w % 256))) (w / 256)
rounds-byte c w = ap (crc_rounds 8) regroup ∙ crc_rounds-xor_high 8 (bit_xor c (w % 256)) (w / 256)
  where
    regroup : bit_xor c w ≡ bit_xor (bit_xor c (w % 256)) (w / 256 * 2 ^ 8)
    regroup =
        ap (bit_xor c) (
          omega (
            arith,
            xor_comm (w % 256) (w / 256 * 256),
            xor_fields 8 (w / 256) (w % 256) (omega arith),
          ))
        ∙ sym (xor_assoc c (w % 256) (w / 256 * 2 ^ 8))

rounds_32 : (x : ℕ) → crc_rounds 32 x ≡ crc_rounds 8 (crc_rounds 8 (crc_rounds 8 (crc_rounds 8 x)))
unfolding crc_rounds
rounds_32 x = refl

-- Feeding the four bytes of `w` is 32 rounds on the register with `w` xored in.
png_loop-le_bytes : (c w : ℕ) → IsU32 w → png_loop (le_bytes w) c ≡ crc_rounds 32 (bit_xor c w)
unfolding png_loop
png_loop-le_bytes c w h =
    let w3 : ℕ = w / 256 / 256 / 256 in
    let top : w3 / 256 ≡ 0 = omega arith in
    sym (
      rw
        (
          rounds_32 (bit_xor c w),
          rounds-byte c w,
          rounds-byte _ (w / 256),
          rounds-byte _ (w / 256 / 256),
          rounds-byte _ w3,
          top,
          xor-zero _,
        )
        refl)

pub png_loop-IsU32 : (xs : List ℕ) (c : ℕ) → All IsByte xs → IsU32 c → IsU32 (png_loop xs c)
unfolding png_loop
png_loop-IsU32 [] c hx hc = hc
png_loop-IsU32 (x ∷ xs) c (hx, hxs) hc =
    png_loop-IsU32 xs (crc_rounds 8 (bit_xor c x)) hxs
      (crc_rounds-IsU32 8 (bit_xor c x) (xor-lt 32 c x hc (omega arith)))

xor-not : (k c : ℕ) → c < 2 ^ k → bit_xor c (2 ^ k - 1 - c) ≡ 2 ^ k - 1
xor-not zero c h = let e : c ≡ 0 = omega arith in rw e refl
xor-not (suc k) c h =
    let e : (2 ^ suc k - 1 - c) / 2 ≡ 2 ^ k - 1 - c / 2 = omega (arith, pow-suc 2 k) in
    omega (
      arith,
      pow-suc 2 k,
      xor_step c (2 ^ suc k - 1 - c),
      ap (bit_xor (c / 2)) e,
      xor-not k (c / 2) (omega (arith, pow-suc 2 k)),
    )

residue_value : crc_rounds 32 0xFFFFFFFF ≡ 0xDEBB20E3
unfolding crc_rounds crc_shift
residue_value = refl

-- Any message, followed by its CRC-32 in little-endian order, leaves the same register.
pub png_crc32_residue :
    (message : List ℕ)
    → All IsByte message
    → png_loop (message ++ le_bytes (png_crc32 message)) 0xFFFFFFFF ≡ 0xDEBB20E3
unfolding png_crc32
png_crc32_residue message h =
    let c : ℕ = png_loop message 0xFFFFFFFF in
    png_loop-append message (le_bytes (not32 c)) 0xFFFFFFFF
    ∙ png_loop-le_bytes c (not32 c) (omega arith)
    ∙ ap (crc_rounds 32) (xor-not 32 c (png_loop-IsU32 message 0xFFFFFFFF h (omega arith)))
    ∙ residue_value
