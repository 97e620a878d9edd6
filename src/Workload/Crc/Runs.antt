-- ===== src/Workload/Crc/Runs.antt =====
-- The CRC-32s on concrete input, and their theorems there.
use wasm_benchmark.Base.{
  ℕ, ◌≡◌, refl, List, [], ◌∷◌, ◌++◌, some, ◌>>=◌, replicate, length-replicate, arith,
}
use wasm_benchmark.Workload.Lcg.{lcg_bytes}
use wasm_benchmark.Workload.Crc.{
  input_size, crc_shift, crc_rounds, crc32, crc32_reference, png_loop, png_crc32,
}
use wasm_benchmark.Workload.Crc.Agreement.{crc32-png_crc32, crc32_reference-crc32}
use wasm_benchmark.Workload.Crc.Residue.{le_bytes, png_crc32_residue}

-- The bytes of "123456789", whose CRC-32 is the standard's check value.
abbrev nine_digits : List ℕ
nine_digits = 49 ∷ 50 ∷ 51 ∷ 52 ∷ 53 ∷ 54 ∷ 55 ∷ 56 ∷ 57 ∷ []

check_value : png_crc32 nine_digits ≡ 0xCBF43926
unfolding png_crc32 png_loop crc_rounds crc_shift
check_value = refl

abbrev zeroed : List ℕ
zeroed = replicate input_size 0

crc32-png_crc32_example :
    crc32 zeroed 0xC0FFEE
    ≡ some (png_crc32 (lcg_bytes input_size 0xC0FFEE), lcg_bytes input_size 0xC0FFEE)
crc32-png_crc32_example = crc32-png_crc32 zeroed 0xC0FFEE (length-replicate {A = ℕ} input_size 0)

crc32_reference-crc32_example : crc32_reference 0xC0FFEE ≡ (crc32 zeroed 0xC0FFEE >>= λ r. some r.0)
crc32_reference-crc32_example =
    crc32_reference-crc32 zeroed 0xC0FFEE (length-replicate {A = ℕ} input_size 0)

png_crc32_residue_example :
    png_loop (nine_digits ++ le_bytes (png_crc32 nine_digits)) 0xFFFFFFFF ≡ 0xDEBB20E3
png_crc32_residue_example = png_crc32_residue nine_digits (omega arith)
