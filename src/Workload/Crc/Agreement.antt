-- ===== src/Workload/Crc/Agreement.antt =====
-- The three CRC-32s against each other.
use wasm_benchmark.Base.{
  ℕ, zero, suc, ◌+◌, ◌<◌, ◌≡◌, refl, sym, ap, ◌∙◌, arith, List, [], ◌∷◌, some, ◌>>=◌, drop_all,
  bind_congr, get_elem?-get_or, get_or, drop, drop-get_or, length, All, IsByte, bit_xor,
}
use wasm_benchmark.Workload.Lcg.{lcg_bytes, lcg_bytes-IsByte, length-lcg_bytes, fill_whole}
use wasm_benchmark.Workload.Crc.{
  input_size, table_step, guest_loop, host_loop, crc32, crc32_reference, png_loop, png_crc32,
  crc_rounds,
}
use wasm_benchmark.Workload.Crc.Table.{entries, build_table-entries, table_step-rounds}
use native.Mathlib.Numerals.{add-one}

host_loop-png_loop :
    (bytes : List ℕ) (crc : ℕ)
    → All IsByte bytes
    → host_loop bytes (entries 256 0) crc ≡ some (png_loop bytes crc)
unfolding host_loop png_loop
host_loop-png_loop [] crc h = refl
host_loop-png_loop (b ∷ bs) crc (hb, hbs) =
    rw (table_step-rounds crc b hb) (host_loop-png_loop bs (crc_rounds 8 (bit_xor crc b)) hbs)

-- The guest's loop by index is the host's over the bytes from that index on.
guest_loop-host_loop :
    (left i : ℕ) (input table : List ℕ) (crc : ℕ)
    → i + left ≡ length input
    → guest_loop left i input table crc ≡ host_loop (drop i input) table crc
unfolding guest_loop host_loop
guest_loop-host_loop zero i input table crc e = rw (drop_all input i (omega arith)) refl
guest_loop-host_loop (suc left) i input table crc e =
    let in_range : i < length input = omega arith in
    rw (get_elem?-get_or input i 0 in_range, drop-get_or input i 0 in_range, add-one i)
      (bind_congr (table_step table crc (get_or input i 0)) _ _
        λ crc'. guest_loop-host_loop left (suc i) input table crc' (omega arith))

-- The table-driven loop of the guest is the bitwise loop of the PNG writer, on any bytes, and no
-- read of it is out of bounds.
guest_loop-png_loop :
    (input : List ℕ) (crc : ℕ)
    → All IsByte input
    → guest_loop (length input) 0 input (entries 256 0) crc ≡ some (png_loop input crc)
guest_loop-png_loop input crc h =
    guest_loop-host_loop (length input) 0 input (entries 256 0) crc (omega arith)
    ∙ host_loop-png_loop input crc h

-- Whatever INPUT held before, the guest's `crc32` panics nowhere, leaves the bytes of the
-- generator in INPUT, and returns the PNG writer's CRC-32 of them.
pub crc32-png_crc32 :
    (input : List ℕ) (seed : ℕ)
    → length input ≡ input_size
    → crc32 input seed ≡ some (png_crc32 (lcg_bytes input_size seed), lcg_bytes input_size seed)
unfolding crc32 png_crc32
crc32-png_crc32 input seed e =
    rw (fill_whole input_size seed input e, build_table-entries, run) refl
  where
    run :
        guest_loop input_size 0 (lcg_bytes input_size seed) (entries 256 0) 0xFFFFFFFF
        ≡ some (png_loop (lcg_bytes input_size seed) 0xFFFFFFFF)
    run =
        ap (λ (n : ℕ). guest_loop n 0 (lcg_bytes input_size seed) (entries 256 0) 0xFFFFFFFF)
          (sym (length-lcg_bytes input_size seed))
        ∙ guest_loop-png_loop (lcg_bytes input_size seed) 0xFFFFFFFF
            (lcg_bytes-IsByte input_size seed)

-- The host's re-computation returns for every seed what the guest returns.
pub crc32_reference-crc32 :
    (input : List ℕ) (seed : ℕ)
    → length input ≡ input_size
    → crc32_reference seed ≡ (crc32 input seed >>= λ r. some r.0)
unfolding crc32_reference png_crc32
crc32_reference-crc32 input seed e =
    rw
      (
        crc32-png_crc32 input seed e,
        build_table-entries,
        host_loop-png_loop (lcg_bytes input_size seed) 0xFFFFFFFF
            (lcg_bytes-IsByte input_size seed),
      )
      refl
