-- ===== src/Workload/Crc.antt =====
-- CRC-32 three times: the table-driven guest (workloads-rs/crc32.rs), the host's re-computation
-- of it (`crc32_reference` in crates/benchmark-core/src/lib.rs), and the bitwise one of the PNG
-- writer (`crc32` inside `write_png` in crates/benchmark-core/src/femtovg_e2e.rs).
pub mod Linear
pub mod Table
pub mod Agreement
pub mod Residue
mod Runs
use wasm_benchmark.Base.{
  ℕ, zero, suc, ◌+◌, ◌/◌, ◌^◌, List, [], ◌∷◌, Option, some, ◌>>=◌, write, get_elem?, replicate,
  if◌then◌else◌, ◌==◌, bit_and, bit_xor, not32, ◌*◌,
}
use wasm_benchmark.Workload.Lcg.{lcg_bytes, fill_loop}

-- The sources' N and POLY.
abbrev pub input_size : ℕ
input_size = 64 * 1024

abbrev pub poly : ℕ
poly = 0xEDB88320

-- if c & 1 != 0 { POLY ^ (c >> 1) } else { c >> 1 }
unfoldable pub crc_shift : ℕ → ℕ
crc_shift c = if bit_and c 1 == 0 then c / 2 else bit_xor poly (c / 2)

-- The inner loop over j, with the rounds left.
unfoldable pub crc_rounds : ℕ → ℕ → ℕ
crc_rounds zero c = c
crc_rounds (suc left) c = crc_rounds left (crc_shift c)

-- The loop over i of `build_table`, with 256 - i rounds left.
pub build_loop : ℕ → ℕ → List ℕ → Option (List ℕ)
build_loop zero i table = some table
build_loop (suc left) i table = do
  stored ← write table i (crc_rounds 8 i)
  build_loop left (i + 1) stored

pub build_table : Option (List ℕ)
build_table = build_loop 256 0 (replicate 256 0)

-- (crc >> 8) ^ table[((crc ^ b) & 0xFF) as usize]
unfoldable pub table_step : List ℕ → ℕ → ℕ → Option ℕ
table_step table crc b = do
  entry ← get_elem? table (bit_and (bit_xor crc b) 0xFF)
  some (bit_xor (crc / 2 ^ 8) entry)

-- The guest's loop reads INPUT[i], with N - i rounds left; the host's takes the bytes in turn.
pub guest_loop : ℕ → ℕ → List ℕ → List ℕ → ℕ → Option ℕ
guest_loop zero i input table crc = some crc
guest_loop (suc left) i input table crc = do
  b ← get_elem? input i
  crc' ← table_step table crc b
  guest_loop left (i + 1) input table crc'

pub host_loop : List ℕ → List ℕ → ℕ → Option ℕ
host_loop [] table crc = some crc
host_loop (b ∷ bs) table crc = do crc' ← table_step table crc b; host_loop bs table crc'

-- The guest's `crc32`: its result and the static INPUT afterwards. `none` is a panic.
pub crc32 : List ℕ → ℕ → Option (ℕ × List ℕ)
crc32 input seed = do
  filled ← fill_loop input_size 0 seed input
  table ← build_table
  crc ← guest_loop input_size 0 filled table 0xFFFFFFFF
  some (not32 crc, filled)

pub crc32_reference : ℕ → Option ℕ
crc32_reference seed = do
  let input = lcg_bytes input_size seed
  table ← build_table
  crc ← host_loop input table 0xFFFFFFFF
  some (not32 crc)

-- The PNG writer's loop: c ^= b, then eight rounds of the shift.
unfoldable pub png_loop : List ℕ → ℕ → ℕ
png_loop [] c = c
png_loop (b ∷ bs) c = png_loop bs (crc_rounds 8 (bit_xor c b))

unfoldable pub png_crc32 : List ℕ → ℕ
png_crc32 bytes = not32 (png_loop bytes 0xFFFFFFFF)
