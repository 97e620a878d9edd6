-- ===== src/Femtovg/Png.antt =====
-- `write_png` of crates/benchmark-core/src/femtovg_e2e.rs, up to the write of the file. The CRC-32
-- of its chunks is that of Workload.Crc. `none` is the panic of chunks_exact on an empty row.
pub mod Stored
pub mod Adler
mod Runs
use wasm_benchmark.Base.{
  ℕ, zero, suc, ◌+◌, ◌-◌, ◌*◌, ◌/◌, ◌%◌, ◌^◌, List, [], ◌∷◌, ◌++◌, Option, none, some, bit_or,
  length, take, drop, ltb, ◌==◌, if◌then◌else◌,
}
use wasm_benchmark.Workload.Crc.{png_crc32}

-- `to_be_bytes` of a u32.
abbrev pub be_bytes : ℕ → List ℕ
be_bytes w = w / 2 ^ 24 % 256 ∷ (w / 2 ^ 16 % 256 ∷ (w / 2 ^ 8 % 256 ∷ (w % 256 ∷ [])))

-- `to_le_bytes` of a u16.
abbrev pub le_bytes_16 : ℕ → List ℕ
le_bytes_16 w = w % 256 ∷ (w / 256 % 256 ∷ [])

-- `chunks(k)`: the last piece may be shorter. The length of the list is fuel enough.
pub chunks_loop : ℕ → ℕ → List ℕ → List (List ℕ)
chunks_loop zero k xs = []
chunks_loop (suc fuel) k [] = []
chunks_loop (suc fuel) k (x ∷ xs) = take k (x ∷ xs) ∷ chunks_loop fuel k (drop k (x ∷ xs))

pub chunks : ℕ → List ℕ → List (List ℕ)
chunks k xs = chunks_loop (length xs) k xs

-- A zero byte and the row, for each piece of `chunks_exact(k)`, which drops a shorter last one.
pub rows_loop : ℕ → ℕ → List ℕ → List ℕ
rows_loop zero k rgba = []
rows_loop (suc fuel) k rgba =
    let rest = rows_loop fuel k (drop k rgba) in
    if ltb (length rgba) k then [] else (0 ∷ (take k rgba ++ rest))

pub raw_rows : ℕ → List ℕ → List ℕ
raw_rows width rgba = rows_loop (length rgba) (width * 4) rgba

-- A stored block: the flag of the last one, the length and its complement, and the bytes.
pub stored_block : ℕ → List ℕ → List ℕ
stored_block flag block =
    flag
    ∷ (le_bytes_16 (length block % 2 ^ 16)
        ++ (le_bytes_16 (2 ^ 16 - 1 - length block % 2 ^ 16) ++ block))

-- The loop over the blocks, from index i on.
pub blocks_loop : ℕ → ℕ → List (List ℕ) → List ℕ
blocks_loop i total [] = []
blocks_loop i total (block ∷ blocks) =
    stored_block (if i + 1 == total then 1 else 0) block ++ blocks_loop (i + 1) total blocks

pub adler_loop : List ℕ → ℕ → ℕ → ℕ
adler_loop [] a b = bit_or (b * 2 ^ 16 % 2 ^ 32) a
adler_loop (x ∷ xs) a b = let a' = (a + x) % 65521 in adler_loop xs a' ((b + a') % 65521)

pub zlib : List ℕ → List ℕ
zlib raw =
    let blocks = chunks 65535 raw in
    0x78 ∷ (0x01 ∷ (blocks_loop 0 (length blocks) blocks ++ be_bytes (adler_loop raw 1 0)))

pub chunk : List ℕ → List ℕ → List ℕ
chunk kind bytes =
    be_bytes (length bytes % 2 ^ 32) ++ ((kind ++ bytes) ++ be_bytes (png_crc32 (kind ++ bytes)))

pub write_png : ℕ → ℕ → List ℕ → Option (List ℕ)
write_png width height rgba =
    if width == 0
    then none
    else some (
        (0x89 ∷ 80 ∷ 78 ∷ 71 ∷ 13 ∷ 10 ∷ 0x1A ∷ 10 ∷ [])
        ++ (chunk (73 ∷ 72 ∷ 68 ∷ 82 ∷ [])
              (be_bytes width ++ (be_bytes height ++ (8 ∷ 6 ∷ 0 ∷ 0 ∷ 0 ∷ [])))
            ++ (chunk (73 ∷ 68 ∷ 65 ∷ 84 ∷ []) (zlib (raw_rows width rgba))
                ++ chunk (73 ∷ 69 ∷ 78 ∷ 68 ∷ []) [])))
