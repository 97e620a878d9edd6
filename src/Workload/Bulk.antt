-- ===== src/Workload/Bulk.antt =====
-- workloads-rs/bulk_memory.rs, with the statics SRC and DST passed in and returned, and
-- `bulk_memory_reference` of crates/benchmark-core/src/lib.rs, whose rounds are the guest's. `none`
-- is the host's panic of a slice, the guest's access outside a static, or the end of the fuel.
pub mod Overlay
pub mod Rounds
pub mod Stripes
pub mod Agreement
mod Runs
use wasm_benchmark.Base.{
  ℕ, zero, suc, ◌+◌, ◌*◌, ◌%◌, ◌^◌, ◌-◌, Bool, true, false, List, [], ◌∷◌, Option, none, some,
  ◌>>=◌, get_elem?, length, take, drop, replicate, leb, if◌then◌else◌, bit_and,
}
use wasm_benchmark.Workload.Lcg.{fill_loop, lcg_bytes}
use wasm_benchmark.Workload.Checksum.{sum_loop, fold_sum}

-- The sources' N and ROUNDS, and the sizes of a chunk.
abbrev pub buffer_size : ℕ
buffer_size = 64 * 1024

abbrev pub rounds : ℕ
rounds = 200

abbrev pub sizes : List ℕ
sizes = 16 ∷ 64 ∷ 256 ∷ 1024 ∷ 4096 ∷ []

-- The bytes of dst with those from off on overwritten.
unfoldable pub overlay : List ℕ → ℕ → List ℕ → List ℕ
overlay [] off bytes = []
overlay (x ∷ dst) (suc off) bytes = x ∷ overlay dst off bytes
overlay (x ∷ dst) zero [] = x ∷ dst
overlay (x ∷ dst) zero (b ∷ bytes) = b ∷ overlay dst zero bytes

-- `&src[off..off + size]`
unfoldable pub slice_at : List ℕ → ℕ → ℕ → Option (List ℕ)
slice_at src off size =
    if leb (off + size) (length src) then some (take size (drop off src)) else none

-- `copy_nonoverlapping` or `write_bytes` into DST, and `copy_from_slice` or `fill` of a slice of dst.
unfoldable pub copy_to : List ℕ → ℕ → List ℕ → Option (List ℕ)
copy_to dst off bytes =
    if leb (off + length bytes) (length dst) then some (overlay dst off bytes) else none

-- while off + size <= N { copy a chunk; off += size * 2; }
unfoldable pub copy_loop : ℕ → ℕ → ℕ → ℕ → List ℕ → List ℕ → Option (List ℕ)
copy_loop zero size round off src dst = none
copy_loop (suc fuel) size round off src dst = elim (leb (off + size) buffer_size) [
  | true ↦ do
    chunk ← slice_at src (bit_and (off + round * 17) (buffer_size - size)) size
    copied ← copy_to dst off chunk
    copy_loop fuel size round (off + size * 2) src copied
  | false ↦ some dst
]

-- A round: the chunks, then the stripe. Every off below N gets a round of fuel.
unfoldable pub round_step : ℕ → List ℕ → List ℕ → Option (List ℕ)
round_step round src dst = do
  size ← get_elem? sizes (round % 5)
  copied ← copy_loop (buffer_size + 1) size round 0 src dst
  copy_to copied (bit_and (round * 1024) (buffer_size - size)) (replicate size (bit_and round 0xFF))

-- The loop over the rounds, with those left.
unfoldable pub round_loop : ℕ → ℕ → List ℕ → List ℕ → Option (List ℕ)
round_loop zero round src dst = some dst
round_loop (suc left) round src dst = do
  filled ← round_step round src dst
  round_loop left (round + 1) src filled

-- The guest's `bulk_memory`: its result, SRC and DST.
unfoldable pub bulk_memory : List ℕ → List ℕ → ℕ → Option (ℕ × List ℕ × List ℕ)
bulk_memory src dst seed = do
  filled ← fill_loop buffer_size 0 seed src
  copied ← round_loop rounds 0 filled dst
  sum ← sum_loop buffer_size 0 copied 0
  some (bit_and sum 0x7FFFFFFF, filled, copied)

unfoldable pub bulk_memory_reference : ℕ → Option ℕ
bulk_memory_reference seed = do
  copied ← round_loop rounds 0 (lcg_bytes buffer_size seed) (replicate buffer_size 0)
  some (bit_and (fold_sum copied 0) 0x7FFFFFFF)
