-- ===== src/Workload/Bulk/Agreement.antt =====
-- The host's re-computation of the bulk copies against the guest.
use wasm_benchmark.Base.{
  ℕ, ◌≡◌, ◌∙◌, refl, ap, List, some, length, replicate, length-replicate, bit_and, sym,
}
use wasm_benchmark.Workload.Lcg.{lcg_bytes, length-lcg_bytes, fill_whole}
use wasm_benchmark.Workload.Checksum.{sum_loop, fold_sum, sum_loop-fold_sum}
use wasm_benchmark.Workload.Bulk.{buffer_size, bulk_memory, bulk_memory_reference}
use wasm_benchmark.Workload.Bulk.Stripes.{round_loop-same}

-- For every seed, and whatever SRC and DST hold: no copy or fill goes beyond a buffer, and the guest
-- returns what the host's re-computation returns from a zeroed destination. SRC then holds the
-- generated bytes.
pub bulk_memory-bulk_memory_reference :
    (seed : ℕ) (src dst : List ℕ)
    → length src ≡ buffer_size
    → length dst ≡ buffer_size
    → (result : ℕ) × (out : List ℕ) × (bulk_memory src dst seed
        ≡ some (result, lcg_bytes buffer_size seed, out))
      × (length out ≡ buffer_size)
      × (bulk_memory_reference seed ≡ some result)
unfolding bulk_memory bulk_memory_reference
bulk_memory-bulk_memory_reference seed src dst len_src len_dst =
    let (out, guest, host, len) =
      round_loop-same (lcg_bytes buffer_size seed) (length-lcg_bytes buffer_size seed) dst
        (replicate buffer_size 0) len_dst (length-replicate {A = ℕ} buffer_size 0) in
    let summed : sum_loop buffer_size 0 out 0 ≡ some (fold_sum out 0) =
      ap (λ n. sum_loop n 0 out 0) (sym len) ∙ sum_loop-fold_sum out 0 in
    (
      bit_and (fold_sum out 0) 0x7FFFFFFF,
      out,
      rw (fill_whole buffer_size seed src len_src, guest, summed) refl,
      len,
      rw host refl,
    )
