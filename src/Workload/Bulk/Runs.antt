-- ===== src/Workload/Bulk/Runs.antt =====
-- The bulk copies on concrete input, and their theorem there.
use wasm_benchmark.Base.{
  ℕ, ◌≡◌, refl, List, [], ◌∷◌, some, none, replicate, length, length-replicate,
}
use wasm_benchmark.Workload.Lcg.{lcg_bytes}
use wasm_benchmark.Workload.Bulk.{buffer_size, overlay, copy_to, bulk_memory, bulk_memory_reference}
use wasm_benchmark.Workload.Bulk.Agreement.{bulk_memory-bulk_memory_reference}

abbrev small : List ℕ
small = 1 ∷ 2 ∷ 3 ∷ 4 ∷ []

copied_inside : copy_to small 1 (8 ∷ 9 ∷ []) ≡ some (1 ∷ 8 ∷ 9 ∷ 4 ∷ [])
unfolding copy_to overlay
copied_inside = refl

copied_beyond : copy_to small 3 (8 ∷ 9 ∷ []) ≡ none
unfolding copy_to overlay
copied_beyond = refl

abbrev old_source : List ℕ
old_source = replicate buffer_size 1

abbrev old_destination : List ℕ
old_destination = replicate buffer_size 255

bulk_memory-bulk_memory_reference_example :
    (result : ℕ) × (out : List ℕ) × (bulk_memory old_source old_destination 7
      ≡ some (result, lcg_bytes buffer_size 7, out))
    × (length out ≡ buffer_size)
    × (bulk_memory_reference 7 ≡ some result)
bulk_memory-bulk_memory_reference_example =
    bulk_memory-bulk_memory_reference 7 old_source old_destination
      (length-replicate {A = ℕ} buffer_size 1) (length-replicate {A = ℕ} buffer_size 255)
