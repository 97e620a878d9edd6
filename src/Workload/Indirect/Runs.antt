-- ===== src/Workload/Indirect/Runs.antt =====
-- The walk from the seed 42.
use wasm_benchmark.Base.{ℕ, ◌≡◌, some}
use wasm_benchmark.Workload.Indirect.{call_indirect, call_indirect_reference}
use wasm_benchmark.Workload.Indirect.Agreement.{call_indirect_reference-call_indirect}

call_indirect_reference-call_indirect_example :
    (v : ℕ) × (call_indirect 42 ≡ some v) × (call_indirect_reference 42 ≡ some v)
call_indirect_reference-call_indirect_example = call_indirect_reference-call_indirect 42
