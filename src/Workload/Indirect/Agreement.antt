-- ===== src/Workload/Indirect/Agreement.antt =====
-- The two walks through the operations against each other.
use wasm_benchmark.Base.{
  ℕ, zero, suc, ◌/◌, ◌^◌, ◌≡◌, refl, arith, some, get_elem?, get_or, get_elem?-get_or,
}
use wasm_benchmark.Workload.Lcg.{lcg, lcg-IsU32}
use wasm_benchmark.Workload.Indirect.{
  ops, op_add, call_iters, indirect_loop, call_indirect, closure_loop, call_indirect_reference,
}

-- The table has sixteen operations, and a u32 has sixteen values in its highest four bits.
picked : (s : ℕ) → get_elem? ops (lcg s / 2 ^ 28) ≡ some (get_or ops (lcg s / 2 ^ 28) op_add)
picked s = get_elem?-get_or ops (lcg s / 2 ^ 28) op_add (omega (arith, lcg-IsU32 s))

loops_agree :
    (left acc s : ℕ)
    → (v : ℕ) × (indirect_loop left acc s ≡ some v) × (closure_loop left acc s ≡ some v)
unfolding indirect_loop closure_loop lcg
loops_agree zero acc s = (acc, refl, refl)
loops_agree (suc left) acc s =
    let op = get_or ops (lcg s / 2 ^ 28) op_add in
    let rest = loops_agree left (op acc (lcg s)) (lcg s) in
    (rest.0, rw (picked s) rest.1, rw (picked s) rest.2)

-- On any seed the guest and the host both end without an index out of bounds, with the same result.
pub call_indirect_reference-call_indirect :
    (seed : ℕ) → (v : ℕ) × (call_indirect seed ≡ some v) × (call_indirect_reference seed ≡ some v)
unfolding call_indirect call_indirect_reference
call_indirect_reference-call_indirect seed = loops_agree call_iters seed seed
