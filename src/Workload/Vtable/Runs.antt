-- ===== src/Workload/Vtable/Runs.antt =====
-- The virtual calls on concrete seeds, and the theorems there.
use wasm_benchmark.Base.{ℕ, ◌^◌, ◌≡◌, refl, some}
use wasm_benchmark.Workload.Vtable.{
  vtable_mono, vtable_bi, vtable_poly4, vtable_poly6, mix, aes_gcm,
}
use wasm_benchmark.Workload.Vtable.Rotation.{vtable_ends}

-- Rotation by five of the highest digit, and a change of the lowest.
mix_of_aes : mix aes_gcm (2 ^ 31) 1 ≡ 17
unfolding mix
mix_of_aes = refl

vtable_ends_example :
    ((out : ℕ) × (vtable_mono 0xC1AA ≡ some out))
    × ((out : ℕ) × (vtable_bi 0xC1AA ≡ some out))
    × ((out : ℕ) × (vtable_poly4 0xC1AA ≡ some out))
    × ((out : ℕ) × (vtable_poly6 0xC1AA ≡ some out))
vtable_ends_example = vtable_ends 0xC1AA
