-- ===== src/Femtovg/Bind/Wasmz.antt =====
-- The five imports in crates/benchmark-core/src/wasmz.rs: an argument is a tagged value.
use wasm_benchmark.Base.{ℕ, ◌*◌, List, Option, get_or}
use wasm_benchmark.Femtovg.Host.{
  Replayer, Host, guest_span, max_zero, host_set_size, host_image_alloc, host_image_delete,
}
use wasm_benchmark.Femtovg.Bind.{update_with, render_with}
use wasm_benchmark.Runtimes.Wasmz.{WasmzVal, as_i32, i32_val}

unfoldable pub arg : List WasmzVal → ℕ → ℕ
arg p i = as_i32 (get_or p i (i32_val 0))

module _ {R : Type 0} (lib : Replayer R) where
  unfoldable pub set_size : List WasmzVal → Host R → Host R
  set_size p = host_set_size lib (arg p 0) (arg p 1) (arg p 2)

  unfoldable pub image_alloc : List WasmzVal → Host R → ℕ × Host R
  image_alloc p = host_image_alloc lib (arg p 0) (arg p 1) (arg p 2) (arg p 3)

  unfoldable pub image_update : List ℕ → List WasmzVal → Host R → ℕ × Host R
  image_update mem p =
      update_with lib (guest_span mem (arg p 6) (max_zero (arg p 7))) (arg p 0) (arg p 1) (arg p 2)
        (arg p 3) (arg p 4) (arg p 5)

  unfoldable pub image_delete : List WasmzVal → Host R → Host R
  image_delete p = host_image_delete lib (arg p 0)

unfoldable pub render : {R : Type 0} → List ℕ → List WasmzVal → Host R → Option (Host R)
render mem p =
    render_with (guest_span mem (arg p 0) (max_zero (arg p 1) * 16))
      (guest_span mem (arg p 2) (max_zero (arg p 3) * 4))
