-- ===== src/Femtovg/Bind/Wasm3.antt =====
-- The five imports in crates/benchmark-core/src/wasm3.rs: the slots on the stack are u64s, the result's
-- first and then one for each argument, the i32 in the low half. The memory is empty if the runtime
-- has none.
use wasm_benchmark.Base.{ℕ, ◌*◌, ◌%◌, ◌^◌, List, Option, get_or}
use wasm_benchmark.Femtovg.Host.{
  Replayer, Host, guest_span, max_zero, host_set_size, host_image_alloc, host_image_delete,
}
use wasm_benchmark.Femtovg.Bind.{update_with, render_with}

unfoldable pub arg : List ℕ → ℕ → ℕ
arg sp i = get_or sp i 0 % 2 ^ 32

module _ {R : Type 0} (lib : Replayer R) where
  unfoldable pub set_size : List ℕ → Host R → Host R
  set_size sp = host_set_size lib (arg sp 0) (arg sp 1) (arg sp 2)

  unfoldable pub image_alloc : List ℕ → Host R → ℕ × Host R
  image_alloc sp = host_image_alloc lib (arg sp 1) (arg sp 2) (arg sp 3) (arg sp 4)

  unfoldable pub image_update : List ℕ → List ℕ → Host R → ℕ × Host R
  image_update mem sp =
      update_with lib (guest_span mem (arg sp 7) (max_zero (arg sp 8))) (arg sp 1) (arg sp 2)
        (arg sp 3) (arg sp 4) (arg sp 5) (arg sp 6)

  unfoldable pub image_delete : List ℕ → Host R → Host R
  image_delete sp = host_image_delete lib (arg sp 0)

unfoldable pub render : {R : Type 0} → List ℕ → List ℕ → Host R → Option (Host R)
render mem sp =
    render_with (guest_span mem (arg sp 0) (max_zero (arg sp 1) * 16))
      (guest_span mem (arg sp 2) (max_zero (arg sp 3) * 4))
