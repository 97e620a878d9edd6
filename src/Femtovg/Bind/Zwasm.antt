-- ===== src/Femtovg/Bind/Zwasm.antt =====
-- The five imports in crates/benchmark-core/src/zwasm.rs: an argument is a value with a u64.
use wasm_benchmark.Base.{ℕ, ◌*◌, ◌%◌, ◌^◌, List, Option, get_or}
use wasm_benchmark.Femtovg.Host.{
  Replayer, Host, guest_span, max_zero, host_set_size, host_image_alloc, host_image_delete,
}
use wasm_benchmark.Femtovg.Bind.{update_with, render_with}
use wasm_benchmark.Runtimes.Zwasm.{Val}

abbrev pub zero_val : Val
zero_val = record { kind = 0; of = 0 }

unfoldable pub arg : List Val → ℕ → ℕ
arg args i = (get_or args i zero_val).of % 2 ^ 32

module _ {R : Type 0} (lib : Replayer R) where
  unfoldable pub set_size : List Val → Host R → Host R
  set_size args = host_set_size lib (arg args 0) (arg args 1) (arg args 2)

  unfoldable pub image_alloc : List Val → Host R → ℕ × Host R
  image_alloc args = host_image_alloc lib (arg args 0) (arg args 1) (arg args 2) (arg args 3)

  unfoldable pub image_update : List ℕ → List Val → Host R → ℕ × Host R
  image_update mem args =
      update_with lib (guest_span mem (arg args 6) (max_zero (arg args 7))) (arg args 0)
        (arg args 1) (arg args 2) (arg args 3) (arg args 4) (arg args 5)

  unfoldable pub image_delete : List Val → Host R → Host R
  image_delete args = host_image_delete lib (arg args 0)

unfoldable pub render : {R : Type 0} → List ℕ → List Val → Host R → Option (Host R)
render mem args =
    render_with (guest_span mem (arg args 0) (max_zero (arg args 1) * 16))
      (guest_span mem (arg args 2) (max_zero (arg args 3) * 4))
