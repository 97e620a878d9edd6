-- ===== src/Femtovg/Bind/Wasmedge.antt =====
-- The five imports in crates/benchmark-core/src/wasmedge.rs: the parameters are values, of which the
-- i32s are read, and the memory is asked for by its offsets.
use wasm_benchmark.Base.{
  ℕ, ◌*◌, ◌^◌, List, [], Option, none, some, Bool, get_or, ltb, ◌==◌, if◌then◌else◌,
}
use wasm_benchmark.Femtovg.Host.{
  Replayer, Host, max_zero, host_set_size, host_image_alloc, host_image_delete,
}
use wasm_benchmark.Femtovg.Bind.{update_with, render_with}

unfoldable pub args : List ℕ → ℕ → ℕ
args params i = get_or params i 0

-- Whether the frame has a memory, and MemoryInstanceGetPointerConst, which gives the bytes behind its
-- pointer, or `none` for NULL. An empty span is not asked for.
module _ (has_memory : Bool) (pointer : ℕ → ℕ → Option (List ℕ)) where
  unfoldable pub span : ℕ → ℕ → Option (List ℕ)
  span ptr len =
      if ltb ptr (2 ^ 31)
      then (if has_memory then (if len == 0 then some [] else pointer ptr len) else none)
      else none

module _ {R : Type 0} (lib : Replayer R) where
  unfoldable pub set_size : List ℕ → Host R → Host R
  set_size p = host_set_size lib (args p 0) (args p 1) (args p 2)

  unfoldable pub image_alloc : List ℕ → Host R → ℕ × Host R
  image_alloc p = host_image_alloc lib (args p 0) (args p 1) (args p 2) (args p 3)

  unfoldable pub image_update : (ℕ → ℕ → Option (List ℕ)) → List ℕ → Host R → ℕ × Host R
  image_update span_of p =
      update_with lib (span_of (args p 6) (max_zero (args p 7))) (args p 0) (args p 1) (args p 2)
        (args p 3) (args p 4) (args p 5)

  unfoldable pub image_delete : List ℕ → Host R → Host R
  image_delete p = host_image_delete lib (args p 0)

unfoldable pub render : {R : Type 0} → (ℕ → ℕ → Option (List ℕ)) → List ℕ → Host R → Option (Host R)
render span_of p =
    render_with (span_of (args p 0) (max_zero (args p 1) * 16))
      (span_of (args p 2) (max_zero (args p 3) * 4))
