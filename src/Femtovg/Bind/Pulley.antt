-- ===== src/Femtovg/Bind/Pulley.antt =====
-- The five imports of pulley_guest in crates/benchmark-core/src/femtovg_e2e.rs: closures over the
-- i32s, and the memory that the caller exports, if it does.
use wasm_benchmark.Base.{ℕ, ◌*◌, List, [], Option, none, some}
use wasm_benchmark.Femtovg.Host.{
  Replayer, Host, guest_span, max_zero, host_set_size, host_image_alloc, host_image_delete,
}
use wasm_benchmark.Femtovg.Bind.{update_with, render_with}

-- `_ => &[]`
abbrev pub memory : Option (List ℕ) → List ℕ
memory none = []
memory (some bytes) = bytes

module _ {R : Type 0} (lib : Replayer R) where
  unfoldable pub set_size : ℕ → ℕ → ℕ → Host R → Host R
  set_size w h dpi = host_set_size lib w h dpi

  unfoldable pub image_alloc : ℕ → ℕ → ℕ → ℕ → Host R → ℕ × Host R
  image_alloc w h f fl = host_image_alloc lib w h f fl

  unfoldable pub image_update :
      Option (List ℕ) → ℕ → ℕ → ℕ → ℕ → ℕ → ℕ → ℕ → ℕ → Host R → ℕ × Host R
  image_update exported hd x y w h f p n =
      update_with lib (guest_span (memory exported) p (max_zero n)) hd x y w h f

  unfoldable pub image_delete : ℕ → Host R → Host R
  image_delete hd = host_image_delete lib hd

unfoldable pub render : {R : Type 0} → Option (List ℕ) → ℕ → ℕ → ℕ → ℕ → Host R → Option (Host R)
render exported vp vn cp cn =
    render_with (guest_span (memory exported) vp (max_zero vn * 16))
      (guest_span (memory exported) cp (max_zero cn * 4))
