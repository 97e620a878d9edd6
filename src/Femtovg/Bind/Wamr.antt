-- ===== src/Femtovg/Bind/Wamr.antt =====
-- The five imports in crates/benchmark-core/src/wamr.rs: the arguments are the C function's, and the
-- memory is asked for by its offsets, `validate` and `native` being WAMR's functions for that.
use wasm_benchmark.Base.{ℕ, ◌*◌, ◌^◌, List, Option, none, ltb, if◌then◌else◌, Bool}
use wasm_benchmark.Femtovg.Host.{
  Replayer, Host, max_zero, host_set_size, host_image_alloc, host_image_delete,
}
use wasm_benchmark.Femtovg.Bind.{update_with, render_with}

-- The instance is a state: a range that does not pass `validate` leaves an exception on it, for which
-- the call of the guest ends in a trap. `native` gives the bytes behind the pointer, or `none` for
-- NULL.
module _ {I : Type 0} (validate : ℕ → ℕ → I → Bool × I) (native : ℕ → ℕ → I → Option (List ℕ)) where
  unfoldable pub span : ℕ → ℕ → I → Option (List ℕ) × I
  span ptr len inst =
      if ltb ptr (2 ^ 31)
      then (let (valid, inst') = validate ptr len inst in
          ((if valid then native ptr len inst' else none), inst'))
      else (none, inst)

module _ {R : Type 0} (lib : Replayer R) where
  unfoldable pub set_size : ℕ → ℕ → ℕ → Host R → Host R
  set_size w h dpi = host_set_size lib w h dpi

  unfoldable pub image_alloc : ℕ → ℕ → ℕ → ℕ → Host R → ℕ × Host R
  image_alloc w h f fl = host_image_alloc lib w h f fl

  unfoldable pub image_update :
      {I : Type 0}
      → (ℕ → ℕ → I → Option (List ℕ) × I)
      → ℕ
      → ℕ
      → ℕ
      → ℕ
      → ℕ
      → ℕ
      → ℕ
      → ℕ
      → Host R
      → I
      → (ℕ × Host R) × I
  image_update span_of hd x y w h f p n host inst =
      let (bytes, inst') = span_of p (max_zero n) inst in
      (update_with lib bytes hd x y w h f host, inst')

  unfoldable pub image_delete : ℕ → Host R → Host R
  image_delete hd = host_image_delete lib hd

-- Both spans are asked for before either is looked at.
unfoldable pub render :
    {R I : Type 0}
    → (ℕ → ℕ → I → Option (List ℕ) × I)
    → ℕ
    → ℕ
    → ℕ
    → ℕ
    → Host R
    → I
    → Option (Host R) × I
render span_of vp vn cp cn host inst =
    let (verts, inst') = span_of vp (max_zero vn * 16) inst in
    let (cmds, inst'') = span_of cp (max_zero cn * 4) inst' in (render_with verts cmds host, inst'')
