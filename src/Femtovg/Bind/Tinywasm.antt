-- ===== src/Femtovg/Bind/Tinywasm.antt =====
-- The five imports in crates/benchmark-core/src/tinywasm.rs: a span is copied out of the memory, and
-- one that cannot be is an error of the call, `trap`.
use wasm_benchmark.Base.{ℕ, ◌*◌, ◌-◌, ◌^◌, List, Option, none, some, leb, if◌then◌else◌}
use wasm_benchmark.Femtovg.Host.{
  Replayer, Host, max_zero, host_set_size, host_image_alloc, host_image_update, host_image_delete,
  host_render,
}

pub data Called (A : Type 0) : Type 0 where
  ok : A → Called A
  trap : Called A

-- `n.saturating_mul(k)` of an i32 with a number, which stops at the least and the greatest i32.
abbrev pub saturating_mul : ℕ → ℕ → ℕ
saturating_mul n k =
    if leb (2 ^ 31) n
    then (if leb (2 ^ 31) ((2 ^ 32 - n) * k) then 2 ^ 31 else 2 ^ 32 - (2 ^ 32 - n) * k)
    else (if leb (2 ^ 31) (n * k) then 2 ^ 31 - 1 else n * k)

-- The memory's `read_vec`; the pointer is a u32.
module _ (read_vec : ℕ → ℕ → Option (List ℕ)) where
  unfoldable pub read : ℕ → ℕ → Option (List ℕ)
  read ptr len = read_vec ptr (max_zero len)

module _ {R : Type 0} (lib : Replayer R) where
  unfoldable pub set_size : ℕ → ℕ → ℕ → Host R → Host R
  set_size w h d = host_set_size lib w h d

  unfoldable pub image_alloc : ℕ → ℕ → ℕ → ℕ → Host R → ℕ × Host R
  image_alloc w h f fl = host_image_alloc lib w h f fl

  unfoldable pub image_update :
      (ℕ → ℕ → Option (List ℕ)) → ℕ → ℕ → ℕ → ℕ → ℕ → ℕ → ℕ → ℕ → Host R → Called (ℕ × Host R)
  image_update read_of hd x y w h f p n host = elim (read_of p n) [
    | none ↦ trap
    | some bytes ↦ ok (host_image_update lib hd x y w h f bytes host)
  ]

  unfoldable pub image_delete : ℕ → Host R → Host R
  image_delete hd = host_image_delete lib hd

-- What both reads give: the host behind host_render, whose copy may not fit.
abbrev pub render_read :
    {R : Type 0} → Option (List ℕ) → Option (List ℕ) → Host R → Called (Option (Host R))
render_read none cmds host = trap
render_read (some v) none host = trap
render_read (some v) (some c) host = ok (host_render v c host)

unfoldable pub render :
    {R : Type 0} → (ℕ → ℕ → Option (List ℕ)) → ℕ → ℕ → ℕ → ℕ → Host R → Called (Option (Host R))
render read_of vp vn cp cn =
    render_read (read_of vp (saturating_mul vn 16)) (read_of cp (saturating_mul cn 4))
