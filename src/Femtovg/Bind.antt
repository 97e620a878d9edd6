-- ===== src/Femtovg/Bind.antt =====
-- The bindings of the five `fvg` imports, next to each runtime's C functions.
pub mod Wasm3
pub mod Wasmz
pub mod Zwasm
pub mod Wamr
pub mod Pulley
pub mod Wasmedge
pub mod Tinywasm
pub mod Agreement
pub mod Traps
mod Runs
use wasm_benchmark.Base.{ℕ, List, Option, none, some}
use wasm_benchmark.Femtovg.Host.{Replayer, Host, minus_one, host_image_update, host_render}

-- `match span { Some(data) => host_image_update(..), None => -1 }`
abbrev pub update_with :
    {R : Type 0} → Replayer R → Option (List ℕ) → ℕ → ℕ → ℕ → ℕ → ℕ → ℕ → Host R → ℕ × Host R
update_with lib none handle x y width height format host = (minus_one, host)
update_with lib (some bytes) handle x y width height format host =
    host_image_update lib handle x y width height format bytes host

-- `if let (Some(v), Some(c)) = (verts, cmds) { host_render(v, c) }`
abbrev pub render_with : {R : Type 0} → Option (List ℕ) → Option (List ℕ) → Host R → Option (Host R)
render_with none cmds host = some host
render_with (some v) none host = some host
render_with (some v) (some c) host = host_render v c host
