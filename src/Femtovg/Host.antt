-- ===== src/Femtovg/Host.antt =====
-- The host's side of the five `fvg` imports in crates/benchmark-core/src/femtovg_e2e.rs. An i32 is
-- its 32 bits, usize has 64 bits, a byte is a number; femtovg's replayer is a parameter. The dump of
-- the buffers into a file is not modelled.
pub mod Frame
use wasm_benchmark.Base.{
  ℕ, zero, suc, ◌+◌, ◌-◌, ◌*◌, ◌/◌, ◌%◌, ◌^◌, List, [], ◌∷◌, Bool, true, false, Option, none, some,
  length, take, drop, leb, ltb, if◌then◌else◌, bit_xor,
}
use Prim.Native.String.{String}
use text.Mathlib.Text.{◌==◌ as str_eq}
use wasm_benchmark.Harness.Cases.{Runtime, pulley, wamr, wasm3, wasm_edge, zwasm, wasmz, tinywasm}

pub data Variant : Type 0 where
  relaxed simd128 scalar : Variant

abbrev pub variant_name : Variant → String
variant_name relaxed = "relaxed"
variant_name simd128 = "simd128"
variant_name scalar = "scalar"

abbrev pub parse : String → Option Variant
parse s =
    if str_eq s "relaxed"
    then some relaxed
    else if str_eq s "simd128"
    then some simd128
    else if str_eq s "scalar"
    then some scalar
    else none

abbrev pub best_for : Runtime → Variant
best_for pulley = simd128
best_for wamr = simd128
best_for wasm3 = scalar
best_for wasm_edge = simd128
best_for zwasm = scalar
best_for wasmz = scalar
best_for tinywasm = simd128

pub data PixelFormat : Type 0 where
  rgb8 rgba8 gray8 : PixelFormat

abbrev pub pixel_format : ℕ → Option PixelFormat
pixel_format zero = some rgb8
pixel_format (suc zero) = some rgba8
pixel_format (suc (suc zero)) = some gray8
pixel_format (suc (suc (suc n))) = none

abbrev pub fnv_offset : ℕ
fnv_offset = 0xcbf29ce484222325

abbrev pub fnv_prime : ℕ
fnv_prime = 0x00000100000001b3

unfoldable pub fnv1a : ℕ → List ℕ → ℕ
fnv1a h [] = h
fnv1a h (b ∷ bytes) = fnv1a (bit_xor h b * fnv_prime % 2 ^ 64) bytes

-- `i.max(0) as usize`, and `i as usize`.
abbrev pub max_zero : ℕ → ℕ
max_zero i = if ltb i (2 ^ 31) then i else 0

abbrev pub as_usize : ℕ → ℕ
as_usize i = if ltb i (2 ^ 31) then i else i + (2 ^ 64 - 2 ^ 32)

abbrev pub minus_one : ℕ
minus_one = 2 ^ 32 - 1

-- `mem.get(start..end)`
abbrev pub get_range : List ℕ → ℕ → ℕ → Option (List ℕ)
get_range mem start len =
    if leb (start + len) (length mem) then some (take len (drop start mem)) else none

-- A negative pointer, and an end that overflows, give nothing.
unfoldable pub guest_span : List ℕ → ℕ → ℕ → Option (List ℕ)
guest_span mem ptr len =
    if ltb ptr (2 ^ 31)
    then (if ltb (ptr + len) (2 ^ 64) then get_range mem ptr len else none)
    else none

-- What the host calls of femtovg's `WireReplayer`; the dpi is in thousandths.
pub record Replayer (R : Type 0) : Type 0 where
  pub set_size : ℕ → ℕ → ℕ → R → R
  pub image_alloc : ℕ → ℕ → ℕ → PixelFormat → R → Option ℕ × R
  pub image_update : ℕ → ℕ → ℕ → ℕ → ℕ → PixelFormat → List ℕ → R → Bool × R
  pub image_delete : ℕ → R → R

-- `HostState`; the vertices are their bytes, sixteen for each.
pub record HostState (R : Type 0) : Type 0 where
  pub replayer : R
  pub verts : List ℕ
  pub commands : List ℕ
  pub hash : ℕ
  pub rendered : Bool

-- The thread's host state, if one is installed.
abbrev pub Host : Type 0 → Type 0
Host R = Option (HostState R)

-- The u32s of the whole four-byte chunks.
unfoldable pub words : List ℕ → List ℕ
words [] = []
words (a ∷ []) = []
words (a ∷ b ∷ []) = []
words (a ∷ b ∷ c ∷ []) = []
words (a ∷ b ∷ c ∷ d ∷ rest) = (a + 256 * b + 65536 * c + 16777216 * d) ∷ words rest

abbrev pub updated : Bool → ℕ
updated true = 0
updated false = minus_one

abbrev pub image_handle : Option ℕ → ℕ
image_handle none = minus_one
image_handle (some x) = x

module _ {R : Type 0} where
  abbrev pub with_replayer : R → HostState R → HostState R
  with_replayer r h = record h { replayer = r }

module _ {R : Type 0} (lib : Replayer R) where
  unfoldable pub host_set_size : ℕ → ℕ → ℕ → Host R → Host R
  host_set_size width height dpi_milli none = none
  host_set_size width height dpi_milli (some h) =
      some (with_replayer (lib.set_size width height dpi_milli h.replayer) h)

  abbrev pub alloc_as : Option PixelFormat → ℕ → ℕ → ℕ → Host R → ℕ × Host R
  alloc_as none width height flags host = (minus_one, host)
  alloc_as (some format) width height flags none = (minus_one, none)
  alloc_as (some format) width height flags (some h) =
      let (x, r) = lib.image_alloc flags (max_zero width) (max_zero height) format h.replayer in
      (image_handle x, some (with_replayer r h))

  unfoldable pub host_image_alloc : ℕ → ℕ → ℕ → ℕ → Host R → ℕ × Host R
  host_image_alloc width height format flags = alloc_as (pixel_format format) width height flags

  abbrev pub update_as : Option PixelFormat → ℕ → ℕ → ℕ → ℕ → ℕ → List ℕ → Host R → ℕ × Host R
  update_as none handle x y width height bytes host = (minus_one, host)
  update_as (some format) handle x y width height bytes none = (minus_one, none)
  update_as (some format) handle x y width height bytes (some h) =
      let (ok, r) =
        lib.image_update handle (as_usize x) (as_usize y) (as_usize width) (as_usize height) format
          bytes h.replayer in
      (updated ok, some (with_replayer r h))

  unfoldable pub host_image_update : ℕ → ℕ → ℕ → ℕ → ℕ → ℕ → List ℕ → Host R → ℕ × Host R
  host_image_update handle x y width height format =
      update_as (pixel_format format) handle x y width height

  unfoldable pub host_image_delete : ℕ → Host R → Host R
  host_image_delete handle none = none
  host_image_delete handle (some h) = some (with_replayer (lib.image_delete handle h.replayer) h)

-- The copy of the vertices goes into a buffer of whole vertices; `none` is a copy that does not
-- fit, which the code does not check.
unfoldable pub host_render : {R : Type 0} → List ℕ → List ℕ → Host R → Option (Host R)
host_render verts commands none = some none
host_render verts commands (some h) =
    if leb (length verts) (length verts / 16 * 16)
    then some (
        some (record {
          replayer = h.replayer;
          verts = verts;
          commands = words commands;
          hash = fnv1a (fnv1a fnv_offset verts) commands;
          rendered = true;
        }))
    else none
