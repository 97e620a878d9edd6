-- ===== src/Femtovg/Guest/Wire.antt =====
-- The `fvg` imports as the sink of femtovg's renderer, and the exports fvg_init and fvg_frame, in
-- workloads-rs-cargo/femtovg-guest/src/lib.rs. An i32 is its 32 bits and usize has 32; a slice is its
-- address with what it holds. usvg's parser and femtovg's canvas are parameters.
pub mod Hash
use wasm_benchmark.Base.{
  ℕ, ◌*◌, ◌^◌, ◌%◌, List, [], ◌∷◌, Bool, true, false, Option, none, some, length, get_elem?, ltb,
  leb, ◌==◌, if◌then◌else◌, ◌-◌,
}
use wasm_benchmark.Femtovg.Host.{PixelFormat, rgb8, rgba8, gray8, minus_one}
use wasm_benchmark.Femtovg.Guest.Tree.{Library, GroupHead, Nodes}
use wasm_benchmark.Femtovg.Guest.Walk.{Scene, paths, load_tree}
use wasm_benchmark.Femtovg.Guest.Draw.{Call, draw_frame}

-- The bits of the four floats of a vertex.
pub record Vertex : Type 0 where
  pub x : ℕ
  pub y : ℕ
  pub u : ℕ
  pub v : ℕ

pub record Slice (A : Type 0) : Type 0 where
  pub ptr : ℕ
  pub of : List A

pub record ImageInfo : Type 0 where
  pub width : ℕ
  pub height : ℕ
  pub format : PixelFormat
  pub flags : ℕ

-- `commands.get(1).map_or(0, |&n| n as i32)`
unfoldable pub command_count : List ℕ → ℕ
command_count commands = elim (get_elem? commands 1) [ none ↦ 0 | some n ↦ n ]

abbrev pub format_code : PixelFormat → ℕ
format_code rgb8 = 0
format_code rgba8 = 1
format_code gray8 = 2

-- The five imported functions.
pub record Fvg (W : Type 0) : Type 0 where
  pub set_size : ℕ → ℕ → ℕ → W → W
  pub image_alloc : ℕ → ℕ → ℕ → ℕ → W → ℕ × W
  pub image_update : ℕ → ℕ → ℕ → ℕ → ℕ → ℕ → ℕ → ℕ → W → ℕ × W
  pub image_delete : ℕ → W → W
  pub render : ℕ → ℕ → ℕ → ℕ → W → W

-- The world outside, and LAST_COMMANDS.
pub record Wired (W : Type 0) : Type 0 where
  pub outside : W
  pub last_commands : ℕ

-- `WireSink`: `none` and `false` are the errors.
pub record Sink (G : Type 0) : Type 0 where
  pub set_size : ℕ → ℕ → ℕ → G → G
  pub image_alloc : ImageInfo → G → Option ℕ × G
  pub image_update : ℕ → ℕ → ℕ → ℕ → ℕ → PixelFormat → Slice ℕ → G → Bool × G
  pub image_delete : ℕ → G → G
  pub render : Slice Vertex → Slice ℕ → G → G

abbrev pub i32_of : ℕ → ℕ
i32_of n = n % 2 ^ 32

module _ {W : Type 0} (fvg : Fvg W) where
  abbrev pub sink_image_alloc : ImageInfo → Wired W → Option ℕ × Wired W
  sink_image_alloc info g =
      let (h, w) =
        fvg.image_alloc (i32_of info.width) (i32_of info.height) (format_code info.format)
          (i32_of info.flags) g.outside in
      ((if leb (2 ^ 31) h then none else some h), record g { outside = w })

  abbrev pub sink_image_update :
      ℕ → ℕ → ℕ → ℕ → ℕ → PixelFormat → Slice ℕ → Wired W → Bool × Wired W
  sink_image_update handle x y width height format bytes g =
      let (rc, w) =
        fvg.image_update handle (i32_of x) (i32_of y) (i32_of width) (i32_of height)
          (format_code format) bytes.ptr (i32_of (length bytes.of)) g.outside in
      ((rc == 0), record g { outside = w })

  abbrev pub sink_render : Slice Vertex → Slice ℕ → Wired W → Wired W
  sink_render verts commands g = record {
    outside =
        fvg.render verts.ptr (i32_of (length verts.of)) commands.ptr (i32_of (length commands.of))
          g.outside;
    last_commands = command_count commands.of;
  }

  -- The dpi comes in thousandths, rounded.
  abbrev pub imports : Sink (Wired W)
  imports = record {
    set_size = λ width height dpi_milli g. record g {
      outside = fvg.set_size width height dpi_milli g.outside;
    };
    image_alloc = sink_image_alloc;
    image_update = sink_image_update;
    image_delete = λ handle g. record g { outside = fvg.image_delete handle g.outside };
    render = sink_render;
  }

-- femtovg's canvas over a renderer that calls a sink.
pub record CanvasLibrary (K G F C P Q : Type 0) : Type 0 where
  pub new : Sink G → G → Option K × G
  pub set_size : Sink G → ℕ → ℕ → F → K → G → K × G
  pub width : K → ℕ
  pub height : K → ℕ
  pub call : Sink G → Call F C P Q → K → G → K × G
  pub flush : Sink G → K → G → K × G

pub record Drawing (K F P Q : Type 0) : Type 0 where
  pub canvas : K
  pub scene : Scene F P Q

-- STATE, and the rest.
pub record Guest (K W F P Q : Type 0) : Type 0 where
  pub state : Option (Drawing K F P Q)
  pub wired : Wired W

-- The size and the root of a parsed scene.
pub record Tree (F T : Type 0) : Type 0 where
  pub width : F
  pub height : F
  pub root : GroupHead F T
  pub children : Nodes F T

module _ {K W F T C P Q : Type 0} (fvg : Fvg W) (lib : Library F T C P Q)
    (canvases : CanvasLibrary K (Wired W) F C P Q) (parsed : ℕ → Option (Tree F T)) where
  -- `SCENES.get(index)`, of two scenes, and usvg's parser.
  abbrev pub load_scene : ℕ → Option (Scene F P Q)
  load_scene index =
      if ltb index 2
      then elim (parsed index) [
        | none ↦ none
        | some t ↦ some (load_tree lib t.width t.height t.root t.children)
      ]
      else none

  abbrev pub minus_two : ℕ
  minus_two = 2 ^ 32 - 2

  abbrev pub with_canvas :
      Scene F P Q → ℕ → ℕ → Option K × Wired W → Guest K W F P Q → ℕ × Guest K W F P Q
  with_canvas scene width height (none, g) guest = (minus_two, record guest { wired = g })
  with_canvas scene width height (some k, g) guest =
      let (k', g') = canvases.set_size (imports fvg) width height (lib.of_u32 1) k g in
      (
        i32_of (paths scene),
        record { state = some (record { canvas = k'; scene = scene }); wired = g' },
      )

  abbrev pub with_scene : Option (Scene F P Q) → ℕ → ℕ → Guest K W F P Q → ℕ × Guest K W F P Q
  with_scene none width height guest = (minus_one, guest)
  with_scene (some scene) width height guest =
      with_canvas scene width height (canvases.new (imports fvg) guest.wired) guest

  unfoldable pub fvg_init : ℕ → ℕ → ℕ → Guest K W F P Q → ℕ × Guest K W F P Q
  fvg_init scene width height = with_scene (load_scene scene) width height

  abbrev pub calls_loop : List (Call F C P Q) → K → Wired W → K × Wired W
  calls_loop [] k g = (k, g)
  calls_loop (call ∷ calls) k g =
      let (k', g') = canvases.call (imports fvg) call k g in calls_loop calls k' g'

  abbrev pub frame_of : Option (Drawing K F P Q) → ℕ → ℕ → Wired W → ℕ × Guest K W F P Q
  frame_of none index count g = (minus_one, record { state = none; wired = g })
  frame_of (some d) index count g =
      let (k, g') =
        calls_loop
          (draw_frame lib (canvases.width d.canvas) (canvases.height d.canvas) d.scene index count)
          d.canvas g in
      let (k', g'') = canvases.flush (imports fvg) k g' in
      (
        g''.last_commands,
        record { state = some (record { canvas = k'; scene = d.scene }); wired = g'' },
      )

  unfoldable pub fvg_frame : ℕ → ℕ → Guest K W F P Q → ℕ × Guest K W F P Q
  fvg_frame index count guest = frame_of guest.state index count guest.wired
