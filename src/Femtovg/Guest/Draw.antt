-- ===== src/Femtovg/Guest/Draw.antt =====
-- draw_frame and zoom of workloads-rs-cargo/femtovg-guest/src/lib.rs: the calls of the canvas, in
-- their order, and what a canvas makes of them.
use wasm_benchmark.Base.{ℕ, ◌-◌, List, [], ◌∷◌, ◌++◌, Option, none, some, ltb, if◌then◌else◌}
use wasm_benchmark.Femtovg.Guest.Tree.{Library, FillRule}
use wasm_benchmark.Femtovg.Guest.Walk.{Item, draw, clip, restore, Scene}

pub data Call (F C P Q : Type 0) : Type 0 where
  reset save restore_call : Call F C P Q
  clear_rect : ℕ → ℕ → ℕ → ℕ → C → Call F C P Q
  translate scale : F → F → Call F C P Q
  fill_path stroke_path : P → Q → Call F C P Q
  clip_path : P → FillRule → Call F C P Q

module _ {F C P Q : Type 0} where
  abbrev pub stroke_calls : P → Option Q → List (Call F C P Q)
  stroke_calls out none = []
  stroke_calls out (some q) = stroke_path out q ∷ []

  abbrev pub paint_calls : P → Option Q → Option Q → List (Call F C P Q)
  paint_calls out none stroke = stroke_calls out stroke
  paint_calls out (some q) stroke = fill_path out q ∷ stroke_calls out stroke

  abbrev pub item_calls : Item P Q → List (Call F C P Q)
  item_calls (draw out fill stroke) = paint_calls out fill stroke
  item_calls (clip out rule) = save ∷ clip_path out rule ∷ []
  item_calls restore = restore_call ∷ []

  unfoldable pub items_calls : List (Item P Q) → List (Call F C P Q)
  items_calls [] = []
  items_calls (item ∷ items) = item_calls item ++ items_calls items

module _ {F T C P Q : Type 0} (lib : Library F T C P Q) where
  unfoldable pub zoom : ℕ → ℕ → F
  zoom index count =
      let t =
        if ltb 1 count then lib.div (lib.of_u32 index) (lib.of_u32 (count - 1)) else lib.of_u32 0 in
      lib.powf (lib.of_u32 16)
        (lib.sub (lib.of_u32 1) (lib.abs (lib.sub (lib.mul (lib.of_u32 2) t) (lib.of_u32 1))))

  -- The scale at which the whole scene fits a canvas of w times h, at the frame's zoom.
  abbrev pub fit : ℕ → ℕ → Scene F P Q → ℕ → ℕ → F
  fit w h scene index count =
      lib.mul (lib.min (lib.div (lib.of_u32 w) scene.width) (lib.div (lib.of_u32 h) scene.height))
        (zoom index count)

  -- The calls that bring the scene's center to the canvas's.
  abbrev pub placing : ℕ → ℕ → Scene F P Q → ℕ → ℕ → List (Call F C P Q)
  placing w h scene index count =
      let s = fit w h scene index count in
      translate (lib.mul (lib.of_u32 w) lib.half) (lib.mul (lib.of_u32 h) lib.half)
      ∷ scale s s
      ∷ translate (lib.mul (lib.neg scene.width) lib.half) (lib.mul (lib.neg scene.height) lib.half)
      ∷ []

  unfoldable pub draw_frame : ℕ → ℕ → Scene F P Q → ℕ → ℕ → List (Call F C P Q)
  draw_frame w h scene index count =
      reset
      ∷ clear_rect 0 0 w h (lib.rgbf (lib.of_u32 1) (lib.of_u32 1) (lib.of_u32 1))
      ∷ save
      ∷ (placing w h scene index count ++ (items_calls scene.items ++ restore_call ∷ []))
