-- ===== src/Femtovg/Guest/Tree.antt =====
-- What the guest reads of usvg's tree and calls of femtovg: the tree is the data that its accessors
-- answer; f32, transforms, colors, and femtovg's paths and paints are parameters.
use wasm_benchmark.Base.{ℕ, List, Option, Bool}

pub record Point (F : Type 0) : Type 0 where
  pub x : F
  pub y : F

pub data PathSegment (F : Type 0) : Type 0 where
  move_to line_to : Point F → PathSegment F
  quad_to : Point F → Point F → PathSegment F
  cubic_to : Point F → Point F → Point F → PathSegment F
  close : PathSegment F

pub data FillRule : Type 0 where
  non_zero even_odd : FillRule

pub data LineCap : Type 0 where
  butt round square : LineCap

-- usvg's joins and femtovg's.
pub data UsvgJoin : Type 0 where
  miter miter_clip round bevel : UsvgJoin

pub data LineJoin : Type 0 where
  miter round bevel : LineJoin

pub record Rgb : Type 0 where
  pub red : ℕ
  pub green : ℕ
  pub blue : ℕ

pub record Stop (F : Type 0) : Type 0 where
  pub offset : F
  pub color : Rgb
  pub opacity : F

pub record LinearGradient (F T : Type 0) : Type 0 where
  pub x1 : F
  pub y1 : F
  pub x2 : F
  pub y2 : F
  pub transform : T
  pub stops : List (Stop F)

pub record RadialGradient (F T : Type 0) : Type 0 where
  pub cx : F
  pub cy : F
  pub r : F
  pub fr : F
  pub transform : T
  pub stops : List (Stop F)

pub data UsvgPaint (F T : Type 0) : Type 0 where
  color : Rgb → UsvgPaint F T
  linear_gradient : LinearGradient F T → UsvgPaint F T
  radial_gradient : RadialGradient F T → UsvgPaint F T
  pattern_paint : UsvgPaint F T

pub record Fill (F T : Type 0) : Type 0 where
  pub paint : UsvgPaint F T
  pub opacity : F
  pub rule : FillRule

pub record Stroke (F T : Type 0) : Type 0 where
  pub paint : UsvgPaint F T
  pub opacity : F
  pub width : F
  pub linecap : LineCap
  pub linejoin : UsvgJoin
  pub miterlimit : F
  pub dasharray : Option (List F)
  pub dashoffset : F

pub record PathNode (F T : Type 0) : Type 0 where
  pub is_visible : Bool
  pub segments : List (PathSegment F)
  pub abs_transform : T
  pub fill : Option (Fill F T)
  pub stroke : Option (Stroke F T)

-- The children of a clip path's root: `none` is a node that is no path.
pub record ClipPath (F T : Type 0) : Type 0 where
  pub transform : T
  pub children : List (Option (PathNode F T))

pub record GroupHead (F T : Type 0) : Type 0 where
  pub opacity : F
  pub clip_path : Option (ClipPath F T)
  pub abs_transform : T

-- A group's children; a group among them has children of its own.
pub data Nodes (F T : Type 0) : Type 0 where
  end : Nodes F T
  group_node : GroupHead F T → Nodes F T → Nodes F T → Nodes F T
  path_node : PathNode F T → Nodes F T → Nodes F T
  other_node : Nodes F T → Nodes F T

-- f32, usvg's Transform, and femtovg's Color, Path and Paint, so far as they are called.
pub record Library (F T C P Q : Type 0) : Type 0 where
  pub of_u32 : ℕ → F
  pub half : F
  pub add : F → F → F
  pub sub : F → F → F
  pub mul : F → F → F
  pub div : F → F → F
  pub min : F → F → F
  pub powf : F → F → F
  pub neg : F → F
  pub abs : F → F
  pub sqrt : F → F
  pub clamp : F → F → F → F
  pub round : F → F
  pub as_u8 : F → ℕ
  pub sx : T → F
  pub sy : T → F
  pub kx : T → F
  pub ky : T → F
  pub pre_concat : T → T → T
  pub map_point : T → Point F → Point F
  pub rgba : ℕ → ℕ → ℕ → ℕ → C
  pub rgbf : F → F → F → C
  pub new_path : P
  pub move_to : F → F → P → P
  pub line_to : F → F → P → P
  pub quad_to : F → F → F → F → P → P
  pub bezier_to : F → F → F → F → F → F → P → P
  pub close : P → P
  pub paint_color : C → Q
  pub linear_gradient_stops : F → F → F → F → List (F × C) → Q
  pub radial_gradient_stops : F → F → F → F → List (F × C) → Q
  pub with_anti_alias : Bool → Q → Q
  pub with_fill_rule : FillRule → Q → Q
  pub set_line_width : F → Q → Q
  pub set_line_cap : LineCap → Q → Q
  pub set_line_join : LineJoin → Q → Q
  pub set_miter_limit : F → Q → Q
  pub set_line_dash : List F → Q → Q
  pub set_line_dash_offset : F → Q → Q
