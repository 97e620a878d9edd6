-- ===== src/Femtovg/Guest/Paths.antt =====
-- append_path, transform_scale, color and paint of workloads-rs-cargo/femtovg-guest/src/lib.rs.
use wasm_benchmark.Base.{ℕ, suc, List, [], ◌∷◌, map, Option, none, some}
use wasm_benchmark.Femtovg.Guest.Tree.{
  Library, PathSegment, FillRule, even_odd, non_zero, LineJoin, UsvgJoin, Fill, Rgb, Stop,
  UsvgPaint, linear_gradient, radial_gradient, pattern_paint,
}

abbrev pub join_of : UsvgJoin → LineJoin
join_of UsvgJoin.miter = LineJoin.miter
join_of UsvgJoin.miter_clip = LineJoin.miter
join_of UsvgJoin.round = LineJoin.round
join_of UsvgJoin.bevel = LineJoin.bevel

-- `rule` after a child with an even-odd fill.
abbrev pub rule_after : {F T : Type 0} → Option (Fill F T) → FillRule → FillRule
rule_after none rule = rule
rule_after (some f) rule = elim f.rule [ even_odd ↦ even_odd | non_zero ↦ rule ]

module _ {F T C P Q : Type 0} (lib : Library F T C P Q) where
  abbrev pub append_segment : T → PathSegment F → P → P
  append_segment ts (PathSegment.move_to p) out =
      let p' = lib.map_point ts p in lib.move_to p'.x p'.y out
  append_segment ts (PathSegment.line_to p) out =
      let p' = lib.map_point ts p in lib.line_to p'.x p'.y out
  append_segment ts (PathSegment.quad_to c p) out =
      let c' = lib.map_point ts c in
      let p' = lib.map_point ts p in lib.quad_to c'.x c'.y p'.x p'.y out
  append_segment ts (PathSegment.cubic_to c1 c2 p) out =
      let c1' = lib.map_point ts c1 in
      let c2' = lib.map_point ts c2 in
      let p' = lib.map_point ts p in lib.bezier_to c1'.x c1'.y c2'.x c2'.y p'.x p'.y out
  append_segment ts PathSegment.close out = lib.close out

  -- The path with the segments behind it, and their number.
  unfoldable pub append_path : P → List (PathSegment F) → T → P × ℕ
  append_path out [] ts = (out, 0)
  append_path out (seg ∷ segs) ts =
      let (out', n) = append_path (append_segment ts seg out) segs ts in (out', suc n)

  unfoldable pub convert_path : List (PathSegment F) → T → P × ℕ
  convert_path segs ts = append_path lib.new_path segs ts

  unfoldable pub transform_scale : T → F
  transform_scale ts =
      lib.sqrt
        (lib.abs (lib.sub (lib.mul (lib.sx ts) (lib.sy ts)) (lib.mul (lib.kx ts) (lib.ky ts))))

  unfoldable pub color_of : Rgb → F → C
  color_of c alpha = lib.rgba c.red c.green c.blue (
      lib.as_u8
        (lib.round (lib.mul (lib.clamp (lib.of_u32 0) (lib.of_u32 1) alpha) (lib.of_u32 255))))

  abbrev pub stops_of : F → List (Stop F) → List (F × C)
  stops_of alpha = map λ s. (s.offset, color_of s.color (lib.mul s.opacity alpha))

  unfoldable pub paint : UsvgPaint F T → F → T → Option Q
  paint (UsvgPaint.color c) alpha ts = some (lib.paint_color (color_of c alpha))
  paint (linear_gradient g) alpha ts =
      let gts = lib.pre_concat ts g.transform in
      let a = lib.map_point gts (record { x = g.x1; y = g.y1 }) in
      let b = lib.map_point gts (record { x = g.x2; y = g.y2 }) in
      some (lib.linear_gradient_stops a.x a.y b.x b.y (stops_of alpha g.stops))
  paint (radial_gradient g) alpha ts =
      let gts = lib.pre_concat ts g.transform in
      let c = lib.map_point gts (record { x = g.cx; y = g.cy }) in
      let s = transform_scale gts in
      some (
        lib.radial_gradient_stops c.x c.y (lib.mul g.fr s) (lib.mul g.r s) (stops_of alpha g.stops))
  paint pattern_paint alpha ts = none
