-- ===== src/Femtovg/Guest/Runs.antt =====
-- A library whose floats, transforms, paths and paints are numbers, a tree of a clipped group with a
-- path in it, and a frame of one vertex.
use wasm_benchmark.Base.{ℕ, ◌+◌, ◌-◌, ◌*◌, ◌≡◌, arith, [], ◌∷◌, true, none, some, false}
use wasm_benchmark.Femtovg.Host.{HostState, host_render}
use wasm_benchmark.Femtovg.Host.Frame.{word_bytes}
use wasm_benchmark.Femtovg.Guest.Tree.{
  Library, UsvgPaint, PathSegment, PathNode, GroupHead, Nodes, even_odd, end, group_node, path_node,
  other_node,
}
use wasm_benchmark.Femtovg.Guest.Walk.{load_tree}
use wasm_benchmark.Femtovg.Guest.Draw.{draw_frame}
use wasm_benchmark.Femtovg.Guest.Canvas.{replay, blank}
use wasm_benchmark.Femtovg.Guest.Picture.{picture, placed, draw_frame-picture}
use wasm_benchmark.Femtovg.Guest.Wire.{Vertex}
use wasm_benchmark.Femtovg.Guest.Wire.Hash.{frame_hash, vertex_words, host_render-frame_hash}

abbrev numbers : Library ℕ ℕ ℕ ℕ ℕ
numbers = record {
  of_u32 = λ n. n;
  half = 1;
  add = λ a b. a + b;
  sub = λ a b. a - b;
  mul = λ a b. a * b;
  div = λ a b. a;
  min = λ a b. a;
  powf = λ a b. a;
  neg = λ a. a;
  abs = λ a. a;
  sqrt = λ a. a;
  clamp = λ lo hi a. a;
  round = λ a. a;
  as_u8 = λ a. a;
  sx = λ t. t;
  sy = λ t. t;
  kx = λ t. t;
  ky = λ t. t;
  pre_concat = λ a b. a + b;
  map_point = λ t q. q;
  rgba = λ r g b a. r + g + b + a;
  rgbf = λ r g b. r + g + b;
  new_path = 0;
  move_to = λ x y q. q + 1;
  line_to = λ x y q. q + 1;
  quad_to = λ a b x y q. q + 1;
  bezier_to = λ a b c d x y q. q + 1;
  close = λ q. q + 1;
  paint_color = λ c. c;
  linear_gradient_stops = λ a b c d stops. 1;
  radial_gradient_stops = λ a b c d stops. 2;
  with_anti_alias = λ b q. q;
  with_fill_rule = λ rule q. q;
  set_line_width = λ w q. q;
  set_line_cap = λ cap q. q;
  set_line_join = λ join q. q;
  set_miter_limit = λ m q. q;
  set_line_dash = λ dash q. q;
  set_line_dash_offset = λ offset q. q;
}

abbrev demo_path : PathNode ℕ ℕ
demo_path = record {
  is_visible = true;
  segments = PathSegment.close ∷ [];
  abs_transform = 1;
  fill = some (record {
    paint = UsvgPaint.color (record { red = 1; green = 2; blue = 3 });
    opacity = 1;
    rule = even_odd;
  });
  stroke = none;
}

abbrev demo_root : GroupHead ℕ ℕ
demo_root = record { opacity = 1; clip_path = none; abs_transform = 0 }

abbrev demo_group : GroupHead ℕ ℕ
demo_group = record {
  opacity = 2;
  clip_path = some (record { transform = 0; children = some demo_path ∷ none ∷ [] });
  abs_transform = 0;
}

abbrev demo_children : Nodes ℕ ℕ
demo_children =
    group_node demo_group (path_node demo_path end) (path_node demo_path (other_node end))

draw_frame-picture_example :
    replay (draw_frame numbers 8 8 (load_tree numbers 4 4 demo_root demo_children) 1 3) blank [] ≡ (
      picture numbers 1 (group_node demo_root demo_children end) (placed numbers 8 8 4 4 1 3),
      blank,
      [],
    )
draw_frame-picture_example = draw_frame-picture numbers 8 8 1 3 4 4 demo_root demo_children blank []

abbrev demo_vertex : Vertex
demo_vertex = record { x = 1065353216; y = 0; u = 0; v = 3 }

abbrev blank_host : HostState ℕ
blank_host = record { replayer = 0; verts = []; commands = []; hash = 0; rendered = false }

host_render-frame_hash_example :
    let bytes = word_bytes (vertex_words (demo_vertex ∷ [])) in
    (h' : HostState ℕ) × (host_render bytes (word_bytes (7 ∷ 2 ∷ [])) (some blank_host)
      ≡ some (some h'))
    × (h'.hash ≡ frame_hash (demo_vertex ∷ []) (7 ∷ 2 ∷ []))
    × (h'.verts ≡ bytes)
    × (h'.commands ≡ 7 ∷ 2 ∷ [])
    × (h'.rendered ≡ true)
host_render-frame_hash_example =
    host_render-frame_hash (demo_vertex ∷ []) (7 ∷ 2 ∷ []) blank_host
      (omega arith, (omega arith, tt))
