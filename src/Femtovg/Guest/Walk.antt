-- ===== src/Femtovg/Guest/Walk.antt =====
-- The display list of a scene in workloads-rs-cargo/femtovg-guest/src/lib.rs: load_scene, walk and
-- clip_geometry over usvg's tree.
use wasm_benchmark.Base.{
  ℕ, ◌+◌, List, [], ◌∷◌, ◌++◌, map, Bool, true, false, Option, none, some, if◌then◌else◌,
}
use wasm_benchmark.Femtovg.Guest.Tree.{
  Library, FillRule, non_zero, Fill, Stroke, PathNode, ClipPath, GroupHead, Nodes, end, group_node,
  path_node, other_node,
}
use wasm_benchmark.Femtovg.Guest.Paths.{
  append_path, convert_path, transform_scale, paint, join_of, rule_after,
}

pub data Item (P Q : Type 0) : Type 0 where
  draw : P → Option Q → Option Q → Item P Q
  clip : P → FillRule → Item P Q
  restore : Item P Q

pub record Scene (F P Q : Type 0) : Type 0 where
  pub items : List (Item P Q)
  pub width : F
  pub height : F
  pub segments : ℕ

abbrev pub is_draw : {P Q : Type 0} → Item P Q → Bool
is_draw (draw path fill stroke) = true
is_draw (clip path rule) = false
is_draw restore = false

unfoldable pub count_draws : {P Q : Type 0} → List (Item P Q) → ℕ
count_draws [] = 0
count_draws (item ∷ items) = (if is_draw item then 1 else 0) + count_draws items

unfoldable pub paths : {F P Q : Type 0} → Scene F P Q → ℕ
paths scene = count_draws scene.items

module _ {F T C P Q : Type 0} (lib : Library F T C P Q) where
  abbrev pub fill_of : PathNode F T → F → Fill F T → Option Q
  fill_of p opacity f = elim (paint lib f.paint (lib.mul f.opacity opacity) p.abs_transform) [
    | none ↦ none
    | some q ↦ some (lib.with_fill_rule f.rule (lib.with_anti_alias true q))
  ]

  abbrev pub dashed : F → Stroke F T → Option (List F) → Q → Q
  dashed scale s none q = q
  dashed scale s (some dash) q =
      lib.set_line_dash_offset (lib.mul s.dashoffset scale)
        (lib.set_line_dash (map (λ d. lib.mul d scale) dash) q)

  abbrev pub stroke_with : F → Stroke F T → Q → Q
  stroke_with scale s q = dashed scale s s.dasharray (
      lib.set_miter_limit s.miterlimit (
        lib.set_line_join (join_of s.linejoin) (
          lib.set_line_cap s.linecap
            (lib.set_line_width (lib.mul s.width scale) (lib.with_anti_alias true q)))))

  abbrev pub stroke_of : PathNode F T → F → Stroke F T → Option Q
  stroke_of p opacity s = elim (paint lib s.paint (lib.mul s.opacity opacity) p.abs_transform) [
    | none ↦ none
    | some q ↦ some (stroke_with (transform_scale lib p.abs_transform) s q)
  ]

  abbrev pub and_then : {A B : Type 0} → Option A → (A → Option B) → Option B
  and_then none f = none
  and_then (some a) f = f a

  -- A path's entry, if it has a fill or a stroke.
  abbrev pub drawn : P → Option Q → Option Q → List (Item P Q)
  drawn out none none = []
  drawn out none (some stroke) = draw out none (some stroke) ∷ []
  drawn out (some fill) stroke = draw out (some fill) stroke ∷ []

  abbrev pub push : List (Item P Q) → ℕ → Scene F P Q → Scene F P Q
  push items n scene = record scene { items = scene.items ++ items; segments = scene.segments + n }

  unfoldable pub path_items : F → PathNode F T → List (Item P Q) × ℕ
  path_items opacity p =
      let (out, n) = convert_path lib p.segments p.abs_transform in
      if p.is_visible
      then (
        drawn out (and_then p.fill (fill_of p opacity)) (and_then p.stroke (stroke_of p opacity)),
        n,
      )
      else ([], 0)

  -- The path so far, its rule and the segments, over the children of a clip path.
  unfoldable pub clip_loop : T → List (Option (PathNode F T)) → P → FillRule → P × FillRule × ℕ
  clip_loop base [] out rule = (out, rule, 0)
  clip_loop base (none ∷ nodes) out rule = clip_loop base nodes out rule
  clip_loop base (some p ∷ nodes) out rule =
      let (out', n) = append_path lib out p.segments (lib.pre_concat base p.abs_transform) in
      let (out'', rule', m) = clip_loop base nodes out' (rule_after p.fill rule) in
      (out'', rule', n + m)

  unfoldable pub clip_geometry : ClipPath F T → T → P × FillRule × ℕ
  clip_geometry cp owner =
      clip_loop (lib.pre_concat owner cp.transform) cp.children lib.new_path non_zero

  -- A group's clip, and what undoes it.
  unfoldable pub clip_items : T → Option (ClipPath F T) → List (Item P Q) × ℕ
  clip_items owner none = ([], 0)
  clip_items owner (some cp) =
      let (out, rule, n) = clip_geometry cp owner in (clip out rule ∷ [], n)

  abbrev pub restore_items : Option (ClipPath F T) → List (Item P Q)
  restore_items none = []
  restore_items (some cp) = restore ∷ []

  -- A group around what its children do.
  abbrev pub in_group :
      GroupHead F T → F → (F → Scene F P Q → Scene F P Q) → Scene F P Q → Scene F P Q
  in_group head parent_opacity children scene =
      let opened = clip_items head.abs_transform head.clip_path in
      push (restore_items head.clip_path) 0
        (children (lib.mul parent_opacity head.opacity) (push opened.0 opened.1 scene))

  unfoldable pub walk_nodes : F → Nodes F T → Scene F P Q → Scene F P Q
  walk_nodes opacity end scene = scene
  walk_nodes opacity (group_node head children rest) scene =
      walk_nodes opacity rest (in_group head opacity (λ o. walk_nodes o children) scene)
  walk_nodes opacity (path_node p rest) scene =
      let added = path_items opacity p in walk_nodes opacity rest (push added.0 added.1 scene)
  walk_nodes opacity (other_node rest) scene = walk_nodes opacity rest scene

  unfoldable pub walk : GroupHead F T → Nodes F T → F → Scene F P Q → Scene F P Q
  walk head children parent_opacity = in_group head parent_opacity (λ o. walk_nodes o children)

  -- `load_scene` once usvg has a tree, of which the size and the root are read.
  unfoldable pub load_tree : F → F → GroupHead F T → Nodes F T → Scene F P Q
  unfolding walk
  load_tree width height root children =
      walk root children (lib.of_u32 1)
        (record { items = []; width = width; height = height; segments = 0 })
