-- ===== src/Femtovg/Guest/Picture.antt =====
-- What a frame paints: the flat display list on a canvas with a stack, against the tree.
use wasm_benchmark.Base.{
  ◌≡◌, refl, ap, sym, ◌∙◌, ℕ, List, [], ◌∷◌, ◌++◌, Bool, true, false, Option, none, some,
  if◌then◌else◌,
}
use mathlib.Core.List.{append_assoc, append-nil}
use wasm_benchmark.Femtovg.Guest.Tree.{
  Library, PathNode, ClipPath, GroupHead, Nodes, end, group_node, path_node, other_node,
}
use wasm_benchmark.Femtovg.Guest.Paths.{convert_path}
use wasm_benchmark.Femtovg.Guest.Walk.{
  Item, restore, Scene, fill_of, stroke_of, and_then, drawn, path_items, clip_geometry, clip_items,
  restore_items, walk_nodes, load_tree,
}
use wasm_benchmark.Femtovg.Guest.Draw.{items_calls, fit, draw_frame, restore_call}
use wasm_benchmark.Femtovg.Guest.Entries.{items_of, Adds, in_group-Adds, walk_nodes-Adds}
use wasm_benchmark.Femtovg.Guest.Canvas.{
  State, Ink, filled, stroked, blank, moved, shifted, scaled, clipped, replay, replay-append,
  items_calls-append,
}

module _ {P Q F : Type 0} (st : State F P) (out : P) where
  abbrev pub fill_inks : Option Q → List (State F P × Ink P Q)
  fill_inks none = []
  fill_inks (some q) = (st, filled out q) ∷ []

  abbrev pub stroke_inks : Option Q → List (State F P × Ink P Q)
  stroke_inks none = []
  stroke_inks (some q) = (st, stroked out q) ∷ []

module _ {F T C P Q : Type 0} (lib : Library F T C P Q) where
  -- The state inside a group: its clip is in force too.
  abbrev pub within : T → Option (ClipPath F T) → State F P → State F P
  within owner none st = st
  within owner (some cp) st = let (out, rule, n) = clip_geometry lib cp owner in clipped out rule st

  abbrev pub path_inks : F → PathNode F T → State F P → List (State F P × Ink P Q)
  path_inks opacity p st =
      let out = (convert_path lib p.segments p.abs_transform).0 in
      if p.is_visible
      then fill_inks st out (and_then lib p.fill (fill_of lib p opacity))
        ++ stroke_inks st out (and_then lib p.stroke (stroke_of lib p opacity))
      else []

  -- What the tree shows: each visible path is filled and then stroked, inside the clips of its
  -- groups and at the product of their opacities.
  unfoldable pub picture : F → Nodes F T → State F P → List (State F P × Ink P Q)
  picture opacity end st = []
  picture opacity (group_node head children rest) st =
      picture (lib.mul opacity head.opacity) children (within head.abs_transform head.clip_path st)
      ++ picture opacity rest st
  picture opacity (path_node p rest) st = path_inks opacity p st ++ picture opacity rest st
  picture opacity (other_node rest) st = picture opacity rest st

  -- Calls that leave the state and the kept ones as they were, and paint what `inks` says.
  abbrev Paints : List (Item P Q) → (State F P → List (State F P × Ink P Q)) → Type 0
  Paints items inks =
      (st : State F P) (kept : List (State F P))
      → replay {C = C} (items_calls items) st kept ≡ (inks st, st, kept)

  append-Paints :
      (xs ys : List (Item P Q)) (f g : State F P → List (State F P × Ink P Q))
      → Paints xs f
      → Paints ys g
      → Paints (xs ++ ys) (λ st. f st ++ g st)
  append-Paints xs ys f g h k st kept =
      rw
        (
          items_calls-append {F = F} {C = C} xs ys,
          replay-append (items_calls {F = F} {C = C} xs) (items_calls ys) st kept,
          h st kept,
          k st kept,
        )
        refl

  shown : Bool → List (Item P Q) → ℕ → List (Item P Q) × ℕ
  shown v items n = if v then (items, n) else ([], 0)

  path_items-Paints :
      (opacity : F) (p : PathNode F T) → Paints (path_items lib opacity p).0 (path_inks opacity p)
  unfolding path_items items_calls replay shown
  path_items-Paints opacity p st kept =
      by_parts p.is_visible (and_then lib p.fill (fill_of lib p opacity))
        (and_then lib p.stroke (stroke_of lib p opacity))
    where
      by_parts :
          (v : Bool) (fill stroke : Option Q)
          → let out = (convert_path lib p.segments p.abs_transform).0 in
            let n = (convert_path lib p.segments p.abs_transform).1 in
            replay {C = C} (items_calls (shown v (drawn lib out fill stroke) n).0) st kept
            ≡ ((if v then fill_inks st out fill ++ stroke_inks st out stroke else []), st, kept)
      by_parts false fill stroke = refl
      by_parts true none none = refl
      by_parts true none (some stroke) = refl
      by_parts true (some fill) none = refl
      by_parts true (some fill) (some stroke) = refl

  -- A group: its clip, what its children paint, and the way back.
  group-Paints :
      (owner : T) (cp : Option (ClipPath F T)) (items : List (Item P Q))
      (f : State F P → List (State F P × Ink P Q))
      → Paints items f
      → Paints
          ((clip_items lib owner cp).0 ++ (items ++ restore_items lib cp))
          (λ st. f (within owner cp st))
  unfolding clip_items replay items_calls
  group-Paints owner none items f h st kept = rw (append-nil items) (h st kept)
  group-Paints owner (some cp) items f h st kept =
      rw
        (
          items_calls-append {F = F} {C = C} items (restore ∷ []),
          replay-append (items_calls {F = F} {C = C} items) (items_calls (restore ∷ []))
              (within owner (some cp) st) (st ∷ kept),
          h (within owner (some cp) st) (st ∷ kept),
        )
        (ap (λ inks. (inks, st, kept)) (append-nil (f (within owner (some cp) st))))

  items_of-Paints :
      (opacity : F) (nodes : Nodes F T)
      → Paints (items_of lib opacity nodes) (picture opacity nodes)
  unfolding items_of picture items_calls replay
  items_of-Paints opacity end st kept = refl
  items_of-Paints opacity (group_node head children rest) st kept =
      let o = lib.mul opacity head.opacity in
      let opened = (clip_items lib head.abs_transform head.clip_path).0 in
      let regroup : opened
            ++ (items_of lib o children
                ++ (restore_items lib head.clip_path ++ items_of lib opacity rest))
          ≡ (opened ++ (items_of lib o children ++ restore_items lib head.clip_path))
            ++ items_of lib opacity rest =
        simp append_assoc in
      rw regroup (
        append-Paints (opened ++ (items_of lib o children ++ restore_items lib head.clip_path))
          (items_of lib opacity rest)
          (λ st. picture o children (within head.abs_transform head.clip_path st))
          (picture opacity rest)
          (group-Paints head.abs_transform head.clip_path (items_of lib o children)
            (picture o children) (items_of-Paints o children))
          (items_of-Paints opacity rest) st kept)
  items_of-Paints opacity (path_node p rest) st kept =
      append-Paints (path_items lib opacity p).0 (items_of lib opacity rest) (path_inks opacity p)
        (picture opacity rest) (path_items-Paints opacity p) (items_of-Paints opacity rest) st kept
  items_of-Paints opacity (other_node rest) st kept = items_of-Paints opacity rest st kept

  -- The state in which a frame's scene is painted: at its center, at the frame's zoom.
  abbrev pub placed : ℕ → ℕ → F → F → ℕ → ℕ → State F P
  placed w h width height index count =
      let scene : Scene F P Q = record {
        items = [];
        width = width;
        height = height;
        segments = 0;
      } in
      let s = fit lib w h scene index count in
      moved (shifted (lib.mul (lib.neg width) lib.half) (lib.mul (lib.neg height) lib.half)) (
        moved (scaled s s) (
          moved (shifted (lib.mul (lib.of_u32 w) lib.half) (lib.mul (lib.of_u32 h) lib.half))
            blank))

  frame-Paints :
      (w h index count : ℕ) (width height : F) (scene : Scene F P Q) (items : List (Item P Q))
      (f : State F P → List (State F P × Ink P Q))
      → Adds lib (record { items = []; width = width; height = height; segments = 0 }) scene items
      → Paints items f
      → (st : State F P) (kept : List (State F P))
      → replay (draw_frame lib w h scene index count) st kept
        ≡ (f (placed w h width height index count), blank, kept)
  unfolding draw_frame replay
  frame-Paints w h index count width height scene items f adds paints st kept =
      let place = placed w h width height index count in
      rw
        (
          adds.added,
          adds.same_width,
          adds.same_height,
          replay-append (items_calls {F = F} {C = C} items) (restore_call ∷ []) place
              (blank ∷ kept),
          paints place (blank ∷ kept),
        )
        (ap (λ inks. (inks, blank, kept)) (append-nil (f place)))

  -- Whatever the canvas held and kept, the frame's calls paint exactly the picture of the tree: each
  -- visible path, filled and then stroked, inside the clips of its groups and no other, in the
  -- frame's place. They leave a blank state and the kept states as they were.
  pub draw_frame-picture :
      (w h index count : ℕ) (width height : F) (root : GroupHead F T) (children : Nodes F T)
      (st : State F P) (kept : List (State F P))
      → replay (draw_frame lib w h (load_tree lib width height root children) index count) st kept
        ≡ (
          picture
              (lib.of_u32 1)
              (group_node root children end)
              (placed w h width height index count),
          blank,
          kept,
        )
  unfolding load_tree picture
  draw_frame-picture w h index count width height root children st kept =
      let o = lib.mul (lib.of_u32 1) root.opacity in
      let scene : Scene F P Q = record {
        items = [];
        width = width;
        height = height;
        segments = 0;
      } in
      frame-Paints w h index count width height (load_tree lib width height root children)
        ((clip_items lib root.abs_transform root.clip_path).0
          ++ (items_of lib o children ++ restore_items lib root.clip_path))
        (λ st. picture o children (within root.abs_transform root.clip_path st))
        (in_group-Adds lib root (lib.of_u32 1) (λ o. walk_nodes lib o children)
          (items_of lib o children) scene (walk_nodes-Adds lib o children))
        (group-Paints root.abs_transform root.clip_path (items_of lib o children)
          (picture o children) (items_of-Paints o children))
        st kept
      ∙ ap (λ inks. (inks, blank, kept))
          (sym (
            append-nil (
              picture o children
                (within root.abs_transform root.clip_path (placed w h width height index count)))))
