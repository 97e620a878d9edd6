-- ===== src/Femtovg/Guest/Entries.antt =====
-- What the walk of the tree adds to the display list.
use wasm_benchmark.Base.{◌≡◌, refl, ap, sym, ◌∙◌, List, [], ◌++◌}
use mathlib.Core.List.{append_assoc, append-nil}
use wasm_benchmark.Femtovg.Guest.Tree.{
  Library, GroupHead, Nodes, end, group_node, path_node, other_node,
}
use wasm_benchmark.Femtovg.Guest.Walk.{
  Item, Scene, push, path_items, clip_items, restore_items, in_group, walk_nodes,
}

module _ {F T C P Q : Type 0} (lib : Library F T C P Q) where
  -- The entries that the nodes add to the display list.
  unfoldable pub items_of : F → Nodes F T → List (Item P Q)
  items_of opacity end = []
  items_of opacity (group_node head children rest) =
      (clip_items lib head.abs_transform head.clip_path).0
      ++ (items_of (lib.mul opacity head.opacity) children
          ++ (restore_items lib head.clip_path ++ items_of opacity rest))
  items_of opacity (path_node p rest) = (path_items lib opacity p).0 ++ items_of opacity rest
  items_of opacity (other_node rest) = items_of opacity rest

  -- The display list and the size that `scene` has after them.
  pub record Adds (scene scene' : Scene F P Q) (items : List (Item P Q)) : Type 0 where
    pub added : scene'.items ≡ scene.items ++ items
    pub same_width : scene'.width ≡ scene.width
    pub same_height : scene'.height ≡ scene.height

  pub in_group-Adds :
      (head : GroupHead F T) (parent : F) (children : F → Scene F P Q → Scene F P Q)
      (items : List (Item P Q)) (scene : Scene F P Q)
      → ((s : Scene F P Q) → Adds s (children (lib.mul parent head.opacity) s) items)
      → Adds scene (in_group lib head parent children scene) (
          (clip_items lib head.abs_transform head.clip_path).0
          ++ (items ++ restore_items lib head.clip_path))
  in_group-Adds head parent children items scene h =
      let opened = clip_items lib head.abs_transform head.clip_path in
      let inner = h (push lib opened.0 opened.1 scene) in
      record {
        added = simp (inner.added, append_assoc);
        same_width = inner.same_width;
        same_height = inner.same_height;
      }

  pub walk_nodes-Adds :
      (opacity : F) (nodes : Nodes F T) (scene : Scene F P Q)
      → Adds scene (walk_nodes lib opacity nodes scene) (items_of opacity nodes)
  unfolding walk_nodes items_of
  walk_nodes-Adds opacity end scene = record {
    added = sym (append-nil scene.items);
    same_width = refl;
    same_height = refl;
  }
  walk_nodes-Adds opacity (group_node head children rest) scene =
      let inner =
        in_group-Adds head opacity (λ o. walk_nodes lib o children)
          (items_of (lib.mul opacity head.opacity) children) scene
          (walk_nodes-Adds (lib.mul opacity head.opacity) children) in
      let after =
        walk_nodes-Adds opacity rest
          (in_group lib head opacity (λ o. walk_nodes lib o children) scene) in
      record {
        added =
            after.added
            ∙ ap (λ (l : List (Item P Q)). l ++ items_of opacity rest) inner.added
            ∙ simp append_assoc;
        same_width = after.same_width ∙ inner.same_width;
        same_height = after.same_height ∙ inner.same_height;
      }
  walk_nodes-Adds opacity (path_node p rest) scene =
      let new = path_items lib opacity p in
      let after = walk_nodes-Adds opacity rest (push lib new.0 new.1 scene) in
      record {
        added = after.added ∙ append_assoc scene.items new.0 (items_of opacity rest);
        same_width = after.same_width;
        same_height = after.same_height;
      }
  walk_nodes-Adds opacity (other_node rest) scene = walk_nodes-Adds opacity rest scene
