-- ===== src/Femtovg/Guest/Canvas.antt =====
-- A canvas with a stack of states, as far as the guest's calls go, and what it paints.
use wasm_benchmark.Base.{◌≡◌, refl, List, [], ◌∷◌, ◌++◌}
use mathlib.Core.List.{append_assoc}
use wasm_benchmark.Femtovg.Guest.Tree.{FillRule}
use wasm_benchmark.Femtovg.Guest.Walk.{Item}
use wasm_benchmark.Femtovg.Guest.Draw.{
  Call, reset, save, restore_call, clear_rect, translate, scale, fill_path, stroke_path, clip_path,
  items_calls,
}

pub data Move (F : Type 0) : Type 0 where
  shifted scaled : F → F → Move F

-- The state of a canvas: the moves and the clips in force, the latest last.
pub record State (F P : Type 0) : Type 0 where
  pub moves : List (Move F)
  pub clips : List (P × FillRule)

-- What is painted.
pub data Ink (P Q : Type 0) : Type 0 where
  filled stroked : P → Q → Ink P Q

module _ {F P : Type 0} where
  abbrev pub blank : State F P
  blank = record { moves = []; clips = [] }

  abbrev pub moved : Move F → State F P → State F P
  moved m st = record st { moves = st.moves ++ m ∷ [] }

  abbrev pub clipped : P → FillRule → State F P → State F P
  clipped out rule st = record st { clips = st.clips ++ (out, rule) ∷ [] }

module _ {F C P Q : Type 0} where
  -- `save` keeps the state, `restore` brings the latest one back, `reset` keeps what was saved.
  abbrev pub state_after : Call F C P Q → State F P → List (State F P) → State F P
  state_after reset st kept = blank
  state_after save st kept = st
  state_after restore_call st [] = blank
  state_after restore_call st (latest ∷ kept) = latest
  state_after (clear_rect x y w h c) st kept = st
  state_after (translate x y) st kept = moved (shifted x y) st
  state_after (scale x y) st kept = moved (scaled x y) st
  state_after (fill_path out q) st kept = st
  state_after (stroke_path out q) st kept = st
  state_after (clip_path out rule) st kept = clipped out rule st

  abbrev pub kept_after : Call F C P Q → State F P → List (State F P) → List (State F P)
  kept_after save st kept = st ∷ kept
  kept_after restore_call st [] = []
  kept_after restore_call st (latest ∷ kept) = kept
  kept_after reset st kept = kept
  kept_after (clear_rect x y w h c) st kept = kept
  kept_after (translate x y) st kept = kept
  kept_after (scale x y) st kept = kept
  kept_after (fill_path out q) st kept = kept
  kept_after (stroke_path out q) st kept = kept
  kept_after (clip_path out rule) st kept = kept

  abbrev pub inks_of : Call F C P Q → State F P → List (State F P × Ink P Q)
  inks_of (fill_path out q) st = (st, filled out q) ∷ []
  inks_of (stroke_path out q) st = (st, stroked out q) ∷ []
  inks_of reset st = []
  inks_of save st = []
  inks_of restore_call st = []
  inks_of (clear_rect x y w h c) st = []
  inks_of (translate x y) st = []
  inks_of (scale x y) st = []
  inks_of (clip_path out rule) st = []

  -- What the calls paint, the state, and the states that are kept.
  unfoldable pub replay :
      List (Call F C P Q)
      → State F P
      → List (State F P)
      → List (State F P × Ink P Q) × State F P × List (State F P)
  replay [] st kept = ([], st, kept)
  replay (call ∷ calls) st kept =
      let (inks, st', kept') = replay calls (state_after call st kept) (kept_after call st kept) in
      (inks_of call st ++ inks, st', kept')

  abbrev pub followed :
      List (State F P × Ink P Q) × State F P × List (State F P)
      → List (Call F C P Q)
      → List (State F P × Ink P Q) × State F P × List (State F P)
  followed (inks, st, kept) calls =
      let (inks', st', kept') = replay calls st kept in (inks ++ inks', st', kept')

  pub replay-append :
      (xs ys : List (Call F C P Q)) (st : State F P) (kept : List (State F P))
      → replay (xs ++ ys) st kept ≡ followed (replay xs st kept) ys
  unfolding replay
  replay-append [] ys st kept = refl
  replay-append (x ∷ xs) ys st kept =
      simp (replay-append xs ys (state_after x st kept) (kept_after x st kept), append_assoc)

  pub items_calls-append :
      (xs ys : List (Item P Q))
      → items_calls {F = F} {C = C} (xs ++ ys) ≡ items_calls xs ++ items_calls ys
  unfolding items_calls
  items_calls-append [] ys = refl
  items_calls-append (x ∷ xs) ys = simp (items_calls-append xs ys, append_assoc)
