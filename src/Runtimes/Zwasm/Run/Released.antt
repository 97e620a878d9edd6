-- ===== src/Runtimes/Zwasm/Run/Released.antt =====
-- The objects of the zwasm runners, from the first to the report.
use wasm_benchmark.Base.{ℕ, suc, ◌≡◌}
use Prim.Native.String.{String}
use text.Mathlib.Text.{◌==◌ as str_eq}
use wasm_benchmark.Harness.Window.{Window}
use wasm_benchmark.Runtimes.Action.{Result, World, Action}
use wasm_benchmark.Runtimes.Kept.{EndsIn}
use wasm_benchmark.Runtimes.Keeps.{Keeps}
use wasm_benchmark.Runtimes.Zwasm.{Zwasm, ZwasmError, Cell}
use wasm_benchmark.Runtimes.Zwasm.Owned.{Holds, Ready}
use wasm_benchmark.Runtimes.Zwasm.Run.{Func}

module _ {S : Type 0} (lib : Zwasm S) (clock : S → ℕ × S) (e st m : ℕ) where
  abbrev Keeping : {E A : Type 0} → Action (Cell S) E A → Type 0
  Keeping act = (w : World (Cell S)) → Holds e st m w → Holds e st m (act w).1

  -- A function that was looked up is one of the instance that is alive.
  abbrev FuncEnds : ℕ → Result ZwasmError Func × World (Cell S) → Type 0
  FuncEnds i = EndsIn (λ f w. (f.of_instance ≡ suc i) × Ready e st m i w) (λ w. Ready e st m i w)
