-- ===== src/Runtimes/Wasmedge/Released.antt =====
-- The executor-level runners of WasmEdge from the configuration to the report.
use wasm_benchmark.Base.{ℕ, List, [], ◌∷◌, Bool, Option}
use wasm_benchmark.Harness.Window.{Window, After, RunReport}
use wasm_benchmark.Runtimes.Trace.{Handle, configure, loader, validator, executor, store}
use wasm_benchmark.Runtimes.Action.{Action, handle, Ending}
use wasm_benchmark.Runtimes.Keeps.{Keeps}
use wasm_benchmark.Runtimes.Zwasm.Owned.{object}
use wasm_benchmark.Runtimes.Wasmedge.{Wasmedge, WasmedgeError, if_porf, parsed_samples}

-- The objects of the four pointers over the configuration.
abbrev stack : ℕ → ℕ → ℕ → ℕ → ℕ → List Handle
stack conf l v ex st =
    object store st
      (object executor ex (object validator v (object loader l (handle configure conf ∷ []))))

module _ {S : Type 0} (lib : Wasmedge S) (clock : S → ℕ × S) (env : Option ℕ) (window : Window)
    (after : After) (bytes name params : List ℕ) (n index : ℕ) (porf : Bool) where
  abbrev run_in : ℕ → ℕ → ℕ → ℕ → Action S (Ending WasmedgeError) RunReport
  run_in l v ex st =
      if_porf lib clock porf ex st
        (parsed_samples lib clock env window after l v ex st bytes name params n index)
