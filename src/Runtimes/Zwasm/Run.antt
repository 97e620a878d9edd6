-- ===== src/Runtimes/Zwasm/Run.antt =====
-- The runners of crates/benchmark-core/src/zwasm.rs, on a struct `Loaded` that is dropped at the end.
pub mod Released
use wasm_benchmark.Base.{
  ℕ, zero, suc, ◌%◌, ◌^◌, List, [], ◌∷◌, Bool, true, false, Option, none, some, get_or, get_elem?,
  ◌++◌, replicate, map, if◌then◌else◌,
}
use Prim.Native.String.{String}
use text.Mathlib.Text.{◌==◌ as str_eq}
use wasm_benchmark.Harness.Window.{Window, After, RunReport}
use wasm_benchmark.Runtimes.Trace.{Handle, instance, exports, trap, opened, used}
use wasm_benchmark.Runtimes.Action.{
  Result, done, raised, Ending, own, World, Action, handle, pure, raise, invoke, note, ◌>>=◌, ◌>>◌,
  clocked, outside, measuring_calls, measuring_samples,
}
use wasm_benchmark.Runtimes.Thread.{Joined, run_on_thread}
use wasm_benchmark.Runtimes.Zwasm.{
  not_null, Val, HostImport, Zwasm, Loaded, ZwasmError, call_trapped, not_found, not_a_function,
  Cell, on_state, get_loaded, drop_loaded, release_instance, trap_text, instantiate, new_loaded,
}

abbrev pub i32_value : ℕ → Val
i32_value v = record { kind = 0; of = v % 2 ^ 32 }

abbrev pub blank : Val
blank = record { kind = 0; of = 0 }

-- `r[i].of as u32 as i32`
abbrev pub i32_of : Val → ℕ
i32_of v = v.of % 2 ^ 32

-- The print stub of Porffor has the callback 1; `WASM_F64` is 3.
abbrev pub print_import : HostImport
print_import = record { params = 3 ∷ []; results = []; callback = 1 }

-- `position` of a name, counted from n.
abbrev pub position_from : ℕ → String → List String → Option ℕ
position_from n name [] = none
position_from n name (k ∷ names) =
    let rest = position_from (suc n) name names in if str_eq k name then some n else rest

-- A function, with the instance that it was found in.
pub record Func : Type 0 where
  pub pointer : ℕ
  pub of_instance : ℕ

module _ {S : Type 0} (lib : Zwasm S) where
  abbrev pub as_function : String → ℕ → ℕ → Action (Cell S) ZwasmError Func
  as_function name inst zero = raise (not_a_function name)
  as_function name inst (suc f) = pure (record { pointer = suc f; of_instance = inst })

  -- `*self.exports.data.add(idx)`: a read beyond the vector is a use of the object of NULL, which
  -- is never alive.
  abbrev pub read_extern : Option ℕ → Action (Cell S) ZwasmError ℕ
  read_extern none = note (used (handle exports zero ∷ [])) >> pure 0
  read_extern (some x) = pure x

  -- `export`, and `func` on what it finds.
  abbrev pub exported : String → Option ℕ → Action (Cell S) ZwasmError Func
  exported name none = raise (not_found name)
  exported name (some i) = get_loaded >>= λ l.
      note (
        used
          (not_null exports l.export_vec.data_pointer ++ (handle instance l.instance_pointer ∷ [])))
      >> (read_extern (get_elem? l.export_vec.externs i) >>= λ x.
          invoke (handle instance l.instance_pointer ∷ []) (on_state (lib.extern_as_func x))
          >>= λ f. as_function name l.instance_pointer f)

  unfoldable pub func : String → Action (Cell S) ZwasmError Func
  func name = get_loaded >>= λ l. exported name (position_from 0 name l.export_names)

  abbrev pub unless_trap : ℕ → List Val → Action (Cell S) ZwasmError (List Val)
  unless_trap zero out = pure out
  unless_trap (suc t) out =
      note (opened (handle trap (suc t)))
      >> (trap_text lib (suc t) >>= λ text. raise (call_trapped text))

  unfoldable pub call_raw : Func → List Val → ℕ → Action (Cell S) ZwasmError (List Val)
  call_raw f args n_results =
      invoke (handle instance f.of_instance ∷ [])
        (on_state (lib.func_call f.pointer args (replicate n_results blank)))
      >>= λ answer. unless_trap answer.0 answer.1

module _ {S : Type 0} (lib : Zwasm S) (clock : S → ℕ × S) where
  -- The measured call of the runner, and the sample of the two others: the old instance is
  -- released, and then one is made and called.
  unfoldable pub call_value : Func → List Val → ℕ → ℕ → Action (Cell S) ZwasmError (ℕ × ℕ)
  call_value f args n_results index = call_raw lib f args n_results >>= λ r.
      clocked (on_state clock) (i32_of (get_or r index (i32_value 0)))

  unfoldable pub instance_sample : String → List Val → ℕ → ℕ → Action (Cell S) ZwasmError (ℕ × ℕ)
  instance_sample name args n_results index = release_instance lib >>= λ _.
      instantiate lib >>= λ _. func lib name >>= λ f. call_value f args n_results index

  -- The struct is dropped when the closure ends, after `new` made it.
  abbrev pub scoped :
      Result ZwasmError Unit × World (Cell S)
      → Action (Cell S) (Ending ZwasmError) RunReport
      → Result (Ending ZwasmError) RunReport × World (Cell S)
  scoped (raised e, w) body = (raised (own e), w)
  scoped (done u, w) body = let (r, w') = body w in (r, (drop_loaded lib w').1)

  unfoldable pub with_loaded :
      List ℕ
      → List HostImport
      → Action (Cell S) (Ending ZwasmError) RunReport
      → Action (Cell S) (Ending ZwasmError) RunReport
  with_loaded wasm_bytes imports body w = scoped (new_loaded lib wasm_bytes imports w) body

  module _ (spawned : Bool) (env : Option ℕ) (window : Window) (after : After) where
    unfoldable pub run_workload_zwasm_iters :
        List ℕ → String → ℕ → ℕ → Action (Cell S) (Joined ZwasmError) RunReport
    run_workload_zwasm_iters wasm_bytes name arg iters = run_on_thread spawned (
        with_loaded wasm_bytes [] (
          (λ w. outside (func lib name w)) >>= λ f.
          measuring_calls (on_state clock) env window after iters
            (call_value f (i32_value arg ∷ []) 1 0)))

    unfoldable pub run_workload_zwasm :
        List ℕ → String → ℕ → Action (Cell S) (Joined ZwasmError) RunReport
    run_workload_zwasm wasm_bytes name arg = run_workload_zwasm_iters wasm_bytes name arg 0

    unfoldable pub run_instantiate_each_zwasm :
        List ℕ → String → ℕ → Action (Cell S) (Joined ZwasmError) RunReport
    run_instantiate_each_zwasm wasm_bytes name arg = run_on_thread spawned (
        with_loaded wasm_bytes [] (
          measuring_samples (on_state clock) env window after
            (instance_sample name (i32_value arg ∷ []) 1 0)))

    unfoldable pub run_graphql_validation_porf_zwasm :
        List ℕ → Action (Cell S) (Joined ZwasmError) RunReport
    run_graphql_validation_porf_zwasm wasm_bytes = run_on_thread spawned (
        with_loaded wasm_bytes (print_import ∷ [])
          (measuring_samples (on_state clock) env window after (instance_sample "m" [] 2 1)))
