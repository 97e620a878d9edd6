-- ===== src/Harness/Cases.antt =====
-- `run_case` of crates/benchmark-core/src/cases.rs and the dispatch functions of lib.rs that it
-- calls. The adapters, which drive a runtime over its C library, are parameters: state-passing
-- functions, so that it can be said whether one was called. An error keeps what its text says.
pub mod Checked
use wasm_benchmark.Base.{ℕ, List, [], ◌∷◌, Option, some, none, ◌&&◌, if◌then◌else◌, ◌==◌}
use Prim.Native.String.{String}
use text.Mathlib.Text.{◌==◌ as str_eq}
use wasm_benchmark.Harness.Window.{RunReport}
use wasm_benchmark.Harness.Table.{
  Wasm, Shape, i32_to_i32, porffor_main, sqlite3_shape, instantiate_each, Case,
}

pub data Runtime : Type 0 where
  pulley wamr wasm3 wasm_edge zwasm wasmz tinywasm : Runtime

-- `rt as u32`
abbrev pub runtime_id : Runtime → ℕ
runtime_id pulley = 0
runtime_id wamr = 1
runtime_id wasm3 = 2
runtime_id wasm_edge = 3
runtime_id zwasm = 4
runtime_id wasmz = 5
runtime_id tinywasm = 6

abbrev pub runtimes : List (Runtime × String × String)
runtimes =
    (pulley, "pulley", "[Pulley]")
    ∷ (wamr, "wamr", "[ WAMR ]")
    ∷ (wasm3, "wasm3", "[wasm3 ]")
    ∷ (wasm_edge, "wasmedge", "[WE    ]")
    ∷ (zwasm, "zwasm", "[zwasm ]")
    ∷ (wasmz, "wasmz", "[wasmz ]")
    ∷ (tinywasm, "tinywasm", "[tinywm]")
    ∷ []

abbrev pub token_in : List (Runtime × String × String) → Runtime → String
token_in [] rt = "?"
token_in ((r, token, _) ∷ rest) rt =
    if runtime_id r == runtime_id rt then token else token_in rest rt

abbrev pub runtime_token : Runtime → String
runtime_token rt = token_in runtimes rt

abbrev pub known_crashes : List (Runtime × String × String)
known_crashes =
    (wasmz, "sieve", "wasmz v0.1.4 segfaults on this module's v128 ops (the scalar build runs)")
    ∷ (wasmz, "crc32", "wasmz v0.1.4 segfaults on this module's v128 ops (the scalar build runs)")
    ∷ (
      zwasm, "gc_trees",
      "zwasm v2.7.0 never reclaims GC structs and grows its GC heap far faster than the allocation rate (124 MB for 31K 24-byte structs); the process segfaults at ~2.3 GB",
    )
    ∷ []

abbrev pub reason_in : List (Runtime × String × String) → Runtime → String → Option String
reason_in [] rt case_id = none
reason_in ((r, id, reason) ∷ rest) rt case_id =
    if (runtime_id r == runtime_id rt) && str_eq id case_id
    then some reason
    else reason_in rest rt case_id

unfoldable pub known_crash : Runtime → String → Option String
known_crash rt case_id = reason_in known_crashes rt case_id

-- The errors, each with what its text carries; `adapter_error` is any that an adapter gives.
pub data RunError (E : Type 0) : Type 0 where
  not_run : String → RunError E
  no_import_shim : RunError E
  wrong_result silently_miscompiled : ℕ → ℕ → RunError E
  adapter_error : E → RunError E
  unknown_runtime : ℕ → RunError E
  null_case_id : RunError E
  unknown_case : String → RunError E

pub data RunResult (E A : Type 0) : Type 0 where
  ok : A → RunResult E A
  err : RunError E → RunResult E A

-- One runtime's module: `run_workload_<rt>` and `run_instantiate_each_<rt>`.
pub record Adapter (S E : Type 0) : Type 0 where
  pub run_workload : Wasm → String → ℕ → S → RunResult E RunReport × S
  pub run_instantiate_each : Wasm → String → ℕ → S → RunResult E RunReport × S

pub record Adapters (S E : Type 0) : Type 0 where
  pub on_pulley : Adapter S E
  pub on_wamr : Adapter S E
  pub on_wasm3 : Adapter S E
  pub on_wasm_edge : Adapter S E
  pub on_zwasm : Adapter S E
  pub on_wasmz : Adapter S E
  pub on_tinywasm : Adapter S E
  pub run_graphql_validation_as : Wasm → S → RunResult E RunReport × S
  pub run_graphql_validation_porf : Wasm → S → RunResult E RunReport × S
  pub run_graphql_validation_porf_wamr : Wasm → S → RunResult E RunReport × S
  pub run_graphql_validation_porf_wasmedge : Wasm → S → RunResult E RunReport × S
  pub run_graphql_validation_porf_zwasm : Wasm → S → RunResult E RunReport × S
  pub run_graphql_validation_porf_wasmz : Wasm → S → RunResult E RunReport × S
  pub run_graphql_validation_porf_tinywasm : Wasm → S → RunResult E RunReport × S
  pub run_sqlite3 : Wasm → S → RunResult E RunReport × S

module _ {S E : Type 0} (adapters : Adapters S E) where
  unfoldable pub run_workload_with : Runtime → Wasm → String → ℕ → S → RunResult E RunReport × S
  run_workload_with pulley wasm func arg s = adapters.on_pulley.run_workload wasm func arg s
  run_workload_with wamr wasm func arg s = adapters.on_wamr.run_workload wasm func arg s
  run_workload_with wasm3 wasm func arg s = adapters.on_wasm3.run_workload wasm func arg s
  run_workload_with wasm_edge wasm func arg s = adapters.on_wasm_edge.run_workload wasm func arg s
  run_workload_with zwasm wasm func arg s = adapters.on_zwasm.run_workload wasm func arg s
  run_workload_with wasmz wasm func arg s = adapters.on_wasmz.run_workload wasm func arg s
  run_workload_with tinywasm wasm func arg s = adapters.on_tinywasm.run_workload wasm func arg s

  unfoldable pub run_instantiate_each_with :
      Runtime → Wasm → String → ℕ → S → RunResult E RunReport × S
  run_instantiate_each_with pulley wasm func arg s =
      adapters.on_pulley.run_instantiate_each wasm func arg s
  run_instantiate_each_with wamr wasm func arg s =
      adapters.on_wamr.run_instantiate_each wasm func arg s
  run_instantiate_each_with wasm3 wasm func arg s =
      adapters.on_wasm3.run_instantiate_each wasm func arg s
  run_instantiate_each_with wasm_edge wasm func arg s =
      adapters.on_wasm_edge.run_instantiate_each wasm func arg s
  run_instantiate_each_with zwasm wasm func arg s =
      adapters.on_zwasm.run_instantiate_each wasm func arg s
  run_instantiate_each_with wasmz wasm func arg s =
      adapters.on_wasmz.run_instantiate_each wasm func arg s
  run_instantiate_each_with tinywasm wasm func arg s =
      adapters.on_tinywasm.run_instantiate_each wasm func arg s

  -- The Porffor runners; wasm3 has none, and gets the plain one.
  unfoldable pub run_porffor : Runtime → Case → S → RunResult E RunReport × S
  run_porffor pulley case s = adapters.run_graphql_validation_porf case.wasm s
  run_porffor wamr case s = adapters.run_graphql_validation_porf_wamr case.wasm s
  run_porffor wasm3 case s = adapters.on_wasm3.run_workload case.wasm case.func case.arg s
  run_porffor wasm_edge case s = adapters.run_graphql_validation_porf_wasmedge case.wasm s
  run_porffor zwasm case s = adapters.run_graphql_validation_porf_zwasm case.wasm s
  run_porffor wasmz case s = adapters.run_graphql_validation_porf_wasmz case.wasm s
  run_porffor tinywasm case s = adapters.run_graphql_validation_porf_tinywasm case.wasm s

  unfoldable pub run_shape : Runtime → Case → Shape → S → RunResult E RunReport × S
  unfolding run_workload_with run_porffor run_instantiate_each_with
  run_shape rt case i32_to_i32 s = run_workload_with rt case.wasm case.func case.arg s
  run_shape rt case porffor_main s = run_porffor rt case s
  run_shape rt case instantiate_each s = run_instantiate_each_with rt case.wasm case.func case.arg s
  run_shape pulley case sqlite3_shape s = adapters.run_sqlite3 case.wasm s
  run_shape _ case sqlite3_shape s = (err no_import_shim, s)

-- `if let Some(exp) = case.expected { if r.result != exp { .. } }`, after the `?`.
unfoldable pub check_result :
    {E : Type 0} → Option ℕ → RunResult E RunReport → RunResult E RunReport
check_result (some exp) (ok r) = if r.result == exp then ok r else err (wrong_result r.result exp)
check_result none (ok r) = ok r
check_result expected (err e) = err e

module _ {S E : Type 0} where
  -- What follows the test of `known_crash`.
  unfoldable pub guarded :
      Option String → (S → RunResult E RunReport × S) → S → RunResult E RunReport × S
  guarded (some reason) run s = (err (not_run reason), s)
  guarded none run s = run s

module _ {S E : Type 0} (adapters : Adapters S E) where
  unfoldable pub run_case : Runtime → Case → S → RunResult E RunReport × S
  unfolding guarded run_shape check_result
  run_case rt case s =
      guarded (known_crash rt case.id)
        (λ s.
          let (r, s') = run_shape adapters rt case case.shape s in
          (check_result case.expected r, s'))
        s
