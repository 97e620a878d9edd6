-- ===== src/Harness/Abi/Agreement.antt =====
-- Each C entry against the entry over the case table.
use wasm_benchmark.Base.{◌≡◌, refl, some, false, arith}
use wasm_benchmark.Harness.Cases.{
  Runtime, pulley, wamr, wasm3, wasm_edge, zwasm, wasmz, tinywasm, runtime_id, Adapters, run_case,
  known_crash, guarded, run_shape, run_workload_with, run_porffor,
}
use wasm_benchmark.Harness.Abi.{BenchReport, run_found, run_id, run_on, bench_run_case}
use wasm_benchmark.Harness.Abi.Entries.{
  Entry, VtableEntry, GraphqlEntry, mono, validation_as, validation_porf, fib, sieve, crc32,
  xmrsplayer, guarded_report,
}
use wasm_benchmark.Harness.Abi.Workloads.{
  case_id, standard_arg, Workload, plain, vtable, graphql, sqlite3, workload_case, workload_arg,
  has_own_runner, bench_run,
}
use wasm_benchmark.Harness.Abi.Shortened.{shortened, checked-check_result, unchecked-check_result}
use wasm_benchmark.Harness.Abi.Pulley.{
  bench_run_pulley, bench_run_vtable_pulley, bench_run_graphql_pulley, bench_run_sqlite3,
}
use wasm_benchmark.Harness.Abi.Wamr.{bench_run_wamr, bench_run_vtable_wamr, bench_run_graphql_wamr}
use wasm_benchmark.Harness.Abi.Wasm3.{
  bench_run_wasm3, bench_run_vtable_wasm3, bench_run_graphql_wasm3,
}
use wasm_benchmark.Harness.Abi.Wasmedge.{
  bench_run_wasmedge, bench_run_vtable_wasmedge, bench_run_graphql_wasmedge,
}
use wasm_benchmark.Harness.Abi.Zwasm.{
  bench_run_zwasm, bench_run_vtable_zwasm, bench_run_graphql_zwasm,
}
use wasm_benchmark.Harness.Abi.Wasmz.{
  bench_run_wasmz, bench_run_vtable_wasmz, bench_run_graphql_wasmz,
}

module _ {S E : Type 0} (adapters : Adapters S E) where
  pulley-agree :
      (e : Entry) (s : S)
      → shortened (bench_run_pulley adapters e (standard_arg e) s)
        ≡ shortened (bench_run_case adapters 0 (some (case_id e)) s)
  unfolding bench_run_pulley bench_run_case run_on run_id run_found run_case known_crash guarded
      run_shape run_workload_with
  pulley-agree fib s = search checked-check_result
  pulley-agree xmrsplayer s = search unchecked-check_result
  pulley-agree e s = search checked-check_result

  pulley-vtable-agree :
      (e : VtableEntry) (s : S)
      → shortened (bench_run_vtable_pulley adapters e s)
        ≡ shortened (bench_run_case adapters 0 (some (workload_case (vtable e))) s)
  unfolding bench_run_vtable_pulley bench_run_case run_on run_id run_found run_case known_crash
      guarded run_shape run_workload_with
  pulley-vtable-agree mono s = search checked-check_result
  pulley-vtable-agree e s = search checked-check_result

  pulley-porf-agree :
      (s : S)
      → shortened (bench_run_graphql_pulley adapters validation_porf s)
        ≡ shortened (bench_run_case adapters 0 (some "graphql_porf") s)
  unfolding bench_run_graphql_pulley bench_run_case run_on run_id run_found run_case known_crash
      guarded run_shape run_workload_with run_porffor
  pulley-porf-agree s = unchecked-check_result _

  pulley-sqlite3-agree :
      (s : S)
      → shortened (bench_run_sqlite3 adapters s)
        ≡ shortened (bench_run_case adapters 0 (some "sqlite3") s)
  unfolding bench_run_sqlite3 bench_run_case run_on run_id run_found run_case known_crash guarded
      run_shape run_workload_with
  pulley-sqlite3-agree s = unchecked-check_result _

  wamr-agree :
      (e : Entry) (s : S)
      → shortened (bench_run_wamr adapters e (standard_arg e) s)
        ≡ shortened (bench_run_case adapters 1 (some (case_id e)) s)
  unfolding bench_run_wamr bench_run_case run_on run_id run_found run_case known_crash guarded
      run_shape run_workload_with
  wamr-agree fib s = search checked-check_result
  wamr-agree xmrsplayer s = search unchecked-check_result
  wamr-agree e s = search checked-check_result

  wamr-vtable-agree :
      (e : VtableEntry) (s : S)
      → shortened (bench_run_vtable_wamr adapters e s)
        ≡ shortened (bench_run_case adapters 1 (some (workload_case (vtable e))) s)
  unfolding bench_run_vtable_wamr bench_run_case run_on run_id run_found run_case known_crash
      guarded run_shape run_workload_with
  wamr-vtable-agree mono s = search checked-check_result
  wamr-vtable-agree e s = search checked-check_result

  wamr-graphql-agree :
      (e : GraphqlEntry) (s : S)
      → shortened (bench_run_graphql_wamr adapters e s)
        ≡ shortened (bench_run_case adapters 1 (some (workload_case (graphql e))) s)
  unfolding bench_run_graphql_wamr bench_run_case run_on run_id run_found run_case known_crash
      guarded run_shape run_workload_with run_porffor
  wamr-graphql-agree validation_as s = search checked-check_result
  wamr-graphql-agree validation_porf s = search unchecked-check_result

  wasm3-agree :
      (e : Entry) (s : S)
      → shortened (bench_run_wasm3 adapters e (standard_arg e) s)
        ≡ shortened (bench_run_case adapters 2 (some (case_id e)) s)
  unfolding bench_run_wasm3 bench_run_case run_on run_id run_found run_case known_crash guarded
      run_shape run_workload_with
  wasm3-agree fib s = search checked-check_result
  wasm3-agree xmrsplayer s = search unchecked-check_result
  wasm3-agree e s = search checked-check_result

  wasm3-vtable-agree :
      (e : VtableEntry) (s : S)
      → shortened (bench_run_vtable_wasm3 adapters e s)
        ≡ shortened (bench_run_case adapters 2 (some (workload_case (vtable e))) s)
  unfolding bench_run_vtable_wasm3 bench_run_case run_on run_id run_found run_case known_crash
      guarded run_shape run_workload_with
  wasm3-vtable-agree mono s = search checked-check_result
  wasm3-vtable-agree e s = search checked-check_result

  wasm3-graphql-agree :
      (e : GraphqlEntry) (s : S)
      → shortened (bench_run_graphql_wasm3 adapters e s)
        ≡ shortened (bench_run_case adapters 2 (some (workload_case (graphql e))) s)
  unfolding bench_run_graphql_wasm3 bench_run_case run_on run_id run_found run_case known_crash
      guarded run_shape run_workload_with run_porffor
  wasm3-graphql-agree validation_as s = search checked-check_result
  wasm3-graphql-agree validation_porf s = search unchecked-check_result

  wasm_edge-agree :
      (e : Entry) (s : S)
      → shortened (bench_run_wasmedge adapters e (standard_arg e) s)
        ≡ shortened (bench_run_case adapters 3 (some (case_id e)) s)
  unfolding bench_run_wasmedge bench_run_case run_on run_id run_found run_case known_crash guarded
      run_shape run_workload_with
  wasm_edge-agree fib s = search checked-check_result
  wasm_edge-agree xmrsplayer s = search unchecked-check_result
  wasm_edge-agree e s = search checked-check_result

  wasm_edge-vtable-agree :
      (e : VtableEntry) (s : S)
      → shortened (bench_run_vtable_wasmedge adapters e s)
        ≡ shortened (bench_run_case adapters 3 (some (workload_case (vtable e))) s)
  unfolding bench_run_vtable_wasmedge bench_run_case run_on run_id run_found run_case known_crash
      guarded run_shape run_workload_with
  wasm_edge-vtable-agree mono s = search checked-check_result
  wasm_edge-vtable-agree e s = search checked-check_result

  wasm_edge-graphql-agree :
      (e : GraphqlEntry) (s : S)
      → shortened (bench_run_graphql_wasmedge adapters e s)
        ≡ shortened (bench_run_case adapters 3 (some (workload_case (graphql e))) s)
  unfolding bench_run_graphql_wasmedge bench_run_case run_on run_id run_found run_case known_crash
      guarded run_shape run_workload_with run_porffor
  wasm_edge-graphql-agree validation_as s = search checked-check_result
  wasm_edge-graphql-agree validation_porf s = search unchecked-check_result

  zwasm-agree :
      (e : Entry) (s : S)
      → shortened (bench_run_zwasm adapters e (standard_arg e) s)
        ≡ shortened (bench_run_case adapters 4 (some (case_id e)) s)
  unfolding bench_run_zwasm bench_run_case run_on run_id run_found run_case known_crash guarded
      run_shape run_workload_with
  zwasm-agree fib s = search checked-check_result
  zwasm-agree xmrsplayer s = search unchecked-check_result
  zwasm-agree e s = search checked-check_result

  zwasm-vtable-agree :
      (e : VtableEntry) (s : S)
      → shortened (bench_run_vtable_zwasm adapters e s)
        ≡ shortened (bench_run_case adapters 4 (some (workload_case (vtable e))) s)
  unfolding bench_run_vtable_zwasm bench_run_case run_on run_id run_found run_case known_crash
      guarded run_shape run_workload_with
  zwasm-vtable-agree mono s = search checked-check_result
  zwasm-vtable-agree e s = search checked-check_result

  zwasm-graphql-agree :
      (e : GraphqlEntry) (s : S)
      → shortened (bench_run_graphql_zwasm adapters e s)
        ≡ shortened (bench_run_case adapters 4 (some (workload_case (graphql e))) s)
  unfolding bench_run_graphql_zwasm bench_run_case run_on run_id run_found run_case known_crash
      guarded run_shape run_workload_with run_porffor
  zwasm-graphql-agree validation_as s = search checked-check_result
  zwasm-graphql-agree validation_porf s = search unchecked-check_result

  wasmz-agree :
      (e : Entry) (s : S)
      → shortened (bench_run_wasmz adapters e (standard_arg e) s)
        ≡ shortened (bench_run_case adapters 5 (some (case_id e)) s)
  unfolding bench_run_wasmz guarded_report bench_run_case run_on run_id run_found run_case
      known_crash guarded run_shape run_workload_with
  wasmz-agree sieve s = refl
  wasmz-agree crc32 s = refl
  wasmz-agree fib s = search checked-check_result
  wasmz-agree xmrsplayer s = search unchecked-check_result
  wasmz-agree e s = search checked-check_result

  wasmz-vtable-agree :
      (e : VtableEntry) (s : S)
      → shortened (bench_run_vtable_wasmz adapters e s)
        ≡ shortened (bench_run_case adapters 5 (some (workload_case (vtable e))) s)
  unfolding bench_run_vtable_wasmz bench_run_case run_on run_id run_found run_case known_crash
      guarded run_shape run_workload_with
  wasmz-vtable-agree mono s = search checked-check_result
  wasmz-vtable-agree e s = search checked-check_result

  wasmz-graphql-agree :
      (e : GraphqlEntry) (s : S)
      → shortened (bench_run_graphql_wasmz adapters e s)
        ≡ shortened (bench_run_case adapters 5 (some (workload_case (graphql e))) s)
  unfolding bench_run_graphql_wasmz bench_run_case run_on run_id run_found run_case known_crash
      guarded run_shape run_workload_with run_porffor
  wasmz-graphql-agree validation_as s = search checked-check_result
  wasmz-graphql-agree validation_porf s = search unchecked-check_result

  answered :
      (a answer b : BenchReport E × S)
      → some a ≡ some answer
      → shortened a ≡ b
      → shortened answer ≡ b
  answered a answer b h e = cc

  -- At the argument of its case, each C entry answers what `bench_run_case` does for that case on
  -- that runtime, the state of the guest included, but for the longer text of a wrong result;
  -- Pulley's graphql_as apart.
  pub bench_run-bench_run_case :
      (rt : Runtime) (w : Workload) (s : S) (answer : BenchReport E × S)
      → has_own_runner rt w ≡ false
      → bench_run adapters rt w (workload_arg w) s ≡ some answer
      → shortened answer
        ≡ shortened (bench_run_case adapters (runtime_id rt) (some (workload_case w)) s)
  unfolding bench_run
  bench_run-bench_run_case pulley (plain e) s answer own h =
      answered _ answer _ h (pulley-agree e s)
  bench_run-bench_run_case pulley (vtable e) s answer own h =
      answered _ answer _ h (pulley-vtable-agree e s)
  bench_run-bench_run_case pulley (graphql validation_porf) s answer own h =
      answered _ answer _ h (pulley-porf-agree s)
  bench_run-bench_run_case pulley (graphql validation_as) s answer own h = ground arith
  bench_run-bench_run_case pulley sqlite3 s answer own h =
      answered _ answer _ h (pulley-sqlite3-agree s)
  bench_run-bench_run_case wamr (plain e) s answer own h = answered _ answer _ h (wamr-agree e s)
  bench_run-bench_run_case wamr (vtable e) s answer own h =
      answered _ answer _ h (wamr-vtable-agree e s)
  bench_run-bench_run_case wamr (graphql e) s answer own h =
      answered _ answer _ h (wamr-graphql-agree e s)
  bench_run-bench_run_case wamr sqlite3 s answer own h = ground arith
  bench_run-bench_run_case wasm3 (plain e) s answer own h = answered _ answer _ h (wasm3-agree e s)
  bench_run-bench_run_case wasm3 (vtable e) s answer own h =
      answered _ answer _ h (wasm3-vtable-agree e s)
  bench_run-bench_run_case wasm3 (graphql e) s answer own h =
      answered _ answer _ h (wasm3-graphql-agree e s)
  bench_run-bench_run_case wasm3 sqlite3 s answer own h = ground arith
  bench_run-bench_run_case wasm_edge (plain e) s answer own h =
      answered _ answer _ h (wasm_edge-agree e s)
  bench_run-bench_run_case wasm_edge (vtable e) s answer own h =
      answered _ answer _ h (wasm_edge-vtable-agree e s)
  bench_run-bench_run_case wasm_edge (graphql e) s answer own h =
      answered _ answer _ h (wasm_edge-graphql-agree e s)
  bench_run-bench_run_case wasm_edge sqlite3 s answer own h = ground arith
  bench_run-bench_run_case zwasm (plain e) s answer own h = answered _ answer _ h (zwasm-agree e s)
  bench_run-bench_run_case zwasm (vtable e) s answer own h =
      answered _ answer _ h (zwasm-vtable-agree e s)
  bench_run-bench_run_case zwasm (graphql e) s answer own h =
      answered _ answer _ h (zwasm-graphql-agree e s)
  bench_run-bench_run_case zwasm sqlite3 s answer own h = ground arith
  bench_run-bench_run_case wasmz (plain e) s answer own h = answered _ answer _ h (wasmz-agree e s)
  bench_run-bench_run_case wasmz (vtable e) s answer own h =
      answered _ answer _ h (wasmz-vtable-agree e s)
  bench_run-bench_run_case wasmz (graphql e) s answer own h =
      answered _ answer _ h (wasmz-graphql-agree e s)
  bench_run-bench_run_case wasmz sqlite3 s answer own h = ground arith
  bench_run-bench_run_case tinywasm w s answer own h = ground arith
