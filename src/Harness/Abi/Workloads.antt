-- ===== src/Harness/Abi/Workloads.antt =====
-- The C entries of crates/benchmark-core/src/lib.rs by runtime and workload, with the case of each.
use wasm_benchmark.Base.{ℕ, Option, some, none, Bool, true, false}
use Prim.Native.String.{String}
use wasm_benchmark.Harness.Cases.{
  Runtime, pulley, wamr, wasm3, wasm_edge, zwasm, wasmz, tinywasm, Adapters,
}
use wasm_benchmark.Harness.Abi.{BenchReport}
use wasm_benchmark.Harness.Abi.Entries.{
  Entry, VtableEntry, GraphqlEntry, mono, bi, poly4, poly6, validation_as, validation_porf, fib,
  fib_tail, factorial, sieve, crc32, matmul_simd, matmul_fma, convolution, audio_dsp, bulk_memory,
  call_indirect, xmrsplayer,
}
use wasm_benchmark.Harness.Abi.Pulley.{
  bench_run_pulley, bench_run_vtable_pulley, bench_run_graphql_pulley, bench_run_sqlite3,
}
use wasm_benchmark.Harness.Abi.Wamr.{bench_run_wamr, bench_run_vtable_wamr, bench_run_graphql_wamr}
use wasm_benchmark.Harness.Abi.Wasm3.{
  bench_run_wasm3, bench_run_vtable_wasm3, bench_run_graphql_wasm3,
}
use wasm_benchmark.Harness.Abi.Wasmedge.{
  bench_run_wasmedge, bench_run_vtable_wasmedge, bench_run_graphql_wasmedge,
}
use wasm_benchmark.Harness.Abi.Zwasm.{
  bench_run_zwasm, bench_run_vtable_zwasm, bench_run_graphql_zwasm,
}
use wasm_benchmark.Harness.Abi.Wasmz.{
  bench_run_wasmz, bench_run_vtable_wasmz, bench_run_graphql_wasmz,
}

-- The id of the case of an entry, and the argument that it is measured with.
abbrev pub case_id : Entry → String
case_id fib = "fib"
case_id fib_tail = "fib_tail"
case_id factorial = "factorial"
case_id sieve = "sieve"
case_id crc32 = "crc32"
case_id matmul_simd = "matmul_simd"
case_id matmul_fma = "matmul_fma"
case_id convolution = "convolution"
case_id audio_dsp = "audio_dsp"
case_id bulk_memory = "bulk_memory"
case_id call_indirect = "call_indirect"
case_id xmrsplayer = "xmrsplayer"

abbrev pub standard_arg : Entry → ℕ
standard_arg fib = 30
standard_arg fib_tail = 100000
standard_arg factorial = 20
standard_arg sieve = 10000
standard_arg _ = 0

-- An entry of the C ABI, `bench_run_<workload>_<runtime>`, by its workload.
pub data Workload : Type 0 where
  plain : Entry → Workload
  vtable : VtableEntry → Workload
  graphql : GraphqlEntry → Workload
  sqlite3 : Workload

abbrev pub workload_case : Workload → String
workload_case (plain e) = case_id e
workload_case (vtable mono) = "vtable_mono"
workload_case (vtable bi) = "vtable_bi"
workload_case (vtable poly4) = "vtable_poly4"
workload_case (vtable poly6) = "vtable_poly6"
workload_case (graphql validation_as) = "graphql_as"
workload_case (graphql validation_porf) = "graphql_porf"
workload_case sqlite3 = "sqlite3"

abbrev pub workload_arg : Workload → ℕ
workload_arg (plain e) = standard_arg e
workload_arg _ = 0

-- Pulley's entry for graphql_as goes by a runner of its own, the case table by the plain one.
abbrev pub has_own_runner : Runtime → Workload → Bool
has_own_runner pulley (graphql validation_as) = true
has_own_runner _ _ = false

module _ {S E : Type 0} (adapters : Adapters S E) where
  -- The entry of a runtime for a workload, if it has one: tinywasm has only `bench_run_case`, and
  -- SQLite has an entry for Pulley alone.
  unfoldable pub bench_run : Runtime → Workload → ℕ → S → Option (BenchReport E × S)
  bench_run pulley (plain e) n s = some (bench_run_pulley adapters e n s)
  bench_run pulley (vtable e) n s = some (bench_run_vtable_pulley adapters e s)
  bench_run pulley (graphql e) n s = some (bench_run_graphql_pulley adapters e s)
  bench_run pulley sqlite3 n s = some (bench_run_sqlite3 adapters s)
  bench_run wamr (plain e) n s = some (bench_run_wamr adapters e n s)
  bench_run wamr (vtable e) n s = some (bench_run_vtable_wamr adapters e s)
  bench_run wamr (graphql e) n s = some (bench_run_graphql_wamr adapters e s)
  bench_run wamr sqlite3 n s = none
  bench_run wasm3 (plain e) n s = some (bench_run_wasm3 adapters e n s)
  bench_run wasm3 (vtable e) n s = some (bench_run_vtable_wasm3 adapters e s)
  bench_run wasm3 (graphql e) n s = some (bench_run_graphql_wasm3 adapters e s)
  bench_run wasm3 sqlite3 n s = none
  bench_run wasm_edge (plain e) n s = some (bench_run_wasmedge adapters e n s)
  bench_run wasm_edge (vtable e) n s = some (bench_run_vtable_wasmedge adapters e s)
  bench_run wasm_edge (graphql e) n s = some (bench_run_graphql_wasmedge adapters e s)
  bench_run wasm_edge sqlite3 n s = none
  bench_run zwasm (plain e) n s = some (bench_run_zwasm adapters e n s)
  bench_run zwasm (vtable e) n s = some (bench_run_vtable_zwasm adapters e s)
  bench_run zwasm (graphql e) n s = some (bench_run_graphql_zwasm adapters e s)
  bench_run zwasm sqlite3 n s = none
  bench_run wasmz (plain e) n s = some (bench_run_wasmz adapters e n s)
  bench_run wasmz (vtable e) n s = some (bench_run_vtable_wasmz adapters e s)
  bench_run wasmz (graphql e) n s = some (bench_run_graphql_wasmz adapters e s)
  bench_run wasmz sqlite3 n s = none
  bench_run tinywasm w n s = none
