-- ===== src/Harness/Abi/Zwasm.antt =====
-- The entries of the C ABI in crates/benchmark-core/src/lib.rs that run on Zwasm: `bench_run_fib_zwasm` and
-- the others of that suffix.
use wasm_benchmark.Base.{ℕ, some}
use wasm_benchmark.Harness.Table.{
  audio_dsp_wasm, bulk_memory_wasm, call_indirect_wasm, convolution_wasm, crc32_wasm,
  expected_audio_dsp, expected_bulk_memory, expected_call_indirect, expected_convolution,
  expected_crc32_c0ffee, expected_factorial_20, expected_fib_30, expected_fib_tail_100k,
  expected_graphql_as, expected_matmul_fma, expected_matmul_simd, expected_sieve_10k,
  expected_vtable_bi, expected_vtable_mono, expected_vtable_poly4, expected_vtable_poly6,
  factorial_wasm, fib_tail_wasm, fib_wasm, graphql_validation_as_wasm, graphql_validation_porf_wasm,
  matmul_fma_wasm, matmul_simd_wasm, sieve_wasm, vtable_dispatch_wasm, xmrsplayer_wasm,
}
use wasm_benchmark.Harness.Cases.{Adapters}
use wasm_benchmark.Harness.Abi.{BenchReport}
use wasm_benchmark.Harness.Abi.Entries.{
  Entry, VtableEntry, GraphqlEntry, fib, fib_tail, factorial, sieve, crc32, matmul_simd, matmul_fma,
  convolution, audio_dsp, bulk_memory, call_indirect, xmrsplayer, mono, bi, poly4, poly6,
  validation_as, validation_porf, when_equal, checked, unchecked,
}

module _ {S E : Type 0} (adapters : Adapters S E) where
  unfoldable pub bench_run_zwasm : Entry → ℕ → S → BenchReport E × S
  unfolding checked unchecked
  bench_run_zwasm fib n s =
      checked (adapters.on_zwasm.run_workload fib_wasm "fib" n s) (when_equal n 30 expected_fib_30)
  bench_run_zwasm fib_tail n s =
      checked (adapters.on_zwasm.run_workload fib_tail_wasm "fib_tail" n s)
        (when_equal n 100000 expected_fib_tail_100k)
  bench_run_zwasm factorial n s =
      checked (adapters.on_zwasm.run_workload factorial_wasm "factorial" n s)
        (when_equal n 20 expected_factorial_20)
  bench_run_zwasm sieve n s =
      checked (adapters.on_zwasm.run_workload sieve_wasm "sieve" n s)
        (when_equal n 10000 expected_sieve_10k)
  bench_run_zwasm crc32 n s =
      checked (adapters.on_zwasm.run_workload crc32_wasm "crc32" 0xC0FFEE s)
        (some expected_crc32_c0ffee)
  bench_run_zwasm matmul_simd n s =
      checked (adapters.on_zwasm.run_workload matmul_simd_wasm "matmul" 0xBEEF s)
        (some expected_matmul_simd)
  bench_run_zwasm matmul_fma n s =
      checked (adapters.on_zwasm.run_workload matmul_fma_wasm "matmul_fma" 0xBEEF s)
        (some expected_matmul_fma)
  bench_run_zwasm convolution n s =
      checked (adapters.on_zwasm.run_workload convolution_wasm "convolve" 0xCAFE s)
        (some expected_convolution)
  bench_run_zwasm audio_dsp n s =
      checked (adapters.on_zwasm.run_workload audio_dsp_wasm "audio_dsp" 0x5C7 s)
        (some expected_audio_dsp)
  bench_run_zwasm bulk_memory n s =
      checked (adapters.on_zwasm.run_workload bulk_memory_wasm "bulk_memory" 0xB0CC s)
        (some expected_bulk_memory)
  bench_run_zwasm call_indirect n s =
      checked (adapters.on_zwasm.run_workload call_indirect_wasm "call_indirect" 0xC1AA s)
        (some expected_call_indirect)
  bench_run_zwasm xmrsplayer n s =
      unchecked (adapters.on_zwasm.run_workload xmrsplayer_wasm "play_buffer" 0 s)

  unfoldable pub bench_run_vtable_zwasm : VtableEntry → S → BenchReport E × S
  unfolding checked
  bench_run_vtable_zwasm mono s =
      checked (adapters.on_zwasm.run_workload vtable_dispatch_wasm "vtable_mono" 0xC1AA s)
        (some expected_vtable_mono)
  bench_run_vtable_zwasm bi s =
      checked (adapters.on_zwasm.run_workload vtable_dispatch_wasm "vtable_bi" 0xC1AA s)
        (some expected_vtable_bi)
  bench_run_vtable_zwasm poly4 s =
      checked (adapters.on_zwasm.run_workload vtable_dispatch_wasm "vtable_poly4" 0xC1AA s)
        (some expected_vtable_poly4)
  bench_run_vtable_zwasm poly6 s =
      checked (adapters.on_zwasm.run_workload vtable_dispatch_wasm "vtable_poly6" 0xC1AA s)
        (some expected_vtable_poly6)

  unfoldable pub bench_run_graphql_zwasm : GraphqlEntry → S → BenchReport E × S
  unfolding checked unchecked
  bench_run_graphql_zwasm validation_as s =
      checked (adapters.on_zwasm.run_workload graphql_validation_as_wasm "validate_once" 0 s)
        (some expected_graphql_as)
  bench_run_graphql_zwasm validation_porf s =
      unchecked (adapters.run_graphql_validation_porf_zwasm graphql_validation_porf_wasm s)
