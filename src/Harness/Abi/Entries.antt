-- ===== src/Harness/Abi/Entries.antt =====
-- The C entries `bench_run_<workload>_<runtime>` of crates/benchmark-core/src/lib.rs. The entries
-- of a workload with a parameter take it; the others ignore `n`.
use wasm_benchmark.Base.{ℕ, Option, some, none, if◌then◌else◌, ◌==◌}
use Prim.Native.String.{String}
use wasm_benchmark.Harness.Window.{RunReport}
use wasm_benchmark.Harness.Cases.{not_run, RunResult, err}
use wasm_benchmark.Harness.Abi.{BenchReport, report_from, report_from_checked}

-- The workloads of the first block of each runtime.
pub data Entry : Type 0 where
  fib fib_tail factorial sieve crc32 matmul_simd matmul_fma convolution audio_dsp : Entry
  bulk_memory call_indirect xmrsplayer : Entry

pub data VtableEntry : Type 0 where
  mono bi poly4 poly6 : VtableEntry

pub data GraphqlEntry : Type 0 where
  validation_as validation_porf : GraphqlEntry

-- `if n == arg { Some(expected) } else { None }`
abbrev pub when_equal : ℕ → ℕ → ℕ → Option ℕ
when_equal n arg expected = if n == arg then some expected else none

module _ {S E : Type 0} where
  unfoldable pub checked : RunResult E RunReport × S → Option ℕ → BenchReport E × S
  unfolding report_from_checked
  checked (r, s) expected = (report_from_checked r expected, s)

  unfoldable pub unchecked : RunResult E RunReport × S → BenchReport E × S
  unfolding report_from
  unchecked (r, s) = (report_from r, s)

  -- `if let Some(reason) = known_crash(..) { return report_from(Err(..)) }`
  unfoldable pub guarded_report : Option String → (S → BenchReport E × S) → S → BenchReport E × S
  unfolding report_from
  guarded_report (some reason) run s = (report_from (err (not_run reason)), s)
  guarded_report none run s = run s
