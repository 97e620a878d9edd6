-- ===== src/Harness/Abi.antt =====
-- The C ABI of crates/benchmark-core/src/lib.rs: the report with its flag and message, and the
-- entry over the case table, `bench_run_case`. A pointer that may be null is an Option; the
-- message is the error, not its text.
pub mod Entries
pub mod Pulley
pub mod Wamr
pub mod Wasm3
pub mod Wasmedge
pub mod Zwasm
pub mod Wasmz
pub mod Workloads
pub mod Shortened
pub mod Agreement
pub mod Accepted
mod Runs
use wasm_benchmark.Base.{ℕ, ◌%◌, ◌^◌, List, [], ◌∷◌, Option, some, none, if◌then◌else◌, ◌==◌}
use Prim.Native.String.{String}
use text.Mathlib.Text.{◌==◌ as str_eq}
use wasm_benchmark.Harness.Window.{RunReport}
use wasm_benchmark.Harness.Table.{Case, cases}
use wasm_benchmark.Harness.Cases.{
  Runtime, runtime_id, runtimes, RunError, unknown_runtime, null_case_id, unknown_case,
  silently_miscompiled, RunResult, ok, err, Adapters, run_case,
}

pub record BenchReport (E : Type 0) : Type 0 where
  pub result : ℕ
  pub ok_flag : ℕ
  pub iterations : ℕ
  pub load_ns : ℕ
  pub run_ns_min : ℕ
  pub run_ns_median : ℕ
  pub run_ns_p99 : ℕ
  pub cpu_user_ns : ℕ
  pub cpu_system_ns : ℕ
  pub rss_peak_bytes : ℕ
  pub page_faults : ℕ
  pub error_msg : Option (RunError E)
  pub p_cpu_ns : ℕ
  pub instructions : ℕ
  pub cycles : ℕ

unfoldable pub report_from : {E : Type 0} → RunResult E RunReport → BenchReport E
report_from (ok r) = record {
  result = r.result;
  ok_flag = 1;
  iterations = r.iterations;
  load_ns = r.load_time % 2 ^ 64;
  run_ns_min = r.run_min % 2 ^ 64;
  run_ns_median = r.run_median % 2 ^ 64;
  run_ns_p99 = r.run_p99 % 2 ^ 64;
  cpu_user_ns = r.cpu_user_ns;
  cpu_system_ns = r.cpu_system_ns;
  rss_peak_bytes = r.rss_peak_bytes;
  page_faults = r.page_faults;
  error_msg = none;
  p_cpu_ns = r.p_cpu_ns;
  instructions = r.instructions;
  cycles = r.cycles;
}
report_from (err e) = record {
  result = 0;
  ok_flag = 0;
  iterations = 0;
  load_ns = 0;
  run_ns_min = 0;
  run_ns_median = 0;
  run_ns_p99 = 0;
  cpu_user_ns = 0;
  cpu_system_ns = 0;
  rss_peak_bytes = 0;
  page_faults = 0;
  error_msg = some e;
  p_cpu_ns = 0;
  instructions = 0;
  cycles = 0;
}

unfoldable pub report_from_checked : {E : Type 0} → RunResult E RunReport → Option ℕ → BenchReport E
unfolding report_from
report_from_checked (ok r) (some exp) =
    if r.result == exp
    then report_from (ok r)
    else report_from (err (silently_miscompiled r.result exp))
report_from_checked (ok r) none = report_from (ok r)
report_from_checked (err e) expected = report_from (err e)

abbrev pub find_runtime : List (Runtime × String × String) → ℕ → Option Runtime
find_runtime [] runtime = none
find_runtime ((r, _, _) ∷ rest) runtime =
    if runtime_id r == runtime then some r else find_runtime rest runtime

abbrev pub find_case : List Case → String → Option Case
find_case [] id = none
find_case (case ∷ rest) id = if str_eq case.id id then some case else find_case rest id

module _ {S E : Type 0} (adapters : Adapters S E) where
  -- The rest of the closure, step by step: the case, and then the run.
  unfoldable pub run_found : Runtime → String → Option Case → S → RunResult E RunReport × S
  unfolding run_case
  run_found rt id none s = (err (unknown_case id), s)
  run_found rt id (some case) s = run_case adapters rt case s

  unfoldable pub run_id : Runtime → Option String → S → RunResult E RunReport × S
  unfolding run_found
  run_id rt none s = (err null_case_id, s)
  run_id rt (some id) s = run_found rt id (find_case cases id) s

  unfoldable pub run_on : Option Runtime → ℕ → Option String → S → RunResult E RunReport × S
  unfolding run_id
  run_on none runtime case_id s = (err (unknown_runtime runtime), s)
  run_on (some rt) runtime case_id s = run_id rt case_id s

  unfoldable pub bench_run_case : ℕ → Option String → S → BenchReport E × S
  unfolding run_on report_from
  bench_run_case runtime case_id s =
      let (r, s') = run_on (find_runtime runtimes runtime) runtime case_id s in (report_from r, s')
