-- ===== src/Harness/Abi/Runs.antt =====
-- The case table and the C ABI with adapters that answer at once and count their calls, and the
-- theorems there.
use wasm_benchmark.Base.{ℕ, suc, ◌-◌, ◌^◌, ◌≡◌, refl, none, some, ◌↔◌}
use wasm_benchmark.Harness.Window.{RunReport}
use wasm_benchmark.Harness.Table.{Wasm, Case, c, factorial_wasm, expected_factorial_20}
use wasm_benchmark.Harness.Cases.{
  wamr, wrong_result, RunResult, ok, Adapter, Adapters, run_case, known_crash, run_shape,
}
use wasm_benchmark.Harness.Cases.Checked.{Meets, run_case-ok}
use wasm_benchmark.Harness.Abi.{bench_run_case}
use wasm_benchmark.Harness.Abi.Entries.{factorial}
use wasm_benchmark.Harness.Abi.Wamr.{bench_run_wamr}
use wasm_benchmark.Harness.Abi.Workloads.{plain, bench_run}
use wasm_benchmark.Harness.Abi.Shortened.{shortened}
use wasm_benchmark.Harness.Abi.Agreement.{bench_run-bench_run_case}
use wasm_benchmark.Harness.Abi.Accepted.{Accepted, bench_run_case-Accepted}

abbrev report_with : ℕ → RunReport
report_with v = record {
  result = v;
  iterations = 3;
  load_time = 900;
  run_min = 10;
  run_median = 20;
  run_p99 = 30;
  cpu_user_ns = 60;
  cpu_system_ns = 0;
  rss_peak_bytes = 4096;
  page_faults = 0;
  p_cpu_ns = 60;
  instructions = 0;
  cycles = 0;
}

-- Every runner returns v.
abbrev one : ℕ → Adapter ℕ ℕ
one v = record {
  run_workload = λ _ _ _ s. (ok (report_with v), suc s);
  run_instantiate_each = λ _ _ _ s. (ok (report_with v), suc s);
}

abbrev runner : ℕ → Wasm → ℕ → RunResult ℕ RunReport × ℕ
runner v _ s = (ok (report_with v), suc s)

abbrev all : ℕ → Adapters ℕ ℕ
all v = record {
  on_pulley = one v;
  on_wamr = one v;
  on_wasm3 = one v;
  on_wasm_edge = one v;
  on_zwasm = one v;
  on_wasmz = one v;
  on_tinywasm = one v;
  run_graphql_validation_as = runner v;
  run_graphql_validation_porf = runner v;
  run_graphql_validation_porf_wamr = runner v;
  run_graphql_validation_porf_wasmedge = runner v;
  run_graphql_validation_porf_zwasm = runner v;
  run_graphql_validation_porf_wasmz = runner v;
  run_graphql_validation_porf_tinywasm = runner v;
  run_sqlite3 = runner v;
}

abbrev right_value : ℕ
right_value = 2 ^ 32 - 2102132736

abbrev factorial_case : Case
factorial_case =
    c "factorial" "factorial(20)" factorial_wasm "factorial" 20 (some expected_factorial_20)

run_case-ok_example :
    (run_case (all right_value) wamr factorial_case 0 ≡ (ok (report_with right_value), 1)) ↔ (
      (known_crash wamr "factorial" ≡ none)
      × (run_shape (all right_value) wamr factorial_case factorial_case.shape 0
          ≡ (ok (report_with right_value), 1))
      × Meets (some expected_factorial_20) right_value)
run_case-ok_example =
    run_case-ok (all right_value) wamr factorial_case 0 1 (report_with right_value)

-- A wrong answer is an error, and a known crash makes no call.
wrong_answer :
    (bench_run_case (all 5) 1 (some "factorial") 0).0.error_msg
    ≡ some (wrong_result 5 expected_factorial_20)
unfolding bench_run_case known_crash
wrong_answer = refl

crash_not_run : (bench_run_case (all 5) 5 (some "sieve") 0).1 ≡ 0
unfolding bench_run_case known_crash
crash_not_run = refl

accepted_flag : (bench_run_case (all right_value) 1 (some "factorial") 0).0.ok_flag ≡ 1
unfolding bench_run_case known_crash
accepted_flag = refl

bench_run_case-Accepted_example :
    Accepted ℕ ℕ
      (all right_value)
      1
      (some "factorial")
      0
      (bench_run_case (all right_value) 1 (some "factorial") 0)
bench_run_case-Accepted_example =
    bench_run_case-Accepted (all right_value) 1 (some "factorial") 0 accepted_flag

through_wamr :
    bench_run (all 5) wamr (plain factorial) 20 0 ≡ some (bench_run_wamr (all 5) factorial 20 0)
unfolding bench_run
through_wamr = refl

bench_run-bench_run_case_example :
    shortened (bench_run_wamr (all 5) factorial 20 0)
    ≡ shortened (bench_run_case (all 5) 1 (some "factorial") 0)
bench_run-bench_run_case_example =
    bench_run-bench_run_case (all 5) wamr (plain factorial) 0
      (bench_run_wamr (all 5) factorial 20 0) refl through_wamr
