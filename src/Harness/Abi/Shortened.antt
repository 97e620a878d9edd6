-- ===== src/Harness/Abi/Shortened.antt =====
-- The report of a C entry up to the text of its message.
use wasm_benchmark.Base.{ℕ, ◌≡◌, refl, Option, some, none, ◌==◌, Bool, true, false, if◌then◌else◌}
use wasm_benchmark.Harness.Window.{RunReport}
use wasm_benchmark.Harness.Cases.{
  RunResult, ok, err, check_result, RunError, silently_miscompiled, wrong_result,
}
use wasm_benchmark.Harness.Abi.{BenchReport, report_from, report_from_checked}
use wasm_benchmark.Harness.Abi.Entries.{checked, unchecked}

-- An error with the long text for a wrong result made the short one.
abbrev pub short_text : {E : Type 0} → RunError E → RunError E
short_text (silently_miscompiled got exp) = wrong_result got exp
short_text e = e

abbrev pub short_message : {E : Type 0} → Option (RunError E) → Option (RunError E)
short_message none = none
short_message (some e) = some (short_text e)

-- A report with that change in its message.
abbrev pub shortened : {S E : Type 0} → BenchReport E × S → BenchReport E × S
shortened (r, s) = (
  record {
    result = r.result;
    ok_flag = r.ok_flag;
    iterations = r.iterations;
    load_ns = r.load_ns;
    run_ns_min = r.run_ns_min;
    run_ns_median = r.run_ns_median;
    run_ns_p99 = r.run_ns_p99;
    cpu_user_ns = r.cpu_user_ns;
    cpu_system_ns = r.cpu_system_ns;
    rss_peak_bytes = r.rss_peak_bytes;
    page_faults = r.page_faults;
    error_msg = short_message r.error_msg;
    p_cpu_ns = r.p_cpu_ns;
    instructions = r.instructions;
    cycles = r.cycles;
  },
  s,
)

checked-ok :
    {S E : Type 0} (r : RunReport) (s : S) (exp : ℕ)
    → shortened {E = E} (checked (ok r, s) (some exp))
      ≡ shortened (report_from (check_result (some exp) (ok r)), s)
unfolding checked report_from_checked check_result report_from
checked-ok {S} {E} r s exp = by_test (r.result == exp)
  where
    by_test :
        (b : Bool)
        → shortened {E = E} (
          if b then report_from (ok r) else report_from (err (silently_miscompiled r.result exp)),
          s,
        )
          ≡ shortened (report_from (if b then ok r else err (wrong_result r.result exp)), s)
    by_test true = refl
    by_test false = refl

-- The two tests of a result make the same report, but for that text.
pub checked-check_result :
    {S E : Type 0} (m : RunResult E RunReport × S) (expected : Option ℕ)
    → shortened (checked m expected) ≡ shortened (report_from (check_result expected m.0), m.1)
unfolding checked report_from_checked check_result
checked-check_result (ok r, s) none = refl
checked-check_result (ok r, s) (some exp) = checked-ok r s exp
checked-check_result (err e, s) none = refl
checked-check_result (err e, s) (some exp) = refl

pub unchecked-check_result :
    {S E : Type 0} (m : RunResult E RunReport × S)
    → shortened (unchecked m) ≡ shortened (report_from (check_result none m.0), m.1)
unfolding unchecked check_result
unchecked-check_result (ok r, s) = refl
unchecked-check_result (err e, s) = refl
