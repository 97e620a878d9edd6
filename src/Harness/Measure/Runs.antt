-- ===== src/Harness/Measure/Runs.antt =====
-- Measurements of a guest whose state counts its calls, and the theorems there.
use wasm_benchmark.Base.{
  ℕ, zero, suc, ◌*◌, ◌≡◌, refl, arith, [], ◌∷◌, none, some, if◌then◌else◌, ◌==◌,
}
use wasm_benchmark.Harness.Window.{Window, After, RunReport}
use wasm_benchmark.Harness.Window.Finish.{Reports}
use wasm_benchmark.Harness.Measure.{
  Attempt, returned, failed, timed, ok, err, rounds_for, measure_calls,
}
use wasm_benchmark.Harness.Measure.Calls.{AllReturn, measure_calls_all}
use wasm_benchmark.Harness.Measure.Failures.{measure_calls_fails}

abbrev no_counters : Window
no_counters = record { cpu = none; events = none; usage = none }

abbrev no_after : After
no_after = record { cpu = none; events = none; usage = none; rss = none }

-- Call k returns k in 10 * k ns.
abbrev counting : ℕ → Attempt ℕ × ℕ
counting s = (returned s (10 * s), suc s)

-- It returns three times, and then fails.
abbrev breaking : ℕ → Attempt ℕ × ℕ
breaking s = (if s == 3 then failed 77 else returned s (10 * s), suc s)

three_rounds : rounds_for none 3 10 ≡ some 3
unfolding rounds_for
three_rounds = refl

measure_calls_all_example :
    (r : RunReport) × (measure_calls counting none no_counters no_after 900 3 0 ≡ (ok r, 5))
    × Reports (20 ∷ 30 ∷ 40 ∷ []) 4 3 900 (some r)
measure_calls_all_example =
    measure_calls_all counting none no_counters no_after 900 3 3 0 (λ k h. refl) three_rounds
      (omega arith)

breaking_returns : AllReturn breaking 3 0
breaking_returns zero h = refl
breaking_returns (suc zero) h = refl
breaking_returns (suc (suc zero)) h = refl
breaking_returns (suc (suc (suc k))) h = absurd (omega arith)

measure_calls_fails_example :
    measure_calls breaking none no_counters no_after 900 3 0 ≡ (err (timed 77), 4)
measure_calls_fails_example =
    measure_calls_fails breaking none no_counters no_after 900 3 3 3 0 77 (omega arith)
      breaking_returns refl three_rounds
