-- ===== src/Harness/Cases/Checked.antt =====
-- What a result of `run_case` says of the run.
use wasm_benchmark.Base.{ℕ, ◌≡◌, refl, Option, some, none, ◌↔◌, ap, arith, ◌∙◌, sym, ap₂}
use wasm_benchmark.Harness.Window.{RunReport}
use wasm_benchmark.Harness.Table.{Case}
use wasm_benchmark.Harness.Cases.{
  Runtime, known_crash, RunResult, ok, err, Adapters, run_shape, check_result, guarded, run_case,
}
use Prim.Native.String.{String}
use native.Mathlib.Decide.{ℕ_discrete}

-- The result is the reference, where there is one.
abbrev pub Meets : Option ℕ → ℕ → Type 0
Meets none result = Unit {0}
Meets (some exp) result = result ≡ exp

abbrev result_of : {E : Type 0} → RunResult E RunReport → ℕ
result_of (ok r) = r.result
result_of (err e) = 0

pub check_result-ok :
    {E : Type 0} (expected : Option ℕ) (m : RunResult E RunReport) (r : RunReport)
    → check_result expected m ≡ ok r
    → (m ≡ ok r) × Meets expected r.result
unfolding check_result
check_result-ok none (ok m) r e = (e, tt)
check_result-ok (some exp) (ok m) r e = elim (ℕ_discrete m.result exp) [
  | yes same ↦ let back : ok m ≡ ok r = ground arith in (back, sym (ap result_of back) ∙ same)
  | no other ↦ ground arith
]
check_result-ok none (err m) r e = ground arith
check_result-ok (some exp) (err m) r e = ground arith

pub check_result-Meets :
    {E : Type 0} (expected : Option ℕ) (r : RunReport)
    → Meets expected r.result
    → check_result {E = E} expected (ok r) ≡ ok r
unfolding check_result
check_result-Meets none r h = refl
check_result-Meets (some exp) r h = ground arith

pub guarded-ok :
    {S : Type 0} {E : Type 0} (crash : Option String) (run : S → RunResult E RunReport × S)
    (expected : Option ℕ) (s s' : S) (r : RunReport)
    → guarded crash (λ s. let (m, t) = run s in (check_result expected m, t)) s ≡ (ok r, s')
    → (crash ≡ none) × (run s ≡ (ok r, s')) × Meets expected r.result
unfolding guarded
guarded-ok (some reason) run expected s s' r e = let clash = ap (λ x. x.0) e in ground arith
guarded-ok none run expected s s' r e =
    let (same, right) = check_result-ok expected (run s).0 r (ap (λ x. x.0) e) in
    (refl, ap₂ (λ a b. (a, b)) same (ap (λ x. x.1) e), right)

module _ {S E : Type 0} (adapters : Adapters S E) where
  -- `run_case` gives a report exactly if the pair is no known crash, the run of the case gives
  -- that report, and its result is the reference where the case has one.
  pub run_case-ok :
      (rt : Runtime) (case : Case) (s s' : S) (r : RunReport)
      → (run_case adapters rt case s ≡ (ok r, s')) ↔ (
          (known_crash rt case.id ≡ none)
          × (run_shape adapters rt case case.shape s ≡ (ok r, s'))
          × Meets case.expected r.result)
  unfolding run_case guarded
  run_case-ok rt case s s' r = (
    guarded-ok (known_crash rt case.id) (run_shape adapters rt case case.shape) case.expected s s'
        r,
    λ (fresh, runs, right).
        rw (fresh, runs) (ap (λ x. (x, s')) (check_result-Meets case.expected r right)),
  )
