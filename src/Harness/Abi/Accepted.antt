-- ===== src/Harness/Abi/Accepted.antt =====
-- What a report of `bench_run_case` with its flag set says.
use wasm_benchmark.Base.{
  ℕ, ◌≡◌, refl, ap, ◌∙◌, sym, List, [], ◌∷◌, Option, some, none, Bool, true, false, if◌then◌else◌,
  arith, ◌⊎◌, inl, inr,
}
use Prim.Native.String.{String}
use native.Mathlib.Decide.{ℕ_discrete}
use text.Mathlib.Text.{◌==◌ as str_eq}
use text.Mathlib.TextEquality.{eq_iff}
use wasm_benchmark.Harness.Window.{RunReport}
use wasm_benchmark.Harness.Table.{Case, cases}
use wasm_benchmark.Harness.Cases.{
  Runtime, runtime_id, runtimes, known_crash, RunResult, ok, err, Adapters, run_case, run_shape,
}
use wasm_benchmark.Harness.Cases.Checked.{Meets, run_case-ok}
use wasm_benchmark.Harness.Abi.{
  BenchReport, report_from, find_runtime, find_case, run_found, run_id, run_on, bench_run_case,
}

-- The case is in the table.
abbrev pub IsListed : Case → List Case → Type 0
IsListed case [] = ⊥
IsListed case (first ∷ rest) = (first ≡ case) ⊎ IsListed case rest

-- A test that holds gives its branch, and one that fails leaves the rest.
by_name :
    (first : Case) (rest : List Case) (id : String) (case : Case) (b : Bool)
    → str_eq first.id id ≡ b
    → (if b then some first else find_case rest id) ≡ some case
    → (find_case rest id ≡ some case → (case.id ≡ id) × IsListed case rest)
    → (case.id ≡ id) × IsListed case (first ∷ rest)
by_name first rest id case true t h further =
    let same : first ≡ case = ground arith in
    (sym (ap (λ (k : Case). k.id) same) ∙ (eq_iff first.id id).0 t, inl same)
by_name first rest id case false t h further = let (name, there) = further h in (name, inr there)

find_case-IsListed :
    (table : List Case) (id : String) (case : Case)
    → find_case table id ≡ some case
    → (case.id ≡ id) × IsListed case table
find_case-IsListed [] id case e = ground arith
find_case-IsListed (first ∷ rest) id case e =
    by_name first rest id case (str_eq first.id id) refl e (find_case-IsListed rest id case)

find_runtime-runtime_id :
    (table : List (Runtime × String × String)) (runtime : ℕ) (rt : Runtime)
    → find_runtime table runtime ≡ some rt
    → runtime_id rt ≡ runtime
find_runtime-runtime_id [] runtime rt e = ground arith
find_runtime-runtime_id ((r, token, row) ∷ rest) runtime rt e =
    elim (ℕ_discrete (runtime_id r) runtime) [
      | yes same ↦ let here : r ≡ rt = ground arith in sym (ap runtime_id here) ∙ same
      | no other ↦
          let further : find_runtime rest runtime ≡ some rt = ground arith in
          find_runtime-runtime_id rest runtime rt further
    ]

-- What is known of the run of a report.
pub record Accepted (S E : Type 0) (adapters : Adapters S E) (runtime : ℕ) (case_id : Option String)
    (s : S) (answer : BenchReport E × S) : Type 0 where
  pub rt : Runtime
  pub case : Case
  pub report : RunReport
  pub same_runtime : runtime_id rt ≡ runtime
  pub same_id : case_id ≡ some case.id
  pub listed : IsListed case cases
  pub no_crash : known_crash rt case.id ≡ none
  pub ran : run_shape adapters rt case case.shape s ≡ (ok report, answer.1)
  pub right : Meets case.expected report.result
  pub reported : answer.0 ≡ report_from (ok report)

module _ {S E : Type 0} (adapters : Adapters S E) where
  report_from-ok :
      (m : RunResult E RunReport) → (report_from m).ok_flag ≡ 1 → (r : RunReport) × (m ≡ ok r)
  unfolding report_from
  report_from-ok (ok r) e = (r, refl)
  report_from-ok (err m) e = ground arith

  run_found-ok :
      (rt : Runtime) (id : String) (found : Option Case) (s s' : S) (r : RunReport)
      → run_found adapters rt id found s ≡ (ok r, s')
      → (case : Case) × (found ≡ some case) × (run_case adapters rt case s ≡ (ok r, s'))
  unfolding run_found
  run_found-ok rt id none s s' r e = let clash = ap (λ x. x.0) e in ground arith
  run_found-ok rt id (some case) s s' r e = (case, refl, e)

  run_on-ok :
      (found : Option Runtime) (runtime : ℕ) (case_id : Option String) (s s' : S) (r : RunReport)
      → run_on adapters found runtime case_id s ≡ (ok r, s')
      → (rt : Runtime) × (id : String) × (found ≡ some rt)
        × (case_id ≡ some id)
        × (run_found adapters rt id (find_case cases id) s ≡ (ok r, s'))
  unfolding run_on run_id
  run_on-ok none runtime case_id s s' r e = let clash = ap (λ x. x.0) e in ground arith
  run_on-ok (some rt) runtime none s s' r e = let clash = ap (λ x. x.0) e in ground arith
  run_on-ok (some rt) runtime (some id) s s' r e = (rt, id, refl, refl, e)

  -- A report of `bench_run_case` with its flag set is that of a run of a listed case on the
  -- runtime of that number; the pair is no known crash, and the result is the reference.
  pub bench_run_case-Accepted :
      (runtime : ℕ) (case_id : Option String) (s : S)
      → (bench_run_case adapters runtime case_id s).0.ok_flag ≡ 1
      → Accepted S E adapters runtime case_id s (bench_run_case adapters runtime case_id s)
  unfolding bench_run_case
  bench_run_case-Accepted runtime case_id s flag =
      let run = run_on adapters (find_runtime runtimes runtime) runtime case_id s in
      let (r, is_ok) = report_from-ok run.0 flag in
      let (rt, id, at_runtime, at_id, found) =
        run_on-ok (find_runtime runtimes runtime) runtime case_id s run.1 r
          (ap (λ m. (m, run.1)) is_ok) in
      let (case, at_case, runs) = run_found-ok rt id (find_case cases id) s run.1 r found in
      let (name, there) = find_case-IsListed cases id case at_case in
      let (fresh, shape, right_result) = (run_case-ok adapters rt case s run.1 r).0 runs in
      record {
        rt = rt;
        case = case;
        report = r;
        same_runtime = find_runtime-runtime_id runtimes runtime rt at_runtime;
        same_id = at_id ∙ ap some (sym name);
        listed = there;
        no_crash = fresh;
        ran = shape;
        right = right_result;
        reported = ap report_from is_ok;
      }
