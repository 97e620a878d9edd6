-- ===== src/Runtimes/Wasm3.antt =====
-- crates/benchmark-core/src/wasm3.rs over its C library. The loops of the runner that are written
-- out there are those of `measure_calls`; a result of the library is a text, or NULL for success.
pub mod Released
use wasm_benchmark.Base.{ℕ, zero, suc, ◌*◌, List, [], ◌∷◌, Bool, Option, none, some}
use Prim.Native.String.{String}
use wasm_benchmark.Harness.Window.{Window, After, RunReport}
use wasm_benchmark.Runtimes.Trace.{Kind, Handle, wasm_module, environment, runtime, handed}
use wasm_benchmark.Runtimes.Action.{
  Ending, own, Action, handle, raise, invoke, note, release, owned, unless_null, unless_zero,
  has_zero, ◌>>=◌, ◌>>◌, with_new, measuring_calls, measuring_samples, clocked,
}

-- The C functions of wasm3.h, over the state of the library.
pub record Wasm3 (S : Type 0) : Type 0 where
  pub new_environment : S → ℕ × S
  pub free_environment : ℕ → S → S
  pub new_runtime : ℕ → ℕ → S → ℕ × S
  pub free_runtime : ℕ → S → S
  pub parse_module : ℕ → List ℕ → S → (Option String × ℕ) × S
  pub free_module : ℕ → S → S
  pub load_module : ℕ → ℕ → S → Option String × S
  pub find_function : ℕ → List ℕ → S → (Option String × ℕ) × S
  pub call_function : ℕ → List ℕ → S → (Option String × Unit {0}) × S
  pub get_results : ℕ → S → (Option String × ℕ) × S

pub data Wasm3Error : Type 0 where
  environment_null runtime_null module_null nul_in_name : Wasm3Error
  parse_failed load_failed find_failed call_trap results_failed : String → Wasm3Error
  not_found : List ℕ → Wasm3Error

abbrev pub wasm3_stack_bytes : ℕ
wasm3_stack_bytes = 256 * 1024

module _ {S E : Type 0} where
  -- `m3_ok`, with what its error is mapped to.
  abbrev pub m3_ok : {A : Type 0} → Option String → (String → E) → Action S E A → Action S E A
  m3_ok none failed body = body
  m3_ok (some text) failed body = raise (failed text)

  unfoldable pub checked :
      {A B : Type 0}
      → List Handle
      → (S → (Option String × B) × S)
      → (String → E)
      → (B → Action S E A)
      → Action S E A
  checked hs call failed body = invoke hs call >>= λ answer. m3_ok answer.0 failed (body answer.1)

module _ {S : Type 0} (lib : Wasm3 S) {E : Type 0} (failed : Wasm3Error → E) where
  -- What follows `m3_LoadModule`: the runtime owns the module, or the module is freed.
  abbrev pub loaded : {A : Type 0} → ℕ → Option String → Action S E A → Action S E A
  loaded m none body = note (handed (handle wasm_module m)) >> body
  loaded m (some text) body =
      release (handle wasm_module m) (lib.free_module m) >> raise (failed (load_failed text))

  unfoldable pub load_parsed : {A : Type 0} → ℕ → ℕ → Action S E A → Action S E A
  load_parsed rt m body =
      invoke (handle wasm_module m ∷ (handle runtime rt ∷ [])) (lib.load_module rt m) >>= λ r.
      loaded m r body

  -- With the module checked for NULL, and without.
  unfoldable pub load_checked : {A : Type 0} → ℕ → Action S E A → ℕ → Action S E A
  unfolding load_parsed
  load_checked rt body m =
      owned wasm_module m >> unless_null (failed module_null) m (load_parsed rt m body)

  unfoldable pub load_unchecked : {A : Type 0} → ℕ → Action S E A → ℕ → Action S E A
  unfolding load_parsed
  load_unchecked rt body m = owned wasm_module m >> load_parsed rt m body

module _ {S : Type 0} (lib : Wasm3 S) (clock : S → ℕ × S) where
  -- The closure `call` of the runner; a function of a runtime stands for the runtime.
  unfoldable pub call_and_get : ℕ → ℕ → ℕ → Action S Wasm3Error (ℕ × ℕ)
  call_and_get rt func arg =
      checked (handle runtime rt ∷ []) (lib.call_function func (arg ∷ [])) call_trap λ _.
        checked (handle runtime rt ∷ []) (lib.get_results func) results_failed
          λ ret. clocked clock ret

  unfoldable pub run_workload_wasm3_iters :
      Option ℕ → Window → After → List ℕ → List ℕ → ℕ → ℕ → Action S (Ending Wasm3Error) RunReport
  run_workload_wasm3_iters env window after wasm_bytes fn_name arg iters =
      with_new environment [] lib.new_environment (own environment_null) lib.free_environment λ e.
        with_new runtime (handle environment e ∷ []) (lib.new_runtime e wasm3_stack_bytes)
          (own runtime_null) lib.free_runtime
          λ rt.
            checked (handle environment e ∷ []) (lib.parse_module e wasm_bytes)
              (λ text. own (parse_failed text))
              (load_checked lib own rt (
                unless_zero (own nul_in_name) (has_zero fn_name) (
                  checked (handle runtime rt ∷ []) (lib.find_function rt fn_name)
                    (λ text. own (find_failed text))
                    λ func.
                      unless_null (own (not_found fn_name)) func
                        (measuring_calls clock env window after iters (call_and_get rt func arg)))))

  unfoldable pub run_workload_wasm3 :
      Option ℕ → Window → After → List ℕ → List ℕ → ℕ → Action S (Ending Wasm3Error) RunReport
  unfolding run_workload_wasm3_iters
  run_workload_wasm3 env window after wasm_bytes fn_name arg =
      run_workload_wasm3_iters env window after wasm_bytes fn_name arg 0

  -- A sample on a fresh runtime, which is freed after the clock is read.
  unfoldable pub instantiate_sample : ℕ → List ℕ → List ℕ → ℕ → Action S Wasm3Error (ℕ × ℕ)
  unfolding call_and_get
  instantiate_sample e wasm_bytes fn_name arg =
      with_new runtime (handle environment e ∷ []) (lib.new_runtime e wasm3_stack_bytes)
        runtime_null lib.free_runtime
        λ rt. checked (handle environment e ∷ []) (lib.parse_module e wasm_bytes) parse_failed (
          load_unchecked lib (λ failure. failure) rt
            (checked (handle runtime rt ∷ []) (lib.find_function rt fn_name) find_failed
              λ func. call_and_get rt func arg))

  unfoldable pub run_instantiate_each_wasm3 :
      Option ℕ → Window → After → List ℕ → List ℕ → ℕ → Action S (Ending Wasm3Error) RunReport
  unfolding instantiate_sample
  run_instantiate_each_wasm3 env window after wasm_bytes fn_name arg =
      with_new environment [] lib.new_environment (own environment_null) lib.free_environment λ e.
        unless_zero (own nul_in_name) (has_zero fn_name)
          (measuring_samples clock env window after (instantiate_sample e wasm_bytes fn_name arg))
