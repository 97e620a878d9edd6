-- ===== src/Runtimes/Wamr.antt =====
-- crates/benchmark-core/src/wamr.rs over its C library. An i32 is its 32 bits. `init_ok` is what
-- `wasm_runtime_init` answered when the process called it, once.
pub mod Steps
pub mod Left
pub mod Fresh
use wasm_benchmark.Base.{
  ℕ, zero, suc, ◌*◌, List, [], ◌∷◌, ◌++◌, Bool, true, false, Option, none, some, get_or,
}
use Prim.Native.String.{String}
use wasm_benchmark.Harness.Window.{Window, After, RunReport, finish}
use wasm_benchmark.Harness.Measure.{Failure, init_warmup, steady_warmup, timed, rounds_for}
use wasm_benchmark.Runtimes.Trace.{Kind, Handle, wasm_module, instance, exec_env}
use wasm_benchmark.Runtimes.Action.{
  Result, done, raised, World, Ending, own, measured, panicked, Action, handle, pure, raise, invoke,
  release, owned, unless_zero, has_zero, ◌>>=◌, ◌>>◌, measuring_samples, elapsed, guarded,
}

-- The C functions of wasm_export.h, over the state of the library. What writes the error buffer
-- answers its text too; a call answers its return value with the words of argv or its i32 result.
pub record Wamr (S : Type 0) : Type 0 where
  pub load : List ℕ → S → (ℕ × String) × S
  pub unload : ℕ → S → S
  pub instantiate : ℕ → ℕ → ℕ → S → (ℕ × String) × S
  pub deinstantiate : ℕ → S → S
  pub lookup_function : ℕ → List ℕ → S → ℕ × S
  pub create_exec_env : ℕ → ℕ → S → (ℕ × Unit {0}) × S
  pub destroy_exec_env : ℕ → S → S
  pub call_wasm : ℕ → ℕ → List ℕ → S → (Bool × List ℕ) × S
  pub call_wasm_v : ℕ → ℕ → S → (Bool × ℕ) × S
  pub get_exception : ℕ → S → Option String × S

pub data WamrError : Type 0 where
  init_failed exec_env_null nul_in_name : WamrError
  load_failed instantiate_failed call_trap : String → WamrError
  not_found : List ℕ → WamrError

abbrev pub text_or : Option String → String
text_or none = "(no exception text)"
text_or (some text) = text

module _ {S E : Type 0} where
  abbrev pub on_null : {A : Type 0} → ℕ → Action S E A → Action S E A → Action S E A
  on_null zero fail body = fail
  on_null (suc p) fail body = body

  -- A pointer that is checked for NULL, and an object without a guard.
  unfoldable pub try_new :
      {A B : Type 0}
      → Kind
      → List Handle
      → (S → (ℕ × B) × S)
      → (B → Action S E A)
      → (ℕ → Action S E A)
      → Action S E A
  try_new kind hs create fail body = invoke hs create >>= λ answer.
      owned kind answer.0 >> on_null answer.0 (fail answer.1) (body answer.0)

-- How the measured part of the runner stops: at a failed call, or where the count overflows.
pub data Stop (E : Type 0) : Type 0 where
  stopped : Failure E → Stop E
  overflowed : Stop E

abbrev pub in_context :
    {S E A : Type 0} → (E → Failure E) → Result E A × World S → Result (Stop E) A × World S
in_context context (done a, w) = (done a, w)
in_context context (raised e, w) = (raised (stopped (context e)), w)

module _ {S E : Type 0} (call : Action S E (ℕ × ℕ)) where
  -- The timed loop, with the rounds left: the last value and the samples.
  unfoldable pub timed_calls : ℕ → ℕ → List ℕ → Action S (Stop E) (ℕ × List ℕ)
  timed_calls zero result samples = pure (result, samples)
  timed_calls (suc left) result samples =
      (λ w. in_context timed (call w)) >>= λ r. timed_calls left r.1 (samples ++ r.0 ∷ [])

  abbrev pub sized : Option ℕ → ℕ → Action S (Stop E) (ℕ × ℕ × List ℕ)
  sized none result = raise overflowed
  sized (some n) result = timed_calls n result [] >>= λ r. pure (n, r.0, r.1)

  -- Two warmups and the loop.
  unfoldable pub measured_part : Option ℕ → ℕ → Action S (Stop E) (ℕ × ℕ × List ℕ)
  unfolding timed_calls
  measured_part env iters = (λ w. in_context init_warmup (call w)) >>= λ _.
      (λ w. in_context steady_warmup (call w)) >>= λ warm.
      sized (rounds_for env iters warm.0) warm.1

-- `?` on the measured part, and what follows it.
abbrev pub and_then :
    {S E A B : Type 0}
    → Result (Stop E) A × World S
    → (A → Action S (Ending E) B)
    → Result (Ending E) B × World S
and_then (done a, w) body = body a w
and_then (raised (stopped e), w) body = (raised (measured e), w)
and_then (raised overflowed, w) body = (raised panicked, w)

abbrev pub or_panicked : {S E A : Type 0} → Option A → Action S (Ending E) A
or_panicked none = raise panicked
or_panicked (some a) = pure a

abbrev pub unless_uninit : {S E A : Type 0} → Bool → E → Action S E A → Action S E A
unless_uninit false e body = raise e
unless_uninit true e body = body

module _ {S : Type 0} (lib : Wamr S) (clock : S → ℕ × S) where
  -- The deletions that the code writes out before it returns.
  abbrev pub drop_module : {E : Type 0} → ℕ → Action S E Unit
  drop_module m = release (handle wasm_module m) (lib.unload m)

  abbrev pub drop_instance : {E : Type 0} → ℕ → Action S E Unit
  drop_instance inst = release (handle instance inst) (lib.deinstantiate inst)

  abbrev pub drop_exec_env : {E : Type 0} → ℕ → Action S E Unit
  drop_exec_env x = release (handle exec_env x) (lib.destroy_exec_env x)

  -- `exception_text`, and the closure's copy of it.
  abbrev pub trapped : {A : Type 0} → ℕ → Action S WamrError A
  trapped inst = invoke (handle instance inst ∷ []) (lib.get_exception inst) >>= λ text.
      raise (call_trap (text_or text))

  abbrev pub if_ok : {A : Type 0} → Bool → ℕ → Action S WamrError A → Action S WamrError A
  if_ok true inst body = body
  if_ok false inst body = trapped inst

  -- The closure `call` of the runner: argv[0] is the argument and then the result.
  unfoldable pub call_exported : ℕ → ℕ → ℕ → ℕ → Action S WamrError (ℕ × ℕ)
  call_exported inst x func arg =
      invoke (handle exec_env x ∷ (handle instance inst ∷ [])) (lib.call_wasm x func (arg ∷ []))
      >>= λ answer. if_ok answer.0 inst (elapsed clock >>= λ ns. pure (ns, get_or answer.1 0 0))

  -- What the runner does once it has a module, an instance, a function and an exec env.
  unfoldable pub measure_and_drop :
      Option ℕ → Window → After → ℕ → ℕ → ℕ → ℕ → ℕ → ℕ → Action S (Ending WamrError) RunReport
  measure_and_drop env window after m inst func x arg iters = elapsed clock >>= λ load_time. λ w.
      and_then (measured_part (call_exported inst x func arg) env iters w) λ (n, result, samples).
        drop_exec_env x
        >> drop_instance inst
        >> drop_module m
        >> or_panicked (finish window after result n load_time samples)

  unfoldable pub run_workload_wamr_iters :
      Bool
      → Option ℕ
      → Window
      → After
      → List ℕ
      → List ℕ
      → ℕ
      → ℕ
      → Action S (Ending WamrError) RunReport
  unfolding measure_and_drop
  run_workload_wamr_iters init_ok env window after wasm_bytes fn_name arg iters =
      unless_uninit init_ok (own init_failed) (
        try_new wasm_module [] (lib.load wasm_bytes) (λ msg. raise (own (load_failed msg)))
          λ m.
            try_new instance (handle wasm_module m ∷ [])
              (lib.instantiate m (32 * 1024) (8 * 1024 * 1024))
              (λ msg. drop_module m >> raise (own (instantiate_failed msg)))
              λ inst. unless_zero (own nul_in_name) (has_zero fn_name) (
                invoke (handle instance inst ∷ []) (lib.lookup_function inst fn_name) >>= λ func.
                on_null func
                  (drop_instance inst >> drop_module m >> raise (own (not_found fn_name)))
                  (try_new exec_env (handle instance inst ∷ [])
                    (lib.create_exec_env inst (32 * 1024))
                    (λ _. drop_instance inst >> drop_module m >> raise (own exec_env_null))
                    λ x. measure_and_drop env window after m inst func x arg iters)))

  unfoldable pub run_workload_wamr :
      Bool → Option ℕ → Window → After → List ℕ → List ℕ → ℕ → Action S (Ending WamrError) RunReport
  run_workload_wamr init_ok env window after wasm_bytes fn_name arg =
      run_workload_wamr_iters init_ok env window after wasm_bytes fn_name arg 0
