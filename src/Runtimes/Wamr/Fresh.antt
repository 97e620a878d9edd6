-- ===== src/Runtimes/Wamr/Fresh.antt =====
-- The runners of crates/benchmark-core/src/wamr.rs that make an instance for each sample.
pub mod Released
use wasm_benchmark.Base.{ℕ, ◌*◌, List, [], ◌∷◌, Bool, Option, get_or}
use Prim.Native.String.{String}
use wasm_benchmark.Harness.Window.{Window, After, RunReport}
use wasm_benchmark.Runtimes.Trace.{wasm_module, instance, exec_env}
use wasm_benchmark.Runtimes.Action.{
  Ending, own, Action, handle, pure, raise, invoke, guarded, unless_zero, has_zero, ◌>>=◌, ◌>>◌,
  elapsed, measuring_samples,
}
use wasm_benchmark.Runtimes.Wamr.{
  Wamr, WamrError, init_failed, exec_env_null, nul_in_name, load_failed, instantiate_failed,
  not_found, on_null, try_new, if_ok, drop_instance, drop_exec_env, unless_uninit,
}

module _ {S : Type 0} (lib : Wamr S) (clock : S → ℕ × S) where
  -- `load_module`, and the `ModGuard` on what it answers.
  unfoldable pub with_module :
      {A : Type 0} → List ℕ → (ℕ → Action S (Ending WamrError) A) → Action S (Ending WamrError) A
  with_module bytes body =
      try_new wasm_module [] (lib.load bytes) (λ msg. raise (own (load_failed msg)))
        λ m. guarded (handle wasm_module m) (lib.unload m) (body m)

  -- After the clock is read: the result or the exception's text, and then the two deletions.
  unfoldable pub call_and_drop : ℕ → ℕ → (S → (Bool × ℕ) × S) → Action S WamrError (ℕ × ℕ)
  call_and_drop inst x call = guarded (handle instance inst) (lib.deinstantiate inst) (
      guarded (handle exec_env x) (lib.destroy_exec_env x) (
        invoke (handle exec_env x ∷ (handle instance inst ∷ [])) call >>= λ answer.
        elapsed clock >>= λ ns. if_ok lib clock answer.0 inst (pure (ns, answer.1))))

  -- `call` is given the exec env and the function.
  unfoldable pub instantiate_sample :
      ℕ → List ℕ → ℕ → ℕ → (ℕ → ℕ → S → (Bool × ℕ) × S) → Action S WamrError (ℕ × ℕ)
  instantiate_sample m fn_name stack_size heap_size call =
      try_new instance (handle wasm_module m ∷ []) (lib.instantiate m stack_size heap_size)
        (λ msg. raise (instantiate_failed msg))
        λ inst. invoke (handle instance inst ∷ []) (lib.lookup_function inst fn_name) >>= λ func.
          on_null func (drop_instance lib clock inst >> raise (not_found fn_name)) (
            try_new exec_env (handle instance inst ∷ []) (lib.create_exec_env inst stack_size)
              (λ _. drop_instance lib clock inst >> raise exec_env_null)
              λ x. call_and_drop inst x (call x func))

  -- `wasm_runtime_call_wasm(env, func, 1, argv)`, with argv[0] as the result.
  abbrev pub call_with : ℕ → ℕ → ℕ → S → (Bool × ℕ) × S
  call_with arg x func s =
      let ((ok, argv), s') = lib.call_wasm x func (arg ∷ []) s in ((ok, get_or argv 0 0), s')

  module _ (init_ok : Bool) (env : Option ℕ) (window : Window) (after : After) where
    unfoldable pub run_instantiate_each_wamr :
        List ℕ → List ℕ → ℕ → Action S (Ending WamrError) RunReport
    run_instantiate_each_wamr wasm_bytes fn_name arg = unless_uninit init_ok (own init_failed) (
        with_module wasm_bytes λ m. unless_zero (own nul_in_name) (has_zero fn_name) (
          measuring_samples clock env window after
            (instantiate_sample m fn_name (32 * 1024) 0 (call_with arg))))

    -- The function `m`, with two results and no argument; the second is the i32.
    unfoldable pub run_graphql_validation_porf_wamr : List ℕ → Action S (Ending WamrError) RunReport
    run_graphql_validation_porf_wamr wasm_bytes = unless_uninit init_ok (own init_failed) (
        with_module wasm_bytes λ m.
          measuring_samples clock env window after
            (instantiate_sample m (109 ∷ []) (1024 * 1024) (4 * 1024 * 1024) lib.call_wasm_v))
