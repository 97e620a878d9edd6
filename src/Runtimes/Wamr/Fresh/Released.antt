-- ===== src/Runtimes/Wamr/Fresh/Released.antt =====
-- The objects of the WAMR runners that make an instance for each sample.
use wasm_benchmark.Base.{
  ◌≡◌, true, false, ◌*◌, ℕ, zero, suc, ◌≡◌, List, [], ◌∷◌, Bool, true, false, Option, ◌*◌,
}
use wasm_benchmark.Harness.Window.{Window, After}
use wasm_benchmark.Runtimes.Trace.{
  Handle, here, there, Legal, start, closing, using, wasm_module, instance, exec_env, creations,
  releases, all_released,
}
use wasm_benchmark.Runtimes.Action.{Ending, begin, handle, Action, raise, ◌>>◌, done}
use wasm_benchmark.Runtimes.Keeps.{
  Keeps, Moves, guarded-Keeps, unless_zero-Keeps, measuring_samples-Keeps,
}
use wasm_benchmark.Runtimes.Wamr.{
  Wamr, WamrError, on_null, try_new, drop_instance, not_found, exec_env_null,
}
use wasm_benchmark.Runtimes.Wamr.Steps.{try_new-Moves}
use wasm_benchmark.Runtimes.Wamr.Left.{if_ok-Keeps}
use wasm_benchmark.Runtimes.Wamr.Fresh.{
  with_module, call_and_drop, instantiate_sample, call_with, run_instantiate_each_wamr,
  run_graphql_validation_porf_wamr,
}

module _ {S : Type 0} (lib : Wamr S) (clock : S → ℕ × S) where
  call_and_drop-Moves :
      (m inst x : ℕ) (call : S → (Bool × ℕ) × S)
      → let own : List Handle = handle wasm_module m ∷ [] in
        Moves
          (handle exec_env x ∷ (handle instance inst ∷ own))
          (call_and_drop lib clock inst x call)
          own
  unfolding Moves call_and_drop
  call_and_drop-Moves m inst x call w l =
      let answer = (call w.library).0 in
      closing _ (
        closing _ (
          if_ok-Keeps lib clock m inst x answer.0 (λ v. (done (_, answer.1), v)) (λ v h. h) _
            (using _ (here, (there here, tt)) l)))

  with_function-Moves :
      (m inst func : ℕ) (name : List ℕ) (stack_size : ℕ) (call : ℕ → ℕ → S → (Bool × ℕ) × S)
      → let own : List Handle = handle wasm_module m ∷ [] in
        Moves
          (handle instance inst ∷ own)
          (on_null func (drop_instance lib clock inst >> raise (not_found name)) (
            try_new exec_env
              (handle instance inst ∷ [])
              (lib.create_exec_env inst stack_size)
              (λ _. drop_instance lib clock inst >> raise exec_env_null)
              λ x. call_and_drop lib clock inst x (call x func)))
          own
  unfolding Moves
  with_function-Moves m inst zero name stack_size call w l = closing _ l
  with_function-Moves m inst (suc func) name stack_size call w l =
      try_new-Moves _ _ _ _ _ _ (here, tt) _ (λ _ v h. closing _ h)
        (λ x. call_and_drop-Moves m inst x (call x (suc func))) w l

  sample-Keeps :
      (m : ℕ) (name : List ℕ) (stack_size heap_size : ℕ) (call : ℕ → ℕ → S → (Bool × ℕ) × S)
      → Keeps
          (handle wasm_module m ∷ [])
          (instantiate_sample lib clock m name stack_size heap_size call)
  unfolding Moves instantiate_sample
  sample-Keeps m name stack_size heap_size call w l =
      try_new-Moves _ _ _ _ _ _ (here, tt) _ (λ msg v h. h)
        (λ inst v h.
          with_function-Moves m inst (lib.lookup_function inst name v.library).0 name stack_size
            call _ (using _ (here, tt) h))
        w l

  with_module-Keeps :
      {A : Type 0} (bytes : List ℕ) (body : ℕ → Action S (Ending WamrError) A)
      → ((m : ℕ) → Keeps (handle wasm_module m ∷ []) (body m))
      → Keeps [] (with_module lib clock bytes body)
  unfolding with_module Moves
  with_module-Keeps bytes body k w l =
      try_new-Moves _ _ _ _ _ _ tt _ (λ msg v h. h)
        (λ m. guarded-Keeps [] (handle wasm_module m) (lib.unload m) (body m) (k m)) w l

module _ {S : Type 0} (lib : Wamr S) (clock : S → ℕ × S) (env : Option ℕ) (window : Window)
    (after : After) where
  each-Keeps :
      (init_ok : Bool) (bytes name : List ℕ) (arg : ℕ)
      → Keeps [] (run_instantiate_each_wamr lib clock init_ok env window after bytes name arg)
  unfolding run_instantiate_each_wamr Moves
  each-Keeps false bytes name arg w l = l
  each-Keeps true bytes name arg w l =
      with_module-Keeps lib clock bytes _
        (λ m. unless_zero-Keeps _ _ _ _ (
          measuring_samples-Keeps _ clock env window after _
            (sample-Keeps lib clock m name (32 * 1024) 0 (call_with lib clock arg))))
        w l

  porf-Keeps :
      (init_ok : Bool) (bytes : List ℕ)
      → Keeps [] (run_graphql_validation_porf_wamr lib clock init_ok env window after bytes)
  unfolding run_graphql_validation_porf_wamr Moves
  porf-Keeps false bytes w l = l
  porf-Keeps true bytes w l =
      with_module-Keeps lib clock bytes _
        (λ m.
          measuring_samples-Keeps _ clock env window after _
            (sample-Keeps lib clock m (109 ∷ []) (1024 * 1024) (4 * 1024 * 1024) lib.call_wasm_v))
        w l

  -- Whatever the library answers, when one of the two runners returns, by an error too, the module
  -- and every instance and exec env that it created have been deleted, each once, the youngest
  -- first, and each was alive at every use.
  pub fresh_instances_wamr-Legal :
      (s : S) (init_ok : Bool) (bytes name : List ℕ) (arg : ℕ)
      → let each =
          (run_instantiate_each_wamr lib clock init_ok env window after bytes name arg
            (begin s)).1 in
        let porf =
          (run_graphql_validation_porf_wamr lib clock init_ok env window after bytes (begin s)).1 in
        Legal each.log []
        × Legal porf.log []
        × ((h : Handle) → creations h each.log ≡ releases h each.log)
        × ((h : Handle) → creations h porf.log ≡ releases h porf.log)
  unfolding Moves
  fresh_instances_wamr-Legal s init_ok bytes name arg =
      let each = each-Keeps init_ok bytes name arg (begin s) start in
      let porf = porf-Keeps init_ok bytes (begin s) start in
      (each, porf, λ h. all_released h each, λ h. all_released h porf)
