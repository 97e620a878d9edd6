-- ===== src/Runtimes/Wasmz/Released.antt =====
-- The objects of the wasmz adapter on every way out.
use wasm_benchmark.Base.{ℕ, suc, List, [], ◌∷◌, Option, ◌≡◌, ◌≢◌, Bool}
use wasm_benchmark.Harness.Window.{Window, After}
use wasm_benchmark.Runtimes.Trace.{
  Handle, error, closing, using, here, there, instance, wasm_module, store, linker, creations,
  releases, all_released, start, Legal,
}
use wasm_benchmark.Runtimes.Action.{handle, begin}
use wasm_benchmark.Runtimes.Thread.{run_on_thread-Keeps}
use wasm_benchmark.Runtimes.Keeps.{
  Keeps, Moves, with_new-Keeps, with_filled-Keeps, try_call-Keeps, unless_zero-Keeps,
  measuring_calls-Keeps, clocked-Keeps, try_unchecked-Keeps, measuring_samples-Keeps,
}
use wasm_benchmark.Runtimes.Wasmz.{
  Wasmz, fail_with, call_instance, run_workload_wasmz_iters_inner, String, porf_sample,
  instantiate_sample, instantiate_each_inner, run_graphql_validation_porf_wasmz_inner,
  run_instantiate_each_wasmz, run_workload_wasmz_iters, run_graphql_validation_porf_wasmz,
}

module _ {S : Type 0} (lib : Wasmz S) (clock : S → ℕ × S) where
  fail_with-Moves :
      {E : Type 0} (A : Type 0) (which : String → E) (live : List Handle) (e : ℕ)
      → Moves (handle error (suc e) ∷ live) (fail_with lib {A = A} which (suc e)) live
  unfolding Moves fail_with
  fail_with-Moves A which live e w l = closing _ (using _ (here, tt) l)

  call_instance-Keeps :
      (live : List Handle) (inst : ℕ) (name : List ℕ) (arg : ℕ)
      → Keeps (handle instance inst ∷ live) (call_instance lib clock inst name arg)
  unfolding call_instance
  call_instance-Keeps live inst name arg =
      try_call-Keeps _ _ _ _ _ (here, tt) (fail_with-Moves _ _ _)
        (λ results. clocked-Keeps _ _ clock _)

  run_workload_wasmz_iters_inner-Keeps :
      (env : Option ℕ) (window : Window) (after : After) (bytes name : List ℕ) (arg iters : ℕ)
      → Keeps [] (run_workload_wasmz_iters_inner lib clock env window after bytes name arg iters)
  unfolding run_workload_wasmz_iters_inner
  run_workload_wasmz_iters_inner-Keeps env window after bytes name arg iters =
      with_new-Keeps _ _ _ _ _ _ _ tt λ eng.
        with_new-Keeps _ _ _ _ _ _ _ (here, tt)
          λ st.
            try_call-Keeps _ _ _ _ _ (there here, tt) (fail_with-Moves _ _ _)
              (with_filled-Keeps _ _ _ _ _ λ m.
                try_call-Keeps _ _ _ _ _ (there here, (here, tt)) (fail_with-Moves _ _ _)
                  (with_filled-Keeps _ _ _ _ _ λ inst. unless_zero-Keeps _ _ _ _ (
                    measuring_calls-Keeps _ clock env window after _
                      (call_instance-Keeps _ inst name arg) iters)))

-- Without an error there is an object: what the code relies on where it does not check a pointer
-- for NULL.
pub record Creates {S : Type 0} (lib : Wasmz S) : Type 0 where
  pub modules :
      (e : ℕ) (bytes : List ℕ) (s : S)
      → (lib.module_new e bytes s).0.0 ≡ 0
      → (lib.module_new e bytes s).0.1 ≢ 0
  pub instances :
      (st m : ℕ) (s : S) → (lib.instance_new st m s).0.0 ≡ 0 → (lib.instance_new st m s).0.1 ≢ 0
  pub linked :
      (st m link : ℕ) (s : S)
      → (lib.instance_new_with_linker st m link s).0.0 ≡ 0
      → (lib.instance_new_with_linker st m link s).0.1 ≢ 0

module _ {S : Type 0} (lib : Wasmz S) (clock : S → ℕ × S) (creates : Creates lib) where
  instantiate_sample-Keeps :
      (live : List Handle) (st m : ℕ) (name : List ℕ) (arg : ℕ)
      → let own : List Handle = handle wasm_module m ∷ (handle store st ∷ live) in
        Keeps own (instantiate_sample lib clock st m name arg)
  unfolding instantiate_sample
  instantiate_sample-Keeps live st m name arg =
      try_unchecked-Keeps _ _ _ _ _ _ _ (there here, (here, tt)) (fail_with-Moves lib clock _ _ _)
        (creates.instances st m)
        λ inst.
          try_call-Keeps _ _ _ _ _ (here, tt) (fail_with-Moves lib clock _ _ _)
            λ results. clocked-Keeps _ _ clock _

  instantiate_each_inner-Keeps :
      (env : Option ℕ) (window : Window) (after : After) (bytes name : List ℕ) (arg : ℕ)
      → Keeps [] (instantiate_each_inner lib clock env window after bytes name arg)
  unfolding instantiate_each_inner
  instantiate_each_inner-Keeps env window after bytes name arg =
      with_new-Keeps _ _ _ _ _ _ _ tt λ eng.
        with_new-Keeps _ _ _ _ _ _ _ (here, tt)
          λ st.
            try_unchecked-Keeps _ _ _ _ _ _ _ (there here, tt) (fail_with-Moves lib clock _ _ _)
              (creates.modules eng bytes)
              λ m. unless_zero-Keeps _ _ _ _ (
                measuring_samples-Keeps _ clock env window after _
                  (instantiate_sample-Keeps _ st m name arg))

  porf_sample-Keeps :
      (live : List Handle) (st m link : ℕ)
      → let own : List Handle =
          handle wasm_module m ∷ (handle linker link ∷ (handle store st ∷ live)) in
        Keeps own (porf_sample lib clock st m link)
  unfolding porf_sample
  porf_sample-Keeps live st m link =
      try_unchecked-Keeps _ _ _ _ _ _ _ (there (there here), (here, (there here, tt)))
        (fail_with-Moves lib clock _ _ _) (creates.linked st m link)
        λ inst.
          try_call-Keeps _ _ _ _ _ (here, tt) (fail_with-Moves lib clock _ _ _)
            λ results. clocked-Keeps _ _ clock _

  porf_inner-Keeps :
      (env : Option ℕ) (window : Window) (after : After) (bytes : List ℕ)
      → Keeps [] (run_graphql_validation_porf_wasmz_inner lib clock env window after bytes)
  unfolding run_graphql_validation_porf_wasmz_inner
  porf_inner-Keeps env window after bytes = with_new-Keeps _ _ _ _ _ _ _ tt λ eng.
      with_new-Keeps _ _ _ _ _ _ _ (here, tt)
        λ st. with_new-Keeps _ _ _ _ _ _ _ tt λ link.
          try_call-Keeps _ _ _ _ _ (here, tt) (fail_with-Moves lib clock _ _ _)
            λ _.
              try_unchecked-Keeps _ _ _ _ _ _ _ (there (there here), tt)
                (fail_with-Moves lib clock _ _ _) (creates.modules eng bytes)
                λ m.
                  measuring_samples-Keeps _ clock env window after _ (porf_sample-Keeps _ st m link)

module _ {S : Type 0} (lib : Wasmz S) (clock : S → ℕ × S) (spawned : Bool) (env : Option ℕ)
    (window : Window) (after : After) (s : S) where
  -- Whatever the library answers, when the runner returns, by an error too, every object that it
  -- created has been deleted, the youngest first, and was alive at every use; error objects too.
  pub run_workload_wasmz_iters-Legal :
      (bytes name : List ℕ) (arg iters : ℕ)
      → let end =
          (run_workload_wasmz_iters lib clock spawned env window after bytes name arg iters
            (begin s)).1 in
        Legal end.log [] × ((h : Handle) → creations h end.log ≡ releases h end.log)
  unfolding run_workload_wasmz_iters Moves
  run_workload_wasmz_iters-Legal bytes name arg iters =
      let legal =
        run_on_thread-Keeps [] spawned _
          (run_workload_wasmz_iters_inner-Keeps lib clock env window after bytes name arg iters)
          (begin s) start in
      (legal, λ h. all_released h legal)

  -- The same of the runners that make an instance for each sample, for a library that creates an
  -- object whenever it answers no error.
  pub fresh_instances_wasmz-Legal :
      (creates : Creates lib) (bytes name : List ℕ) (arg : ℕ)
      → let each =
          (run_instantiate_each_wasmz lib clock spawned env window after bytes name arg
            (begin s)).1 in
        let porf =
          (run_graphql_validation_porf_wasmz lib clock spawned env window after bytes
            (begin s)).1 in
        Legal each.log []
        × Legal porf.log []
        × ((h : Handle) → creations h each.log ≡ releases h each.log)
        × ((h : Handle) → creations h porf.log ≡ releases h porf.log)
  unfolding run_instantiate_each_wasmz run_graphql_validation_porf_wasmz Moves
  fresh_instances_wasmz-Legal creates bytes name arg =
      let each =
        run_on_thread-Keeps [] spawned _
          (instantiate_each_inner-Keeps lib clock creates env window after bytes name arg) (begin s)
          start in
      let porf =
        run_on_thread-Keeps [] spawned _ (porf_inner-Keeps lib clock creates env window after bytes)
          (begin s) start in
      (each, porf, λ h. all_released h each, λ h. all_released h porf)
